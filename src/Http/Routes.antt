-- ===== src/Http/Routes.antt =====
-- What the routes do to the files, on every branch.
use computer_network_lab.Prelude.{
  ◌≡◌, ◌≢◌, ◌⊎◌, refl, ◌∙◌, inl, inr, true, false, Bool-cases, none, Option-cases, [], arith, Bytes,
}
use computer_network_lab.Filename.{is_valid_filename}
use computer_network_lab.Paths.{join_path, ends_in_separator}
use computer_network_lab.Paths.Laws.{join_path_cases, is_valid_filename-IsComponent}
use computer_network_lab.FileSystem.{FileSystem, IsPosix, file_exists, rename_file}
use computer_network_lab.Http.{
  HttpServerConfig, HttpState, both_names, file_path, count_http, refuse, rename_by_callback,
  check_rename, rename_route,
}

-- In a directory that is named without a separator at its end, the routes' path of a valid name is
-- the callbacks' path.
file_path-join_path :
    (fs : FileSystem) (config : HttpServerConfig) (name : Bytes)
    → config.backup_dir ≢ []
    → ends_in_separator config.backup_dir ≡ false
    → is_valid_filename name ≡ true
    → join_path config.backup_dir name ≡ file_path fs config name
file_path-join_path fs config name h k v =
    join_path_cases config.backup_dir name h (is_valid_filename-IsComponent name v) ∙ rw k refl

-- What a rename by the routes has done: the target was free, and the file has moved with its content, so
-- that nothing is left under the old name.
pub record IsMoved (fs : FileSystem) (p q : Bytes) (before after : fs.Disk) : Type 0 where
  pub free : file_exists fs before q ≡ false
  pub there : file_exists fs before p ≡ true
  pub moved : fs.regular after q ≡ fs.regular before p
  pub gone : fs.regular after p ≡ none

-- POST /api/rename, in a backup directory that is named without a separator at its end: the response
-- is 200, the target was free, the file has moved with its content, and nothing is left under the old
-- name; or the response is another and the disk is as before. No file is overwritten.
pub rename_route_cases :
    (fs : FileSystem) (laws : IsPosix fs) (config : HttpServerConfig) (old_name new_name : Bytes)
    (s : HttpState fs)
    → config.backup_dir ≢ []
    → ends_in_separator config.backup_dir ≡ false
    → let t = rename_route fs config (both_names old_name new_name) s in
      ((t.0.status ≡ 200)
        × IsMoved fs (file_path fs config old_name) (file_path fs config new_name) s.disk t.1.disk)
      ⊎ ((t.0.status ≢ 200) × (t.1.disk ≡ s.disk))
unfolding rename_route check_rename rename_by_callback count_http refuse rename_file
rename_route_cases fs laws config old_name new_name s h k =
    elim (Bool-cases (is_valid_filename old_name)) [
      | inr v ↦ rw v (inr (λ e. omega arith, refl))
      | inl v ↦ elim (Bool-cases (is_valid_filename new_name)) [
        | inr w ↦ rw (v, w) (inr (λ e. omega arith, refl))
        | inl w ↦ elim (Bool-cases (file_exists fs s.disk (file_path fs config old_name))) [
          | inr x ↦ rw (v, w, x) (inr (λ e. omega arith, refl))
          | inl x ↦ elim (Bool-cases (file_exists fs s.disk (file_path fs config new_name))) [
            | inl y ↦ rw (v, w, x, y) (inr (λ e. omega arith, refl))
            | inr y ↦
                let old = file_path-join_path fs config old_name h k v in
                let new = file_path-join_path fs config new_name h k w in
                elim (Option-cases (
                  fs.rename s.disk (file_path fs config old_name) (file_path fs config new_name))) [
                    | inl u ↦
                        rw (v, w, x, y, old, new)
                          (rw (u, rename_file) (inr (λ e. omega arith, refl)))
                    | inr (d, u) ↦
                        rw (v, w, x, y, old, new)
                          (rw (u, rename_file)
                            (inl (
                              refl,
                              record {
                                free = y;
                                there = x;
                                moved = laws.rename_target s.disk _ _ u;
                                gone = laws.rename_source s.disk _ _ u (λ same. cc);
                              },
                            )))
                  ]
          ]
        ]
      ]
    ]
