-- ===== src/Http/Reads.antt =====
-- src/server/http_server.cpp: the routes that change no file. A response is the JSON's fields.
use computer_network_lab.Prelude.{
  ℕ, ◌+◌, ◌-◌, ◌%◌, ◌≡◌, refl, sym, append_assoc, ap, ◌∙◌, true, ◌||◌, Option, none, some, List, [],
  ◌∷◌, ◌++◌, map, Bool-cases, Option-cases, inl, inr, Bytes, codes, bytes_eq, length, All,
}
use computer_network_lab.Metrics.{Metrics, u64, get_request_count, get_error_count}
use computer_network_lab.FileSystem.{
  FileSystem, file_exists, regular_entries, list_directory, get_file_size,
}
use computer_network_lab.Http.{HttpServerConfig, HttpState, file_path, count_http}

-- An element of "files".
pub record FileInfo : Type 0 where
  pub name : Bytes
  pub size : ℕ

-- The counters of a command's or an endpoint's requests or errors.
pub record ByCommand : Type 0 where
  pub ls : ℕ
  pub send : ℕ
  pub remove : ℕ
  pub rename : ℕ

pub record ByEndpoint : Type 0 where
  pub upload : ℕ
  pub delete : ℕ
  pub rename : ℕ

-- The fields of /api/metrics that are counters. `succeeded` is the difference of unsigned numbers from
-- which the success rate is computed.
pub record Dashboard : Type 0 where
  pub requests : ByCommand
  pub http_requests : ByEndpoint
  pub http_total : ℕ
  pub errors : ByCommand
  pub http_errors : ByEndpoint
  pub bytes_received : ℕ
  pub bytes_sent : ℕ
  pub send_sessions : ℕ
  pub send_failures : ℕ
  pub succeeded : ℕ

unfoldable pub by_command : (Bytes → ℕ) → ByCommand
by_command count = record {
  ls = count (codes "ls");
  send = count (codes "send");
  remove = count (codes "remove");
  rename = count (codes "rename");
}

unfoldable pub by_endpoint : (Bytes → ℕ) → ByEndpoint
by_endpoint count = record {
  upload = count (codes "http_upload");
  delete = count (codes "http_delete");
  rename = count (codes "http_rename");
}

unfoldable pub dashboard : Metrics → Dashboard
dashboard m = record {
  requests = by_command (λ key. get_request_count key m);
  http_requests = by_endpoint (λ key. get_request_count key m);
  http_total = m.http_requests;
  errors = by_command (λ key. get_error_count key m);
  http_errors = by_endpoint (λ key. get_error_count key m);
  bytes_received = m.bytes_received;
  bytes_sent = m.bytes_sent;
  send_sessions = m.send_sessions;
  send_failures = m.send_failures;
  succeeded = (m.send_sessions + (u64 - m.send_failures)) % u64;
}

module _ (fs : FileSystem) (config : HttpServerConfig) where
  -- GET /healthz; its status is always "ok".
  unfoldable pub health_route : HttpState fs → HttpState fs
  health_route s = count_http fs config (codes "/healthz") (codes "GET") s

  unfoldable pub file_info : fs.Disk → Bytes → FileInfo
  file_info d name = record { name = name; size = get_file_size fs d (file_path fs config name) }

  -- GET /api/files, with the callback that `Server::initialize` sets.
  unfoldable pub files_route : HttpState fs → List FileInfo × HttpState fs
  files_route s =
      let t = count_http fs config (codes "/api/files") (codes "GET") s in
      (map (file_info t.disk) (list_directory fs t.disk config.backup_dir), t)

  -- GET /api/metrics.
  unfoldable pub metrics_route : HttpState fs → Dashboard × HttpState fs
  metrics_route s =
      let t = count_http fs config (codes "/api/metrics") (codes "GET") s in
      (dashboard t.metrics, t)

  -- An entry with the size of the file that is there.
  abbrev pub IsInfo : fs.Disk → FileInfo → Type 0
  IsInfo d info =
      (content : Bytes) × (fs.regular d (file_path fs config info.name) ≡ some content)
      × (info.size ≡ length content)

  file_info-IsInfo :
      (d : fs.Disk) (name : Bytes)
      → file_exists fs d (file_path fs config name) ≡ true
      → IsInfo d (file_info d name)
  unfolding file_info get_file_size file_exists
  file_info-IsInfo d name h = elim (Option-cases (fs.regular d (file_path fs config name))) [
    | inl e ↦ absurd (let k = rw (e, file_exists) at h in cc)
    | inr (content, e) ↦
        (content, e, ap (λ (o : Option Bytes). elim o [ none ↦ 0 | some c ↦ length c ]) e)
  ]

  infos :
      (d : fs.Disk) (names : List Bytes)
      → All (IsInfo d) (map (file_info d) (regular_entries fs d config.backup_dir names))
  unfolding regular_entries
  infos d [] = tt
  infos d (name ∷ names) =
      elim (Bool-cases (bytes_eq name (codes ".") || bytes_eq name (codes ".."))) [
        | inl e ↦ rw e (infos d names)
        | inr e ↦ elim (Bool-cases (file_exists fs d (config.backup_dir ++ codes "/" ++ name))) [
          | inl k ↦
              let there : file_exists fs d (file_path fs config name) ≡ true =
                ap (file_exists fs d) (sym (append_assoc config.backup_dir (codes "/") name)) ∙ k in
              rw e (rw k (file_info-IsInfo d name there, infos d names))
          | inr k ↦ rw e (rw k (infos d names))
        ]
      ]

  infos_of :
      (d : fs.Disk) (o : Option (List Bytes))
      → All (IsInfo d) (
          map
            (file_info d)
            (elim o [ none ↦ [] | some names ↦ regular_entries fs d config.backup_dir names ]))
  infos_of d none = tt
  infos_of d (some names) = infos d names

  names_of_infos :
      (d : fs.Disk) (names : List Bytes)
      → map (λ (i : FileInfo). i.name) (map (file_info d) names) ≡ names
  unfolding file_info
  names_of_infos d [] = refl
  names_of_infos d (name ∷ names) = ap (λ k. name ∷ k) (names_of_infos d names)

  -- GET /api/files lists the names that `listDirectory` gives, each with the length of the content that
  -- the file has, and changes nothing on the disk.
  pub files_route_lists :
      (s : HttpState fs)
      → (map (λ (i : FileInfo). i.name) (files_route s).0
          ≡ list_directory fs s.disk config.backup_dir)
        × All (IsInfo s.disk) (files_route s).0
        × ((files_route s).1.disk ≡ s.disk)
  unfolding files_route count_http list_directory
  files_route_lists s = (
    names_of_infos s.disk (list_directory fs s.disk config.backup_dir),
    infos_of s.disk (fs.entries s.disk config.backup_dir),
    refl,
  )
