-- ===== src/Paths/Laws.antt =====
-- A joined path lies directly in its base directory, and is taken apart again.
use computer_network_lab.Prelude.{
  ℕ, ◌≡◌, refl, ap, ◌∙◌, ◌≢◌, inl, inr, true, false, none, some, [], ◌∷◌, ◌++◌, arith,
  if◌then◌else◌, Bytes, All, Lacks, Bool-cases, length, take-length_append, drop-suc-length_append,
  append_assoc,
}
use computer_network_lab.Filename.{slash, backslash, is_valid_filename}
use computer_network_lab.Filename.Safety.{is_valid_filename-Lacks}
use computer_network_lab.Paths.{
  is_separator, ends_in_separator, join_path, find_last_separator, get_filename, get_directory,
}

-- A text that is one path component.
pub record IsComponent (s : Bytes) : Type 0 where
  pub nonempty : s ≢ []
  pub no_separator : All (λ c. is_separator c ≡ false) s

no_separator_of :
    (s : Bytes) → Lacks slash s → Lacks backslash s → All (λ c. is_separator c ≡ false) s
no_separator_of [] h k = tt
no_separator_of (c ∷ s) (h, h') (k, k') = (ground arith, no_separator_of s h' k')

pub is_valid_filename-IsComponent : (s : Bytes) → is_valid_filename s ≡ true → IsComponent s
is_valid_filename-IsComponent s h =
    let t = is_valid_filename-Lacks s h in
    record { nonempty = t.3; no_separator = no_separator_of s t.0 t.1 }

find_last-none : (s : Bytes) → All (λ c. is_separator c ≡ false) s → find_last_separator s ≡ none
unfolding find_last_separator
find_last-none [] h = refl
find_last-none (c ∷ s) (p, h) = rw (find_last-none s h, p)

-- The separator before a component is the last one.
find_last-append :
    (d : Bytes) (c : ℕ) (s : Bytes)
    → is_separator c ≡ true
    → All (λ b. is_separator b ≡ false) s
    → find_last_separator (d ++ c ∷ s) ≡ some (length d)
unfolding find_last_separator
find_last-append [] c s p h = rw (find_last-none s h, p)
find_last-append (b ∷ d) c s p h = rw (find_last-append d c s p h)

split_at_last :
    (d : Bytes) (c : ℕ) (s : Bytes)
    → is_separator c ≡ true
    → All (λ b. is_separator b ≡ false) s
    → (get_filename (d ++ c ∷ s) ≡ s) × (get_directory (d ++ c ∷ s) ≡ d)
unfolding get_filename get_directory
split_at_last d c s p h = (
  rw (find_last-append d c s p h, get_filename) (drop-suc-length_append d c s),
  rw (find_last-append d c s p h, get_directory) (take-length_append d (c ∷ s)),
)

-- The base directory without the separator that it may end in.
unfoldable pub base_directory : Bytes → Bytes
base_directory [] = []
base_directory (c ∷ []) = if is_separator c then [] else c ∷ []
base_directory (c ∷ d ∷ s) = c ∷ base_directory (d ∷ s)

base_directory-ends :
    (base : Bytes)
    → ends_in_separator base ≡ true
    → (c : ℕ) × (is_separator c ≡ true) × (base ≡ base_directory base ++ c ∷ [])
unfolding base_directory
base_directory-ends [] h = cc
base_directory-ends (c ∷ []) h = (c, h, rw h)
base_directory-ends (c ∷ d ∷ s) h =
    let (e, p, q) = base_directory-ends (d ∷ s) h in (e, p, ap (λ t. c ∷ t) q)

base_directory-eq : (base : Bytes) → ends_in_separator base ≡ false → base_directory base ≡ base
unfolding base_directory
base_directory-eq [] h = refl
base_directory-eq (c ∷ []) h = rw h
base_directory-eq (c ∷ d ∷ s) h = ap (λ t. c ∷ t) (base_directory-eq (d ∷ s) h)

pub join_path_cases :
    (base name : Bytes)
    → base ≢ []
    → IsComponent name
    → join_path base name ≡ (if ends_in_separator base then base ++ name else base ++ slash ∷ name)
unfolding join_path
join_path_cases [] name h v = absurd (h refl)
join_path_cases base [] h v = absurd (v.nonempty refl)
join_path_cases (b ∷ base) (n ∷ name) h v = elim (Bool-cases (ends_in_separator (b ∷ base))) [
  | inl e ↦ rw (e, v.no_separator.0)
  | inr e ↦ rw (e, v.no_separator.0)
]

-- A joined path is the base directory, a separator and the component.
join_path_form :
    (base name : Bytes)
    → base ≢ []
    → IsComponent name
    → (c : ℕ) × (is_separator c ≡ true) × (join_path base name ≡ base_directory base ++ c ∷ name)
join_path_form base name h v = elim (Bool-cases (ends_in_separator base)) [
  | inl e ↦
      let (c, p, q) = base_directory-ends base e in
      (
        c,
        p,
        join_path_cases base name h v
            ∙ rw e (ap (λ t. t ++ name) q ∙ append_assoc (base_directory base) (c ∷ []) name),
      )
  | inr e ↦ (slash, refl, join_path_cases base name h v ∙ rw (e, base_directory-eq base e))
]

-- Joining a directory and one component gives a path whose last component is that one and whose
-- directory is the given one, less the separator that it may end in.
pub join_path_split :
    (base name : Bytes)
    → base ≢ []
    → IsComponent name
    → (get_filename (join_path base name) ≡ name)
      × (get_directory (join_path base name) ≡ base_directory base)
join_path_split base name h v =
    let (c, p, e) = join_path_form base name h v in
    rw e (split_at_last (base_directory base) c name p v.no_separator)
