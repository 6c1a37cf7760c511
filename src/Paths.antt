-- ===== src/Paths.antt =====
-- common/utils.cpp, the path helpers: `joinPath`, `getFilename` and `getDirectory`, on a POSIX
-- system (the branch under `_WIN32` joins with a backslash).
pub mod Laws
use computer_network_lab.Prelude.{
  ℕ, suc, ◌+◌, Bool, true, false, ◌&&◌, ◌||◌, not, Option, none, some, [], ◌∷◌, ◌++◌, ◌==◌,
  if◌then◌else◌, Bytes, take, drop,
}
use computer_network_lab.Filename.{is_empty, slash, backslash}

abbrev pub is_separator : ℕ → Bool
is_separator c = c == slash || c == backslash

-- `back()` of a nonempty string is a separator.
abbrev pub ends_in_separator : Bytes → Bool
ends_in_separator [] = false
ends_in_separator (c ∷ []) = is_separator c
ends_in_separator (c ∷ d ∷ s) = ends_in_separator (d ∷ s)

-- `front()` of a nonempty string is a separator.
abbrev pub starts_with_separator : Bytes → Bool
starts_with_separator [] = false
starts_with_separator (c ∷ s) = is_separator c

-- `joinPath`.
unfoldable pub join_path : Bytes → Bytes → Bytes
join_path base child =
    if is_empty base
    then child
    else if is_empty child
    then base
    else if ends_in_separator base && starts_with_separator child
    then base ++ drop 1 child
    else if not (ends_in_separator base) && not (starts_with_separator child)
    then base ++ slash ∷ child
    else base ++ child

-- `find_last_of("/\\")`.
unfoldable pub find_last_separator : Bytes → Option ℕ
find_last_separator [] = none
find_last_separator (c ∷ s) = elim (find_last_separator s) [
  | some pos ↦ some (suc pos)
  | none ↦ if is_separator c then some 0 else none
]

-- `getFilename`.
unfoldable pub get_filename : Bytes → Bytes
get_filename path = elim (find_last_separator path) [ none ↦ path | some pos ↦ drop (suc pos) path ]

-- `getDirectory`.
unfoldable pub get_directory : Bytes → Bytes
get_directory path = elim (find_last_separator path) [ none ↦ [] | some pos ↦ take pos path ]
