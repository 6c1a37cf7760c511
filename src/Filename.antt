-- ===== src/Filename.antt =====
-- common/utils.cpp, the filename rules: `isValidFilename`, `getFilenameValidationError`,
-- `sanitizeFilename`, and `toLower`, which they call. A name is its bytes; the locale is "C".
pub mod Tests
pub mod Devices
pub mod Reserved
pub mod Safety
pub mod Sanitize
use mathlib.Core.List.{reverse}
use computer_network_lab.Prelude.{
  ℕ, ◌+◌, Bool, true, false, ◌&&◌, ◌||◌, List, [], ◌∷◌, ◌++◌, map, ltb, leb, ◌==◌, if◌then◌else◌,
  Bytes, codes, bytes_eq, contains, length, get_or,
}

abbrev pub is_empty {ℓ} : {A : Type ℓ} → List A → Bool
is_empty [] = true
is_empty (x ∷ xs) = false

abbrev pub slash : ℕ
slash = b'/'

abbrev pub backslash : ℕ
backslash = b'\\'

abbrev pub dot : ℕ
dot = b'.'

-- `std::tolower` in the "C" locale.
unfoldable pub to_lower_char : ℕ → ℕ
to_lower_char c = if leb b'A' c && leb c b'Z' then c + 32 else c

-- `toLower`.
unfoldable pub to_lower : Bytes → Bytes
to_lower s = map to_lower_char s

-- Whether the string begins with a dot.
abbrev pub dot_first : Bytes → Bool
dot_first [] = false
dot_first (c ∷ s) = c == dot

-- `find("..") != npos`.
unfoldable pub contains_dots : Bytes → Bool
contains_dots [] = false
contains_dots (c ∷ s) = (c == dot && dot_first s) || contains_dots s

abbrev pub invalid_chars : Bytes
invalid_chars = codes "<>:\"|?*"

-- The loop over the characters: the first error, or the empty text.
unfoldable pub check_chars : Bytes → Bytes
unfolding contains
check_chars [] = []
check_chars (c ∷ s) =
    let rest = check_chars s in
    if contains c invalid_chars
    then codes "Invalid character in filename: " ++ c ∷ []
    else if ltb c 32
    then codes "Control characters are not allowed"
    else rest

-- The part before the first dot.
unfoldable pub stem : Bytes → Bytes
stem [] = []
stem (c ∷ s) = let rest = stem s in if c == dot then [] else c ∷ rest

abbrev pub reserved : List Bytes
reserved =
    codes "con"
    ∷ codes "prn"
    ∷ codes "aux"
    ∷ codes "nul"
    ∷ codes "com1"
    ∷ codes "com2"
    ∷ codes "com3"
    ∷ codes "com4"
    ∷ codes "com5"
    ∷ codes "com6"
    ∷ codes "com7"
    ∷ codes "com8"
    ∷ codes "com9"
    ∷ codes "lpt1"
    ∷ codes "lpt2"
    ∷ codes "lpt3"
    ∷ codes "lpt4"
    ∷ codes "lpt5"
    ∷ codes "lpt6"
    ∷ codes "lpt7"
    ∷ codes "lpt8"
    ∷ codes "lpt9"
    ∷ []

-- The loop over the reserved names.
unfoldable pub is_one_of : Bytes → List Bytes → Bool
is_one_of s [] = false
is_one_of s (r ∷ rs) = bytes_eq s r || is_one_of s rs

-- What follows the loop over the characters.
unfoldable pub check_reserved : Bytes → Bytes
unfolding is_one_of stem to_lower
check_reserved s =
    if is_one_of (stem (to_lower s)) reserved then codes "Reserved filename: " ++ s else []

-- `getFilenameValidationError`: the empty text stands for a valid name.
unfoldable pub get_filename_validation_error : Bytes → Bytes
get_filename_validation_error s =
    let e = check_chars s in
    if is_empty s
    then codes "Filename cannot be empty"
    else if ltb 255 (length s)
    then codes "Filename too long (max 255 characters)"
    else if contains_dots s
    then codes "Path traversal attempt detected (..)"
    else if get_or s 0 0 == slash || get_or s 0 0 == backslash
    then codes "Absolute paths are not allowed"
    else if leb 2 (length s) && (get_or s 1 0 == b':')
    then codes "Windows absolute paths are not allowed"
    else if contains slash s || contains backslash s
    then codes "Path separators are not allowed in filename"
    else if contains 0 s
    then codes "Null bytes are not allowed"
    else if is_empty e
    then check_reserved s
    else e

-- `isValidFilename`.
unfoldable pub is_valid_filename : Bytes → Bool
is_valid_filename s = is_empty (get_filename_validation_error s)

abbrev pub unsafe_chars : Bytes
unsafe_chars = codes "<>:\"|?*\\/"

-- The loop of `sanitizeFilename`.
unfoldable pub replace_chars : Bytes → Bytes
unfolding contains
replace_chars [] = []
replace_chars (c ∷ s) =
    let rest = replace_chars s in
    if contains c unsafe_chars then b'_' ∷ rest else if ltb c 32 then rest else c ∷ rest

abbrev pub is_padding : ℕ → Bool
is_padding c = c == b' ' || c == dot

-- The loop that erases the first character while it is a space or a dot.
unfoldable pub drop_padding : Bytes → Bytes
drop_padding [] = []
drop_padding (c ∷ s) = let rest = drop_padding s in if is_padding c then rest else c ∷ s

-- The loop that pops the last character is the same loop on the reversed text.
unfoldable pub drop_padding_back : Bytes → Bytes
unfolding drop_padding
drop_padding_back s = reverse (drop_padding (reverse s))

-- `sanitizeFilename`.
unfoldable pub sanitize_filename : Bytes → Bytes
sanitize_filename s =
    let result = drop_padding_back (drop_padding (replace_chars s)) in
    if is_empty result then codes "unnamed" else result
