-- ===== src/Filename/Tests.antt =====
-- The cases of tests/test_utils.cpp for the filename rules, and the theorems at such names.
use computer_network_lab.Prelude.{
  ◌≡◌, refl, ◌↔◌, true, codes, [], Bytes, contains, bytes_eq, replicate,
}
use computer_network_lab.Filename.{
  is_valid_filename, sanitize_filename, get_filename_validation_error, contains_dots, check_chars,
  check_reserved, to_lower_char, replace_chars, drop_padding, drop_padding_back,
}
use computer_network_lab.Filename.Safety.{is_valid_filename-IsSafeName, IsSafeName}

-- The check and the cleaning, with all that they call open.
abbrev verdict : Bytes → Bytes
unfolding get_filename_validation_error contains_dots contains check_chars check_reserved bytes_eq
    to_lower_char
verdict s = get_filename_validation_error s

abbrev cleaned : Bytes → Bytes
unfolding sanitize_filename replace_chars contains drop_padding drop_padding_back
cleaned s = sanitize_filename s

valid_names :
    (verdict (codes "document.backup.tar.gz") ≡ [])
    × (verdict (codes "file-name.pdf") ≡ [])
    × (verdict (codes "a") ≡ [])
    × (verdict (replicate 255 b'a') ≡ [])
unfolding verdict
valid_names = (refl, refl, refl, refl)

invalid_names :
    (verdict (codes "../secret") ≡ codes "Path traversal attempt detected (..)")
    × (verdict (codes "C:\\Windows") ≡ codes "Windows absolute paths are not allowed")
    × (verdict (codes "a/b") ≡ codes "Path separators are not allowed in filename")
    × (verdict (codes "file?name") ≡ codes "Invalid character in filename: ?")
    × (verdict (codes "LPT1") ≡ codes "Reserved filename: LPT1")
    × (verdict (codes "con.txt") ≡ codes "Reserved filename: con.txt")
    × (verdict (replicate 256 b'a') ≡ codes "Filename too long (max 255 characters)")
unfolding verdict
invalid_names = (refl, refl, refl, refl, refl, refl, refl)

-- A sanitized name may still be refused.
sanitized_reserved :
    (cleaned (codes " CON.txt. ") ≡ codes "CON.txt")
    × (verdict (codes "CON.txt") ≡ codes "Reserved filename: CON.txt")
unfolding cleaned verdict
sanitized_reserved = (refl, refl)

is_valid_filename-IsSafeName_example :
    (is_valid_filename (codes "con") ≡ true) ↔ IsSafeName (codes "con")
is_valid_filename-IsSafeName_example = is_valid_filename-IsSafeName (codes "con")
