-- ===== src/Strings.antt =====
-- src/common/utils.cpp: splitting a text, and the identifiers of requests.
pub mod Split
pub mod RequestId
pub mod Tests
use computer_network_lab.Prelude.{
  ℕ, zero, suc, ◌+◌, ◌*◌, ◌-◌, ◌%◌, ◌/◌, ◌^◌, Bool, true, false, ◌&&◌, List, [], ◌∷◌, ◌++◌, map,
  ltb, leb, ◌==◌, if◌then◌else◌, Bytes,
}

-- A byte in front of the first token.
unfoldable pub extend : ℕ → List Bytes → List Bytes
extend c [] = (c ∷ []) ∷ []
extend c (token ∷ tokens) = (c ∷ token) ∷ tokens

-- The loop over `std::getline`: a delimiter ends a token, and the end of the text ends the last one
-- unless nothing is left.
unfoldable pub tokens_of : ℕ → Bytes → List Bytes
tokens_of delimiter [] = []
tokens_of delimiter (c ∷ str) =
    let rest = tokens_of delimiter str in if c == delimiter then [] ∷ rest else extend c rest

-- `split`.
unfoldable pub split : Bytes → ℕ → List Bytes
split [] delimiter = [] ∷ []
split (c ∷ str) delimiter = tokens_of delimiter (c ∷ str)

-- A hexadecimal digit.
unfoldable pub hex_digit : ℕ → ℕ
hex_digit n = if ltb n 10 then 48 + n else 87 + n

-- The last `width` hexadecimal digits of a number.
unfoldable pub hex_digits : ℕ → ℕ → Bytes
hex_digits zero n = []
hex_digits (suc width) n = hex_digits width (n / 16) ++ hex_digit (n % 16) ∷ []

-- `generateRequestId` at that time in milliseconds, with the counter's value.
unfoldable pub generate_request_id : ℕ → ℕ → Bytes
generate_request_id ms counter = hex_digits 8 (ms % 65536 * 65536 + counter % 65536)
