-- ===== src/Strings/Tests.antt =====
-- Runs of the string helpers on concrete texts.
use computer_network_lab.Prelude.{◌≡◌, refl, [], ◌∷◌, codes, All, Lacks}
use computer_network_lab.Strings.{
  extend, tokens_of, split, hex_digit, hex_digits, generate_request_id,
}
use computer_network_lab.Strings.Split.{ended, with_end, split-ended}

split-ended_example :
    All (Lacks 44) (split (codes "ab,,c") 44)
    × (ended 44 (split (codes "ab,,c") 44) ≡ with_end 44 (codes "ab,,c"))
    × (split [] 44 ≡ [] ∷ [])
split-ended_example = split-ended 97 (codes "b,,c") 44

split_runs :
    (split (codes "ab,,c") 44 ≡ codes "ab" ∷ codes "" ∷ codes "c" ∷ [])
    × (split (codes "ab,") 44 ≡ codes "ab" ∷ [])
    × (split (codes ",") 44 ≡ codes "" ∷ [])
unfolding split tokens_of extend
split_runs = (refl, refl, refl)

request_id : generate_request_id 70000 10 ≡ codes "1170000a"
unfolding generate_request_id hex_digits hex_digit
request_id = refl
