-- ===== src/Strings/Split.antt =====
-- What `split` gives.
use computer_network_lab.Prelude.{
  ℕ, ◌≡◌, ◌≢◌, refl, sym, ap, ◌∙◌, Bool-cases, inl, inr, List, [], ◌∷◌, ◌++◌, arith, ◌==◌, ==_iff,
  if◌then◌else◌, Bytes, All, Lacks,
}
use computer_network_lab.Strings.{extend, tokens_of, split}

-- Each token with a delimiter behind it.
abbrev pub ended : ℕ → List Bytes → Bytes
ended delimiter [] = []
ended delimiter (token ∷ tokens) = token ++ delimiter ∷ ended delimiter tokens

-- A text with a delimiter at its end.
abbrev pub with_end : ℕ → Bytes → Bytes
with_end delimiter [] = []
with_end delimiter (c ∷ []) = if c == delimiter then c ∷ [] else c ∷ delimiter ∷ []
with_end delimiter (c ∷ d ∷ str) = c ∷ with_end delimiter (d ∷ str)

extend-Lacks :
    (delimiter c : ℕ) (tokens : List Bytes)
    → c ≢ delimiter
    → All (Lacks delimiter) tokens
    → All (Lacks delimiter) (extend c tokens)
unfolding extend
extend-Lacks delimiter c [] h k = ((h, tt), tt)
extend-Lacks delimiter c (token ∷ tokens) h (j, k) = ((h, j), k)

tokens_of-Lacks : (delimiter : ℕ) (str : Bytes) → All (Lacks delimiter) (tokens_of delimiter str)
unfolding tokens_of
tokens_of-Lacks delimiter [] = tt
tokens_of-Lacks delimiter (c ∷ str) = elim (Bool-cases (c == delimiter)) [
  | inl e ↦ rw e (tt, tokens_of-Lacks delimiter str)
  | inr e ↦
      let other : c ≢ delimiter = λ h. ground (arith, ==_iff c delimiter) in
      rw e (extend-Lacks delimiter c _ other (tokens_of-Lacks delimiter str))
]

-- The tokens of a text that is not empty are not none.
extend-ended :
    (delimiter c : ℕ) (tokens : List Bytes)
    → tokens ≢ []
    → ended delimiter (extend c tokens) ≡ c ∷ ended delimiter tokens
unfolding extend
extend-ended delimiter c [] h = absurd (h refl)
extend-ended delimiter c (token ∷ tokens) h = refl

extend_some : (c : ℕ) (tokens : List Bytes) → extend c tokens ≢ []
unfolding extend
extend_some c [] h = cc
extend_some c (token ∷ tokens) h = cc

some_token : (delimiter c : ℕ) (str : Bytes) → tokens_of delimiter (c ∷ str) ≢ []
unfolding tokens_of
some_token delimiter c str h = elim (Bool-cases (c == delimiter)) [
  | inl e ↦ let k = rw e at h in cc
  | inr e ↦ extend_some c (tokens_of delimiter str) (rw e at h)
]

tokens_of-ended :
    (delimiter : ℕ) (str : Bytes)
    → ended delimiter (tokens_of delimiter str) ≡ with_end delimiter str
unfolding tokens_of extend
tokens_of-ended delimiter [] = refl
tokens_of-ended delimiter (c ∷ []) = elim (Bool-cases (c == delimiter)) [
  | inl e ↦ rw e (ap (λ k. k ∷ []) (sym ((==_iff c delimiter).0 e)))
  | inr e ↦ rw e refl
]
tokens_of-ended delimiter (c ∷ d ∷ str) = elim (Bool-cases (c == delimiter)) [
  | inl e ↦
      let same = (==_iff c delimiter).0 e in
      rw e (
        ap (λ k. delimiter ∷ k) (tokens_of-ended delimiter (d ∷ str))
        ∙ ap (λ k. k ∷ with_end delimiter (d ∷ str)) (sym same))
  | inr e ↦ rw e (
      extend-ended delimiter c _ (some_token delimiter d str)
      ∙ ap (λ k. c ∷ k) (tokens_of-ended delimiter (d ∷ str)))
]

-- The tokens that `split` gives of a text that is not empty have no delimiter in them, and with a
-- delimiter behind each they are the text, with one at its end if it had none; the empty text has one
-- token, the empty one.
pub split-ended :
    (c : ℕ) (str : Bytes) (delimiter : ℕ)
    → All (Lacks delimiter) (split (c ∷ str) delimiter)
      × (ended delimiter (split (c ∷ str) delimiter) ≡ with_end delimiter (c ∷ str))
      × (split [] delimiter ≡ [] ∷ [])
unfolding split
split-ended c str delimiter =
    (tokens_of-Lacks delimiter (c ∷ str), tokens_of-ended delimiter (c ∷ str), refl)
