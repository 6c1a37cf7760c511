-- ===== src/Filename/Sanitize.antt =====
-- What `sanitizeFilename` guarantees of every result, whatever the input.
use mathlib.Core.List.{reverse, reverse-append, reverse-reverse}
use computer_network_lab.Prelude.{
  ℕ, ◌≡◌, refl, ◌≢◌, ap, inl, inr, false, [], ◌∷◌, ◌++◌, arith, Bytes, codes, contains, All,
  All-append, Bool-cases, if◌then◌else◌,
}
use computer_network_lab.Filename.{
  is_empty, replace_chars, is_padding, drop_padding, drop_padding_back, sanitize_filename,
}
use computer_network_lab.Filename.Safety.{Plain}

-- The first byte is neither a space nor a dot.
abbrev pub StartsPlain : Bytes → Type 0
StartsPlain [] = Unit
StartsPlain (c ∷ s) = is_padding c ≡ false

-- Nothing to clean away: plain bytes, and neither end a space or a dot.
pub record IsClean (s : Bytes) : Type 0 where
  pub nonempty : s ≢ []
  pub plain : All Plain s
  pub front : StartsPlain s
  pub back : StartsPlain (reverse s)

replace_chars-Plain : (s : Bytes) → All Plain (replace_chars s)
unfolding replace_chars contains
replace_chars-Plain [] = tt
replace_chars-Plain (c ∷ s) = ground (arith, replace_chars-Plain s)

replace_chars-eq : (s : Bytes) → All Plain s → replace_chars s ≡ s
unfolding replace_chars contains
replace_chars-eq [] h = refl
replace_chars-eq (c ∷ s) (p, h) = ground (arith, replace_chars-eq s h)

drop_padding-Plain : (s : Bytes) → All Plain s → All Plain (drop_padding s)
unfolding drop_padding
drop_padding-Plain [] h = tt
drop_padding-Plain (c ∷ s) (p, h) = ground (arith, drop_padding-Plain s h)

drop_padding-StartsPlain : (s : Bytes) → StartsPlain (drop_padding s)
unfolding drop_padding
drop_padding-StartsPlain [] = tt
drop_padding-StartsPlain (c ∷ s) = ground (arith, drop_padding-StartsPlain s)

drop_padding-eq : (s : Bytes) → StartsPlain s → drop_padding s ≡ s
unfolding drop_padding
drop_padding-eq [] h = refl
drop_padding-eq (c ∷ s) h = ground arith

-- What is dropped in front is a prefix.
drop_padding_suffix : (s : Bytes) → (p : Bytes) × (s ≡ p ++ drop_padding s)
unfolding drop_padding
drop_padding_suffix [] = ([], refl)
drop_padding_suffix (c ∷ s) =
    let (p, e) = drop_padding_suffix s in
    elim (Bool-cases (is_padding c)) [
      | inl h ↦ (c ∷ p, rw h (ap (λ t. c ∷ t) e))
      | inr h ↦ ([], rw h)
    ]

All-reverse : (P : ℕ → Type 0) (s : Bytes) → All P s → All P (reverse s)
All-reverse P [] h = tt
All-reverse P (c ∷ s) (p, h) =
    rw (reverse-append (c ∷ []) s) (All-append P (reverse s) (c ∷ []) (All-reverse P s h) (p, tt))

StartsPlain-append : (s t : Bytes) → StartsPlain (s ++ t) → StartsPlain s
StartsPlain-append [] t h = tt
StartsPlain-append (c ∷ s) t h = h

drop_padding_back-StartsPlain : (s : Bytes) → StartsPlain s → StartsPlain (drop_padding_back s)
unfolding drop_padding_back
drop_padding_back-StartsPlain s h =
    let (p, e) = drop_padding_suffix (reverse s) in
    StartsPlain-append (reverse (drop_padding (reverse s))) (reverse p)
      (rw (← reverse-append p (drop_padding (reverse s)), ← e, reverse-reverse) h)

drop_padding_back_reversed : (s : Bytes) → StartsPlain (reverse (drop_padding_back s))
unfolding drop_padding_back
drop_padding_back_reversed s = rw reverse-reverse (drop_padding-StartsPlain (reverse s))

drop_padding_back-eq : (s : Bytes) → StartsPlain (reverse s) → drop_padding_back s ≡ s
unfolding drop_padding_back
drop_padding_back-eq s h = rw (drop_padding-eq (reverse s) h, reverse-reverse)

drop_padding_back-Plain : (s : Bytes) → All Plain s → All Plain (drop_padding_back s)
unfolding drop_padding_back
drop_padding_back-Plain s h =
    All-reverse Plain _ (drop_padding-Plain (reverse s) (All-reverse Plain s h))

-- The result of the loops, before the test for an empty text.
trimmed : Bytes → Bytes
trimmed s = drop_padding_back (drop_padding (replace_chars s))

trimmed_clean :
    (s : Bytes)
    → All Plain (trimmed s) × StartsPlain (trimmed s) × StartsPlain (reverse (trimmed s))
unfolding trimmed
trimmed_clean s = (
  drop_padding_back-Plain _ (drop_padding-Plain _ (replace_chars-Plain s)),
  drop_padding_back-StartsPlain _ (drop_padding-StartsPlain (replace_chars s)),
  drop_padding_back_reversed (drop_padding (replace_chars s)),
)

unnamed-IsClean : IsClean (codes "unnamed")
unnamed-IsClean = record { nonempty = cc; plain = omega arith; front = refl; back = refl }

-- Every result of `sanitizeFilename` is a nonempty text of plain bytes that neither begins nor
-- ends with a space or a dot.
pub sanitize_filename-IsClean : (s : Bytes) → IsClean (sanitize_filename s)
unfolding sanitize_filename drop_padding_back trimmed
sanitize_filename-IsClean s = by_result (trimmed s) refl (trimmed_clean s)
  where
    by_result :
        (r : Bytes)
        → trimmed s ≡ r
        → All Plain (trimmed s) × StartsPlain (trimmed s) × StartsPlain (reverse (trimmed s))
        → IsClean (if is_empty (trimmed s) then codes "unnamed" else trimmed s)
    by_result [] e h = rw e unnamed-IsClean
    by_result (c ∷ r) e h =
        let k : All Plain (c ∷ r) × StartsPlain (c ∷ r) × StartsPlain (reverse (c ∷ r)) =
          rw e at h in
        rw e (record { nonempty = cc; plain = k.0; front = k.1; back = k.2 })

-- A clean name is left alone.
sanitize_filename-eq : (s : Bytes) → IsClean s → sanitize_filename s ≡ s
unfolding sanitize_filename
sanitize_filename-eq [] h = absurd (h.nonempty refl)
sanitize_filename-eq (c ∷ s) h = rw (
  replace_chars-eq (c ∷ s) h.plain,
  drop_padding-eq (c ∷ s) h.front,
  drop_padding_back-eq (c ∷ s) h.back,
)
