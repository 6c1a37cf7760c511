-- ===== src/Filename/Devices.antt =====
-- The reserved Windows names, described letter by letter, and the test of common/utils.cpp.
use computer_network_lab.Prelude.{
  ℕ, ◌+◌, ◌≡◌, refl, ◌⊎◌, inl, inr, ◌≤◌, [], ◌∷◌, ◌++◌, arith, Bytes, codes, map, ap, ◌∙◌, All,
  Lacks, Bool-cases, ◌==◌, ==_iff,
}
use computer_network_lab.Filename.{dot, to_lower_char, to_lower, stem}

-- The bytes spell this word, given in capitals, in either case.
abbrev pub Spells : Bytes → Bytes → Type 0
Spells [] [] = Unit
Spells (u ∷ w) (c ∷ s) = ((c ≡ u) ⊎ (c ≡ u + 32)) × Spells w s
Spells _ _ = ⊥

-- They spell this word with a digit from 1 to 9 behind it.
abbrev pub Numbered : Bytes → Bytes → Type 0
Numbered w s = (q : Bytes) × (d : ℕ) × (s ≡ q ++ d ∷ []) × Spells w q × (b'1' ≤ d) × (d ≤ b'9')

-- A device of Windows: CON, PRN, AUX, NUL, COM1 to COM9 or LPT1 to LPT9.
pub data IsDevice (s : Bytes) : Type 0 where
  con : Spells (codes "CON") s → IsDevice s
  prn : Spells (codes "PRN") s → IsDevice s
  aux : Spells (codes "AUX") s → IsDevice s
  nul : Spells (codes "NUL") s → IsDevice s
  com_port : Numbered (codes "COM") s → IsDevice s
  lpt_port : Numbered (codes "LPT") s → IsDevice s

-- Nothing, or a dot and anything behind it.
abbrev pub IsExtension : Bytes → Type 0
IsExtension [] = Unit
IsExtension (c ∷ q) = c ≡ b'.'

abbrev pub Capital : ℕ → Type 0
Capital u = (65 ≤ u) × (u ≤ 90)

abbrev pub lowered : Bytes → Bytes
lowered w = map (λ u. u + 32) w

-- A letter in lower case.
letter : (u c : ℕ) → Capital u → (c ≡ u) ⊎ (c ≡ u + 32) → to_lower_char c ≡ u + 32
unfolding to_lower_char
letter u c (low, high) h = ground arith

letter_back : (u c : ℕ) → Capital u → to_lower_char c ≡ u + 32 → (c ≡ u) ⊎ (c ≡ u + 32)
unfolding to_lower_char
letter_back u c (low, high) h = ground arith

digit : (d : ℕ) → b'1' ≤ d → d ≤ b'9' → to_lower_char d ≡ d
unfolding to_lower_char
digit d low high = ground arith

digit_back : (c d : ℕ) → b'1' ≤ d → d ≤ b'9' → to_lower_char c ≡ d → c ≡ d
unfolding to_lower_char
digit_back c d low high h = ground arith

same_dot : (c : ℕ) → (to_lower_char c == dot) ≡ (c == dot)
unfolding to_lower_char
same_dot c = ground arith

pub to_lower-Spells : (w s : Bytes) → All Capital w → Spells w s → to_lower s ≡ lowered w
unfolding to_lower
to_lower-Spells [] [] h k = refl
to_lower-Spells [] (c ∷ s) h k = elim k [ ]
to_lower-Spells (u ∷ w) [] h k = elim k [ ]
to_lower-Spells (u ∷ w) (c ∷ s) (h, hs) (k, ks) =
    let first = letter u c h k in let others = to_lower-Spells w s hs ks in cc

pub Spells-to_lower : (w s : Bytes) → All Capital w → to_lower s ≡ lowered w → Spells w s
unfolding to_lower
Spells-to_lower [] [] h e = tt
Spells-to_lower [] (c ∷ s) h e = cc
Spells-to_lower (u ∷ w) [] h e = cc
Spells-to_lower (u ∷ w) (c ∷ s) (h, hs) e = (letter_back u c h cc, Spells-to_lower w s hs cc)

pub to_lower-numbered :
    (w q : Bytes) (d : ℕ)
    → All Capital w
    → Spells w q
    → b'1' ≤ d
    → d ≤ b'9'
    → to_lower (q ++ d ∷ []) ≡ lowered w ++ d ∷ []
unfolding to_lower
to_lower-numbered [] [] d h k low high = ap (λ c. c ∷ []) (digit d low high)
to_lower-numbered [] (c ∷ q) d h k low high = elim k [ ]
to_lower-numbered (u ∷ w) [] d h k low high = elim k [ ]
to_lower-numbered (u ∷ w) (c ∷ q) d (h, hs) (k, ks) low high =
    let first = letter u c h k in let others = to_lower-numbered w q d hs ks low high in cc

pub Numbered-to_lower :
    (w s : Bytes) (d : ℕ)
    → All Capital w
    → b'1' ≤ d
    → d ≤ b'9'
    → to_lower s ≡ lowered w ++ d ∷ []
    → Numbered w s
unfolding to_lower
Numbered-to_lower [] [] d h low high e = cc
Numbered-to_lower [] (c ∷ []) d h low high e =
    let same : c ≡ d = digit_back c d low high cc in
    ([], c, refl, tt, omega (arith, same), omega (arith, same))
Numbered-to_lower [] (c ∷ x ∷ s) d h low high e = cc
Numbered-to_lower (u ∷ w) [] d h low high e = cc
Numbered-to_lower (u ∷ w) (c ∷ s) d (h, hs) low high e =
    let (q, n, same, spelled, first, last) = Numbered-to_lower w s d hs low high cc in
    (c ∷ q, n, ap (λ t. c ∷ t) same, (letter_back u c h cc, spelled), first, last)

pub Spells-Lacks : (w s : Bytes) → All Capital w → Spells w s → Lacks dot s
Spells-Lacks [] [] h k = tt
Spells-Lacks [] (c ∷ s) h k = elim k [ ]
Spells-Lacks (u ∷ w) [] h k = elim k [ ]
Spells-Lacks (u ∷ w) (c ∷ s) ((low, high), hs) (k, ks) = (λ e. ground arith, Spells-Lacks w s hs ks)

pub numbered-Lacks :
    (w q : Bytes) (d : ℕ) → All Capital w → Spells w q → b'1' ≤ d → Lacks dot (q ++ d ∷ [])
numbered-Lacks [] [] d h k low = (λ e. omega (arith, low, e), tt)
numbered-Lacks [] (c ∷ q) d h k low = elim k [ ]
numbered-Lacks (u ∷ w) [] d h k first = elim k [ ]
numbered-Lacks (u ∷ w) (c ∷ q) d ((low, high), hs) (k, ks) first =
    (λ e. ground arith, numbered-Lacks w q d hs ks first)

-- The part before the first dot.
pub stem-to_lower : (s : Bytes) → stem (to_lower s) ≡ to_lower (stem s)
unfolding stem to_lower
stem-to_lower [] = refl
stem-to_lower (c ∷ s) = elim (Bool-cases (c == dot)) [
  | inl e ↦ let f = same_dot c ∙ e in rw (e, f) refl
  | inr e ↦ let f = same_dot c ∙ e in rw (e, f) (ap (λ t. to_lower_char c ∷ t) (stem-to_lower s))
]

pub stem-append : (p q : Bytes) → Lacks dot p → IsExtension q → stem (p ++ q) ≡ p
unfolding stem
stem-append [] [] h k = refl
stem-append [] (c ∷ q) h k = let e = (==_iff c dot).1 k in rw e refl
stem-append (c ∷ p) q (h, hs) k = elim (Bool-cases (c == dot)) [
  | inl e ↦ absurd (h ((==_iff c dot).0 e))
  | inr e ↦ rw e (ap (λ t. c ∷ t) (stem-append p q hs k))
]

pub stem_split : (s : Bytes) → (q : Bytes) × (s ≡ stem s ++ q) × IsExtension q
unfolding stem
stem_split [] = ([], refl, tt)
stem_split (c ∷ s) = elim (Bool-cases (c == dot)) [
  | inl e ↦ rw e (c ∷ s, refl, (==_iff c dot).0 e)
  | inr e ↦ let (q, same, ext) = stem_split s in rw e (q, ap (λ t. c ∷ t) same, ext)
]
