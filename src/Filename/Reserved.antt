-- ===== src/Filename/Reserved.antt =====
-- The reserved names of common/utils.cpp are the devices of Windows, with or without an extension.
use computer_network_lab.Prelude.{
  ℕ, ◌≡◌, refl, ◌≢◌, ◌↔◌, inl, inr, ◌≤◌, true, false, Bool-cases, List, [], ◌∷◌, ◌++◌, arith, Bytes,
  codes, bytes_eq, bytes_eq_iff, ap, ◌∙◌, sym, All, Lacks,
}
use computer_network_lab.Filename.{dot, to_lower, stem, reserved, is_one_of}
use computer_network_lab.Filename.Devices.{
  IsDevice, con, prn, aux, nul, com_port, lpt_port, IsExtension, Capital, lowered, to_lower-Spells,
  Spells-to_lower, to_lower-numbered, Numbered-to_lower, Spells-Lacks, numbered-Lacks,
  stem-to_lower, stem-append, stem_split,
}

-- The letters of the six words.
con_letters : All Capital (codes "CON")
con_letters =
    ((omega arith, omega arith), ((omega arith, omega arith), ((omega arith, omega arith), tt)))

prn_letters : All Capital (codes "PRN")
prn_letters =
    ((omega arith, omega arith), ((omega arith, omega arith), ((omega arith, omega arith), tt)))

aux_letters : All Capital (codes "AUX")
aux_letters =
    ((omega arith, omega arith), ((omega arith, omega arith), ((omega arith, omega arith), tt)))

nul_letters : All Capital (codes "NUL")
nul_letters =
    ((omega arith, omega arith), ((omega arith, omega arith), ((omega arith, omega arith), tt)))

com_letters : All Capital (codes "COM")
com_letters =
    ((omega arith, omega arith), ((omega arith, omega arith), ((omega arith, omega arith), tt)))

lpt_letters : All Capital (codes "LPT")
lpt_letters =
    ((omega arith, omega arith), ((omega arith, omega arith), ((omega arith, omega arith), tt)))

-- What the loop over the names finds.
is_one_of-true :
    (P : Type 0) (x : Bytes) (rs : List Bytes) → is_one_of x rs ≡ true → All (λ r. x ≡ r → P) rs → P
unfolding is_one_of
is_one_of-true P x [] h k = cc
is_one_of-true P x (r ∷ rs) h (k, ks) = elim (Bool-cases (bytes_eq x r)) [
  | inl e ↦ k ((bytes_eq_iff x r).0 e)
  | inr e ↦ is_one_of-true P x rs (rw e at h) ks
]

-- Each reserved name is a device's in lower case.
reserved-IsDevice : (s : Bytes) → All (λ r. to_lower s ≡ r → IsDevice s) reserved
reserved-IsDevice s =
    let com_n : (d : ℕ)
        → b'1' ≤ d
        → d ≤ b'9'
        → to_lower s ≡ lowered (codes "COM") ++ d ∷ []
        → IsDevice s =
      λ d low high e. com_port (Numbered-to_lower (codes "COM") s d com_letters low high e) in
    let lpt_n : (d : ℕ)
        → b'1' ≤ d
        → d ≤ b'9'
        → to_lower s ≡ lowered (codes "LPT") ++ d ∷ []
        → IsDevice s =
      λ d low high e. lpt_port (Numbered-to_lower (codes "LPT") s d lpt_letters low high e) in
    (
      λ e. con (Spells-to_lower (codes "CON") s con_letters e),
      (
        λ e. prn (Spells-to_lower (codes "PRN") s prn_letters e),
        (
          λ e. aux (Spells-to_lower (codes "AUX") s aux_letters e),
          (
            λ e. nul (Spells-to_lower (codes "NUL") s nul_letters e),
            (
              com_n b'1' (omega arith) (omega arith),
              (
                com_n b'2' (omega arith) (omega arith),
                (
                  com_n b'3' (omega arith) (omega arith),
                  (
                    com_n b'4' (omega arith) (omega arith),
                    (
                      com_n b'5' (omega arith) (omega arith),
                      (
                        com_n b'6' (omega arith) (omega arith),
                        (
                          com_n b'7' (omega arith) (omega arith),
                          (
                            com_n b'8' (omega arith) (omega arith),
                            (
                              com_n b'9' (omega arith) (omega arith),
                              (
                                lpt_n b'1' (omega arith) (omega arith),
                                (
                                  lpt_n b'2' (omega arith) (omega arith),
                                  (
                                    lpt_n b'3' (omega arith) (omega arith),
                                    (
                                      lpt_n b'4' (omega arith) (omega arith),
                                      (
                                        lpt_n b'5' (omega arith) (omega arith),
                                        (
                                          lpt_n b'6' (omega arith) (omega arith),
                                          (
                                            lpt_n b'7' (omega arith) (omega arith),
                                            (
                                              lpt_n b'8' (omega arith) (omega arith),
                                              (lpt_n b'9' (omega arith) (omega arith), tt),
                                            ),
                                          ),
                                        ),
                                      ),
                                    ),
                                  ),
                                ),
                              ),
                            ),
                          ),
                        ),
                      ),
                    ),
                  ),
                ),
              ),
            ),
          ),
        ),
      ),
    )

-- The test finds a port with each digit.
port_found :
    (d : ℕ)
    → b'1' ≤ d
    → d ≤ b'9'
    → (is_one_of (lowered (codes "COM") ++ d ∷ []) reserved ≡ true)
      × (is_one_of (lowered (codes "LPT") ++ d ∷ []) reserved ≡ true)
unfolding is_one_of bytes_eq
port_found d low high = (ground arith, ground arith)

IsDevice-found : (s : Bytes) → IsDevice s → is_one_of (to_lower s) reserved ≡ true
unfolding is_one_of bytes_eq
IsDevice-found s (con h) = rw (to_lower-Spells (codes "CON") s con_letters h) refl
IsDevice-found s (prn h) = rw (to_lower-Spells (codes "PRN") s prn_letters h) refl
IsDevice-found s (aux h) = rw (to_lower-Spells (codes "AUX") s aux_letters h) refl
IsDevice-found s (nul h) = rw (to_lower-Spells (codes "NUL") s nul_letters h) refl
IsDevice-found s (com_port (q, d, e, h, low, high)) =
    let l = to_lower-numbered (codes "COM") q d com_letters h low high in
    ap (λ t. is_one_of t reserved) (ap to_lower e ∙ l) ∙ (port_found d low high).0
IsDevice-found s (lpt_port (q, d, e, h, low, high)) =
    let l = to_lower-numbered (codes "LPT") q d lpt_letters h low high in
    ap (λ t. is_one_of t reserved) (ap to_lower e ∙ l) ∙ (port_found d low high).1

IsDevice-Lacks : (s : Bytes) → IsDevice s → Lacks dot s
IsDevice-Lacks s (con h) = Spells-Lacks (codes "CON") s con_letters h
IsDevice-Lacks s (prn h) = Spells-Lacks (codes "PRN") s prn_letters h
IsDevice-Lacks s (aux h) = Spells-Lacks (codes "AUX") s aux_letters h
IsDevice-Lacks s (nul h) = Spells-Lacks (codes "NUL") s nul_letters h
IsDevice-Lacks s (com_port (q, d, e, h, low, high)) =
    rw e (numbered-Lacks (codes "COM") q d com_letters h low)
IsDevice-Lacks s (lpt_port (q, d, e, h, low, high)) =
    rw e (numbered-Lacks (codes "LPT") q d lpt_letters h low)

-- The test passes exactly the names that are no device's, with or without an extension.
pub is_one_of-IsDevice :
    (s : Bytes)
    → (is_one_of (stem (to_lower s)) reserved ≡ false)
      ↔ ((p q : Bytes) → IsDevice p → IsExtension q → s ≢ p ++ q)
is_one_of-IsDevice s = (
  λ h p q device ext e.
      let part : stem (to_lower s) ≡ to_lower p =
        stem-to_lower s
        ∙ ap (λ t. to_lower (stem t)) e
        ∙ ap to_lower (stem-append p q (IsDevice-Lacks p device) ext) in
      let found = ap (λ t. is_one_of t reserved) part ∙ IsDevice-found p device in cc,
  λ h. elim (Bool-cases (is_one_of (stem (to_lower s)) reserved)) [
    | inr e ↦ e
    | inl e ↦
        let found = ap (λ t. is_one_of t reserved) (sym (stem-to_lower s)) ∙ e in
        let (q, same, ext) = stem_split s in
        let device =
          is_one_of-true (IsDevice (stem s)) _ reserved found (reserved-IsDevice (stem s)) in
        absurd (h (stem s) q device ext same)
  ],
)
