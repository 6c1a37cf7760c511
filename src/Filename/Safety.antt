-- ===== src/Filename/Safety.antt =====
-- The filename check against an independent description of a safe name.
use computer_network_lab.Prelude.{
  ℕ, ◌≡◌, refl, ◌≢◌, ◌↔◌, inl, inr, ◌≤◌, true, false, [], ◌∷◌, ◌++◌, arith, Bytes, contains, ap,
  All, All-map_of, Lacks, length, Bool-cases,
}
use computer_network_lab.Filename.Devices.{IsDevice, IsExtension}
use computer_network_lab.Filename.Reserved.{is_one_of-IsDevice}
use computer_network_lab.Filename.{
  slash, backslash, dot, to_lower, contains_dots, check_chars, stem, reserved, is_one_of,
  check_reserved, get_filename_validation_error, is_valid_filename,
}

-- A byte that may stand in a name: no control character below 32, no separator and none of `<>:"|?*`.
abbrev pub Plain : ℕ → Type 0
Plain c =
    (32 ≤ c)
    × (c ≢ b'/')
    × (c ≢ b'\\')
    × (c ≢ b'<')
    × (c ≢ b'>')
    × (c ≢ b':')
    × (c ≢ b'"')
    × (c ≢ b'|')
    × (c ≢ b'?')
    × (c ≢ b'*')

pub record IsSafeName (s : Bytes) : Type 0 where
  pub nonempty : s ≢ []
  pub short : length s ≤ 255
  pub no_traversal : (p q : Bytes) → s ≢ p ++ b'.' ∷ b'.' ∷ q
  pub plain : All Plain s
  pub unreserved : (p q : Bytes) → IsDevice p → IsExtension q → s ≢ p ++ q

-- The loop accepts exactly the plain names, once the earlier tests have passed.
check_chars_sound :
    (s : Bytes)
    → check_chars s ≡ []
    → contains slash s ≡ false
    → contains backslash s ≡ false
    → All Plain s
unfolding check_chars contains
check_chars_sound [] h k l = tt
check_chars_sound (c ∷ s) h k l = ground (arith, check_chars_sound s)

check_chars_complete :
    (s : Bytes)
    → All Plain s
    → (check_chars s ≡ [])
      × (contains slash s ≡ false)
      × (contains backslash s ≡ false)
      × (contains 0 s ≡ false)
unfolding check_chars contains
check_chars_complete [] h = (refl, refl, refl, refl)
check_chars_complete (c ∷ s) (h, k) = ground (arith, check_chars_complete s k)

contains_dots_sound : (s : Bytes) → contains_dots s ≡ false → (p q : Bytes) → s ≢ p ++ dot ∷ dot ∷ q
unfolding contains_dots
contains_dots_sound [] h [] q e = cc
contains_dots_sound [] h (c ∷ p) q e = cc
contains_dots_sound (c ∷ s) h [] q e = ground arith
contains_dots_sound (c ∷ s) h (d ∷ p) q e = ground (arith, contains_dots_sound s _ p q)

contains_dots_complete :
    (s : Bytes) → ((p q : Bytes) → s ≢ p ++ dot ∷ dot ∷ q) → contains_dots s ≡ false
unfolding contains_dots
contains_dots_complete [] h = refl
contains_dots_complete (c ∷ []) h = ground arith
contains_dots_complete (c ∷ d ∷ s) h =
    ground
      (arith, h [] s, contains_dots_complete (d ∷ s) (λ p q e. h (c ∷ p) q (ap (λ t. c ∷ t) e)))

check_reserved_iff :
    (s : Bytes) → (check_reserved s ≡ []) ↔ (is_one_of (stem (to_lower s)) reserved ≡ false)
unfolding check_reserved
check_reserved_iff s = (
  λ h. elim (Bool-cases (is_one_of (stem (to_lower s)) reserved)) [
    | inl e ↦ cc (rw e at h)
    | inr e ↦ e
  ],
  λ h. rw h,
)

-- The tests that a valid name has passed.
is_valid_tests :
    (s : Bytes)
    → is_valid_filename s ≡ true
    → (s ≢ [])
      × (length s ≤ 255)
      × (contains_dots s ≡ false)
      × (contains slash s ≡ false)
      × (contains backslash s ≡ false)
      × (check_chars s ≡ [])
      × (check_reserved s ≡ [])
unfolding is_valid_filename get_filename_validation_error
is_valid_tests [] h = ground arith
is_valid_tests (c ∷ s) h = ground arith

is_valid_from_tests :
    (s : Bytes)
    → s ≢ []
    → length s ≤ 255
    → contains_dots s ≡ false
    → All Plain s
    → check_reserved s ≡ []
    → is_valid_filename s ≡ true
unfolding is_valid_filename get_filename_validation_error
is_valid_from_tests [] h _ _ _ _ = absurd (h refl)
is_valid_from_tests (c ∷ []) h short dots plain fresh =
    ground (arith, check_chars_complete (c ∷ []) plain)
is_valid_from_tests (c ∷ d ∷ s) h short dots plain fresh =
    ground (arith, check_chars_complete (c ∷ d ∷ s) plain)

-- `isValidFilename` accepts exactly the safe names: not empty, at most 255 bytes, without "..",
-- no byte below 32 and none a separator or one of `<>:"|?*`, and not CON, PRN, AUX, NUL, COM1 to COM9
-- or LPT1 to LPT9 in either case, with nothing, or a dot and anything, behind it. A name may begin or
-- end with a space or a dot.
pub is_valid_filename-IsSafeName : (s : Bytes) → (is_valid_filename s ≡ true) ↔ IsSafeName s
is_valid_filename-IsSafeName s = (
  λ h.
      let t = is_valid_tests s h in
      record {
        nonempty = t.0;
        short = t.1;
        no_traversal = contains_dots_sound s t.2;
        plain = check_chars_sound s t.5 t.3 t.4;
        unreserved = (is_one_of-IsDevice s).0 ((check_reserved_iff s).0 t.6);
      },
  λ v.
      is_valid_from_tests s v.nonempty v.short (contains_dots_complete s v.no_traversal) v.plain
        ((check_reserved_iff s).1 ((is_one_of-IsDevice s).1 v.unreserved)),
)

-- A valid name holds no separator, which is what the server's paths rely on.
pub is_valid_filename-Lacks :
    (s : Bytes)
    → is_valid_filename s ≡ true
    → Lacks slash s × Lacks backslash s × Lacks 0 s × (s ≢ [])
is_valid_filename-Lacks s h =
    let t = is_valid_tests s h in
    let plain = check_chars_sound s t.5 t.3 t.4 in
    (
      All-map_of Plain (λ d. d ≢ slash) (λ c p. p.1) s plain,
      All-map_of Plain (λ d. d ≢ backslash) (λ c p. p.2) s plain,
      All-map_of Plain (λ d. d ≢ 0) (λ c p. omega arith) s plain,
      t.0,
    )
