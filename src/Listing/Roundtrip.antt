-- ===== src/Listing/Roundtrip.antt =====
-- What the client prints for a packed listing.
use computer_network_lab.Prelude.{
  ℕ, zero, suc, ◌+◌, ◌-◌, ◌≤◌, ◌<◌, ◌≡◌, refl, ap, ◌∙◌, ◌≢◌, inl, inr, List, [], ◌∷◌, ◌++◌,
  append_assoc, append-nil, arith, tests, Bool-cases, ltb, if◌then◌else◌, Bytes, length,
  length-append, length-replicate, replicate, take-length_append, drop-replicate, drop-length_add,
  All, Lacks, drop-suc-length_append, ==_ne, lt→ltb,
}
use computer_network_lab.Message.{data_buf_len}
use computer_network_lab.Message.Fields.{c_string-append, replicate_suc}
use computer_network_lab.Listing.{write_string, pack_from, pack, unpack_from, unpack}

-- A name as a directory entry has it: not empty and without a NUL.
abbrev pub IsEntry : Bytes → Type 0
IsEntry name = (name ≢ []) × Lacks 0 name

-- The names that the loop keeps, from an offset on: each that fits into what is left.
pub kept : ℕ → List Bytes → List Bytes
kept offset [] = []
kept offset (name ∷ names) =
    let fits = name ∷ kept (offset + length name + 1) names in
    let skips = kept offset names in
    if ltb (offset + length name + 1) data_buf_len then fits else skips

-- The names, each with a NUL behind it.
unfoldable pub joined : List Bytes → Bytes
joined [] = []
joined (name ∷ names) = name ++ 0 ∷ joined names

abbrev zero_byte : ℕ
zero_byte = 0

-- A buffer whose first bytes are written, and the rest still zero.
padded : Bytes → Bytes
padded s = s ++ replicate (data_buf_len - length s) 0

write_string-padded :
    (s name : Bytes)
    → length s + length name + 1 < data_buf_len
    → write_string (padded s) (length s) name ≡ padded (s ++ name ++ 0 ∷ [])
unfolding write_string padded
write_string-padded s name h =
    rw
      (
        take-length_append s (replicate (data_buf_len - length s) 0),
        drop-length_add s (suc (length name)) (replicate (data_buf_len - length s) 0),
        drop-replicate (suc (length name)) (data_buf_len - length s) zero_byte,
        append_assoc (s ++ name) (0 ∷ []),
      )
      (ap (λ n. (s ++ name) ++ 0 ∷ replicate n 0)
        (omega (arith, length-append (s ++ name) (0 ∷ []), length-append s name)))

joined-kept_fits :
    (names : List Bytes) (offset : ℕ)
    → offset < data_buf_len
    → offset + length (joined (kept offset names)) < data_buf_len
unfolding joined kept
joined-kept_fits [] offset h = omega arith
joined-kept_fits (name ∷ names) offset h =
    elim (Bool-cases (ltb (offset + length name + 1) data_buf_len)) [
      | inl e ↦ rw e (
          omega (
            tests,
            e,
            joined-kept_fits names (offset + length name + 1),
            length-append name (0 ∷ joined (kept (offset + length name + 1) names)),
          ))
      | inr e ↦ rw e (joined-kept_fits names offset h)
    ]

pack_from-padded :
    (names : List Bytes) (s : Bytes)
    → length s < data_buf_len
    → pack_from names (length s) (padded s) ≡ padded (s ++ joined (kept (length s) names))
unfolding pack_from kept joined
pack_from-padded [] s h = rw append-nil
pack_from-padded (name ∷ names) s h =
    elim (Bool-cases (ltb (length s + length name + 1) data_buf_len)) [
      | inl e ↦
          let t = s ++ name ++ 0 ∷ [] in
          let at : length s + length name + 1 ≡ length t =
            omega (arith, length-append (s ++ name) (0 ∷ []), length-append s name) in
          let room : length s + length name + 1 < data_buf_len = omega (tests, e) in
          rw (e, write_string-padded s name room, at)
            (pack_from-padded names t (rw (← at) room) ∙ ap padded (simp append_assoc))
      | inr e ↦ rw e (pack_from-padded names s h)
    ]

unpack-joined :
    (names : List Bytes) (fuel : ℕ) (rest : Bytes)
    → All IsEntry names
    → length names ≤ fuel
    → unpack_from fuel (joined names ++ 0 ∷ rest) ≡ names
unfolding unpack_from joined
unpack-joined [] zero rest v h = refl
unpack-joined [] (suc fuel) rest v h = refl
unpack-joined (name ∷ names) zero rest v h = absurd (omega arith)
unpack-joined ([] ∷ names) (suc fuel) rest v h = absurd (v.0.0 refl)
unpack-joined ((c ∷ name) ∷ names) (suc fuel) rest (v, w) h =
    let t = joined names ++ 0 ∷ rest in
    let at : joined ((c ∷ name) ∷ names) ++ 0 ∷ rest ≡ (c ∷ name) ++ 0 ∷ t =
      append_assoc (c ∷ name) (0 ∷ joined names) (0 ∷ rest) in
    ap (unpack_from (suc fuel)) at
    ∙ rw (
      ==_ne c 0 v.1.0,
      c_string-append (c ∷ name) t v.1,
      drop-suc-length_append name 0 t,
      unpack-joined names fuel rest w (omega arith),
    )

kept-IsEntry :
    (names : List Bytes) (offset : ℕ) → All IsEntry names → All IsEntry (kept offset names)
unfolding kept
kept-IsEntry [] offset h = tt
kept-IsEntry (name ∷ names) offset (p, h) =
    ground (arith, kept-IsEntry names (offset + length name + 1) h, kept-IsEntry names offset h)

length-joined : (names : List Bytes) → length names ≤ length (joined names)
unfolding joined
length-joined [] = omega arith
length-joined (name ∷ names) =
    omega (arith, length-joined names, length-append name (0 ∷ joined names))

-- The packed reply holds the kept names, each with its NUL, and zeros behind them.
pack-joined : (names : List Bytes) → pack names ≡ padded (joined (kept 0 names))
unfolding pack padded
pack-joined names = pack_from-padded names [] (omega arith)

padded_zero : (s : Bytes) → length s < data_buf_len → (r : Bytes) × (padded s ≡ s ++ 0 ∷ r)
unfolding padded
padded_zero s h =
    (replicate (data_buf_len - length s - 1) 0, ap (λ t. s ++ t) (replicate_suc _ (omega arith)))

length-padded : (s : Bytes) → length s < data_buf_len → length (padded s) ≡ data_buf_len
unfolding padded
length-padded s h = omega (
  arith,
  length-append s (replicate (data_buf_len - length s) 0),
  length-replicate (data_buf_len - length s) zero_byte,
)

length-pack : (names : List Bytes) → length (pack names) ≡ data_buf_len
length-pack names =
    rw (pack-joined names) (length-padded _ (omega (arith, joined-kept_fits names 0 (omega arith))))

unpack-padded :
    (names : List Bytes)
    → All IsEntry names
    → length (joined names) < data_buf_len
    → unpack_from data_buf_len (padded (joined names)) ≡ names
unpack-padded names h fits =
    let (r, e) = padded_zero (joined names) fits in
    rw e (unpack-joined names data_buf_len r h (omega (arith, length-joined names)))

kept-eq :
    (names : List Bytes) (offset : ℕ)
    → offset + length (joined names) < data_buf_len
    → kept offset names ≡ names
unfolding kept joined
kept-eq [] offset h = refl
kept-eq (name ∷ names) offset h =
    let size = length-append name (0 ∷ joined names) in
    let fits : offset + length name + 1 < data_buf_len = omega (arith, size) in
    rw (lt→ltb (offset + length name + 1) data_buf_len fits)
      (ap (λ t. name ∷ t) (kept-eq names (offset + length name + 1) (omega (arith, size))))

-- The reply is exactly one data message long, and the client prints the names that the server
-- kept, in order and whole, for any directory entries.
pub unpack-pack :
    (names : List Bytes)
    → All IsEntry names
    → (length (pack names) ≡ data_buf_len) × (unpack (pack names) ≡ kept 0 names)
unpack-pack names h =
    let size = length-pack names in
    (
      size,
      unfold unpack in
          rw (size, pack-joined names)
            (unpack-padded (kept 0 names) (kept-IsEntry names 0 h)
              (omega (arith, joined-kept_fits names 0 (omega arith)))),
    )
