-- ===== src/Message/Fields.antt =====
-- The text fields of the two messages: what `setFilename` and `setData` store, as the receiver reads
-- it back.
use computer_network_lab.Prelude.{
  take_all, ℕ, zero, suc, ◌-◌, ◌≤◌, ◌<◌, ◌≡◌, refl, sym, ap, ◌∙◌, [], ◌∷◌, ◌++◌, arith, Bytes,
  Bool-cases, inl, inr, length, length-append, length-take, length-drop, length-replicate, take,
  drop, replicate, Lacks, tests, ltb,
}
use computer_network_lab.Message.{
  CmdMsg, file_name_len, data_buf_len, c_string, set_filename, name_of, set_data,
}

c_string-Lacks : (s : Bytes) → Lacks 0 (c_string s)
unfolding c_string
c_string-Lacks [] = tt
c_string-Lacks (c ∷ s) = ground (arith, c_string-Lacks s)

-- A NUL behind a text without one ends it.
pub c_string-append : (s t : Bytes) → Lacks 0 s → c_string (s ++ 0 ∷ t) ≡ s
unfolding c_string
c_string-append [] t h = refl
c_string-append (c ∷ s) t (p, h) = ground (arith, c_string-append s t h)

pub c_string-eq : (s : Bytes) → Lacks 0 s → c_string s ≡ s
unfolding c_string
c_string-eq [] h = refl
c_string-eq (c ∷ s) (p, h) = ground (arith, c_string-eq s h)

Lacks-take : (n : ℕ) (s : Bytes) → Lacks 0 s → Lacks 0 (take n s)
Lacks-take zero s h = tt
Lacks-take (suc n) [] h = tt
Lacks-take (suc n) (c ∷ s) (p, h) = (p, Lacks-take n s h)

pub replicate_suc : (n : ℕ) → 0 < n → replicate {A = ℕ} n 0 ≡ 0 ∷ replicate (n - 1) 0
replicate_suc zero h = absurd (omega arith)
replicate_suc (suc n) h = let e : suc n - 1 ≡ n = omega arith in rw e

-- The array keeps its size, and the receiver reads the first 127 bytes of the name, up to its
-- first NUL; the other fields are untouched.
pub name_of-set_filename :
    (name : Bytes) (m : CmdMsg)
    → (name_of (set_filename name m) ≡ take 127 (c_string name))
      × (length (set_filename name m).filename ≡ file_name_len)
      × (set_filename name m ≡ record m { filename = (set_filename name m).filename })
unfolding set_filename
name_of-set_filename name m =
    let copied = take 127 (c_string name) in
    let bound : length copied ≤ 127 = omega (arith, length-take 127 (c_string name)) in
    (
      rw (replicate_suc (128 - length copied) (omega arith))
          (c_string-append copied _ (Lacks-take 127 _ (c_string-Lacks name))),
      omega (
        arith,
        length-append copied (replicate (128 - length copied) 0),
        length-replicate {A = ℕ} (128 - length copied) 0,
      ),
      refl,
    )

-- A name of at most 127 bytes without a NUL arrives whole.
pub name_of-set_filename_short :
    (name : Bytes) (m : CmdMsg)
    → Lacks 0 name
    → length name ≤ 127
    → name_of (set_filename name m) ≡ name
name_of-set_filename_short name m h short =
    (name_of-set_filename name m).0 ∙ ap (take 127) (c_string-eq name h) ∙ take_all 127 name short

set_data_at :
    (k : ℕ) (text buffer : Bytes)
    → Lacks 0 text
    → k ≤ length text
    → k < length buffer
    → (c_string (take k text ++ 0 ∷ drop (suc k) buffer) ≡ take k text)
      × (length (take k text ++ 0 ∷ drop (suc k) buffer) ≡ length buffer)
set_data_at k text buffer h fits room = (
  c_string-append (take k text) (drop (suc k) buffer) (Lacks-take k text h),
  omega (
    arith,
    length-append (take k text) (0 ∷ drop (suc k) buffer),
    length-take k text,
    length-drop (suc k) buffer,
  ),
)

-- `setData` on the whole text of a std::string without NULs, into a buffer of 3000 bytes: the
-- receiver reads the first 2999 bytes of the text, and the buffer keeps its size.
c_string-set_data :
    (text buffer : Bytes)
    → Lacks 0 text
    → length buffer ≡ data_buf_len
    → (c_string (set_data text (length text) buffer) ≡ take 2999 text)
      × (length (set_data text (length text) buffer) ≡ data_buf_len)
unfolding set_data
c_string-set_data text buffer h size = elim (Bool-cases (ltb (length text) data_buf_len)) [
  | inl e ↦
      let short : length text ≤ 2999 = omega (tests, e) in
      let (p, q) = set_data_at (length text) text buffer h (omega arith) (omega arith) in
      let w : take (length text) text ≡ take 2999 text =
        take_all (length text) text (omega arith) ∙ sym (take_all 2999 text short) in
      rw e (p ∙ w, q ∙ size)
  | inr e ↦
      let long : 2999 ≤ length text = ground arith in
      let (p, q) = set_data_at 2999 text buffer h long (omega arith) in rw e (p, q ∙ size)
]
