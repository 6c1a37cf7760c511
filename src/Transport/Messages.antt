-- ===== src/Transport/Messages.antt =====
-- The messages that layer 5 hands to A: which packet carries which, and the buffer in which they wait.
use computer_network_lab.Prelude.{
  ℕ, zero, suc, ◌+◌, ◌%◌, ◌≤◌, ◌<◌, ◌≡◌, refl, ap, ◌∙◌, Bool-cases, inl, inr, some, List, [], ◌∷◌,
  ◌++◌, arith, ◌==◌, ==_iff, Bytes, All, get_elem?, length, length-append, take,
}
use mathlib.Core.List.{Memᴰ}
use computer_network_lab.Transport.Packet.{
  Pkt, make_packet, Call, to_layer3, to_layer5, start_timer, stop_timer, assign,
}
use computer_network_lab.Transport.Sides.{Sender, keep_message, take_message}

-- A packet carries the message that its number stands for, and the checksum that it was sent with.
abbrev pub IsGenuine : List Bytes → ℕ → Pkt → Type 0
IsGenuine accepted next p =
    (p.seqnum < next)
    × (get_elem? accepted p.seqnum ≡ some p.payload)
    × (p.checksum ≡ (make_packet p.seqnum p.payload).checksum)

abbrev pub IsGenuineCall : List Bytes → ℕ → Call → Type 0
IsGenuineCall accepted next (to_layer3 p) = IsGenuine accepted next p
IsGenuineCall accepted next _ = Unit

pub genuine_more :
    (accepted : List Bytes) (n m : ℕ) (calls : List Call)
    → n ≤ m
    → All (IsGenuineCall accepted n) calls
    → All (IsGenuineCall accepted m) calls
genuine_more accepted n m [] h k = tt
genuine_more accepted n m (to_layer3 p ∷ calls) h ((low, e, c), k) =
    ((omega arith, e, c), genuine_more accepted n m calls h k)
genuine_more accepted n m (to_layer5 b ∷ calls) h (_, k) = (tt, genuine_more accepted n m calls h k)
genuine_more accepted n m (start_timer j ∷ calls) h (_, k) =
    (tt, genuine_more accepted n m calls h k)
genuine_more accepted n m (stop_timer j ∷ calls) h (_, k) =
    (tt, genuine_more accepted n m calls h k)

pub get_elem?-append :
    (xs ys : List Bytes) (i : ℕ) {v : Bytes}
    → get_elem? xs i ≡ some v
    → get_elem? (xs ++ ys) i ≡ some v
get_elem?-append [] ys i h = cc
get_elem?-append (x ∷ xs) ys zero h = h
get_elem?-append (x ∷ xs) ys (suc i) h = get_elem?-append xs ys i h

pub get_elem?-last : (xs : List Bytes) (x : Bytes) → get_elem? (xs ++ x ∷ []) (length xs) ≡ some x
get_elem?-last [] x = refl
get_elem?-last (y ∷ xs) x = get_elem?-last xs x

-- What was genuine stays so when another message is handed over.
pub genuine_append :
    (xs ys : List Bytes) (n : ℕ) (calls : List Call)
    → All (IsGenuineCall xs n) calls
    → All (IsGenuineCall (xs ++ ys) n) calls
genuine_append xs ys n [] h = tt
genuine_append xs ys n (to_layer3 p ∷ calls) ((low, e, c), k) =
    ((low, get_elem?-append xs ys _ e, c), genuine_append xs ys n calls k)
genuine_append xs ys n (to_layer5 b ∷ calls) (_, k) = (tt, genuine_append xs ys n calls k)
genuine_append xs ys n (start_timer j ∷ calls) (_, k) = (tt, genuine_append xs ys n calls k)
genuine_append xs ys n (stop_timer j ∷ calls) (_, k) = (tt, genuine_append xs ys n calls k)

-- The buffer holds the messages behind those that were sent.
pub record IsQueue (accepted : List Bytes) (s : Sender) : Type 0 where
  pub count : s.next_seqnum + s.msg_num ≡ length accepted
  pub fits : s.msg_num ≤ 5000
  pub front : s.buffront < 5000
  pub rear : s.bufrear ≡ (s.buffront + s.msg_num) % 5000
  pub waiting :
      (i : ℕ)
      → i < s.msg_num
      → get_elem? accepted (s.next_seqnum + i) ≡ some (s.buffer ((s.buffront + i) % 5000))

pub take-append : (n : ℕ) (xs ys : List Bytes) → n ≤ length xs → take n (xs ++ ys) ≡ take n xs
take-append zero xs ys h = refl
take-append (suc n) [] ys h = absurd (omega arith)
take-append (suc n) (x ∷ xs) ys h = ap (λ k. x ∷ k) (take-append n xs ys (omega arith))

pub take_next :
    (n : ℕ) (xs : List Bytes) (v : Bytes)
    → get_elem? xs n ≡ some v
    → take (suc n) xs ≡ take n xs ++ v ∷ []
take_next n [] v h = cc
take_next zero (x ∷ xs) v h = cc
take_next (suc n) (x ∷ xs) v h = ap (λ k. x ∷ k) (take_next n xs v h)

-- A message is kept behind the others.
pub keep_message-IsQueue :
    (accepted : List Bytes) (message : Bytes) (s : Sender)
    → IsQueue accepted s
    → s.msg_num < 5000
    → IsQueue (accepted ++ message ∷ []) (keep_message message s)
unfolding keep_message assign
keep_message-IsQueue accepted message s q free = record {
  count = omega (arith, q.count, length-append accepted (message ∷ []));
  fits = omega arith;
  front = q.front;
  rear = omega (arith, q.rear);
  waiting = λ i h. elim (Bool-cases (s.bufrear == (s.buffront + i) % 5000)) [
    | inl same ↦
        let here : s.next_seqnum + i ≡ length accepted =
          omega (arith, q.rear, q.count, q.front, (==_iff _ _).0 same) in
        rw same (ap (get_elem? (accepted ++ message ∷ [])) here ∙ get_elem?-last accepted message)
    | inr other ↦
        let before : i < s.msg_num =
          ground (arith, q.rear, ==_iff s.bufrear ((s.buffront + i) % 5000)) in
        rw other (get_elem?-append accepted _ _ (q.waiting i before))
  ];
}

-- The first message that waits is the next one to send.
pub first_waiting :
    (accepted : List Bytes) (s : Sender)
    → IsQueue accepted s
    → 0 < s.msg_num
    → get_elem? accepted s.next_seqnum ≡ some (s.buffer s.buffront)
first_waiting accepted s q some_wait =
    let number : s.next_seqnum ≡ s.next_seqnum + 0 = omega arith in
    let place : (s.buffront + 0) % 5000 ≡ s.buffront = omega (arith, q.front) in
    ap (get_elem? accepted) number ∙ q.waiting 0 some_wait ∙ ap (λ k. some (s.buffer k)) place

-- The first message that waits is taken out and gets the next number.
pub take_message-IsQueue :
    (accepted : List Bytes) (s : Sender)
    → IsQueue accepted s
    → 0 < s.msg_num
    → IsQueue accepted (record (take_message s) { next_seqnum = s.next_seqnum + 1 })
unfolding take_message
take_message-IsQueue accepted s q some_wait = record {
  count = omega (arith, q.count);
  fits = omega (arith, q.fits);
  front = omega arith;
  rear = omega (arith, q.rear);
  waiting = λ i h.
      let number : s.next_seqnum + 1 + i ≡ s.next_seqnum + (i + 1) = omega arith in
      let place : (s.buffront + (i + 1)) % 5000 ≡ ((s.buffront + 1) % 5000 + i) % 5000 =
        omega arith in
      let waits : i + 1 < s.msg_num = omega arith in
      ap (get_elem? accepted) number ∙ q.waiting (i + 1) waits ∙ ap (λ k. some (s.buffer k)) place;
}

-- What holds of every call of a log holds of each.
pub All-Mem : (P : Call → Type 0) (c : Call) (calls : List Call) → All P calls → Memᴰ c calls → P c
All-Mem P c [] h m = elim m [ ]
All-Mem P c (x ∷ calls) (h, k) (Memᴰ.head e) = rw e h
All-Mem P c (x ∷ calls) (h, k) (Memᴰ.tail m) = All-Mem P c calls k m
