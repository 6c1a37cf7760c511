-- ===== src/Transport/Waiting.antt =====
-- The messages that wait in the buffer of A, as a list.
use computer_network_lab.Prelude.{
  ℕ, zero, suc, ◌+◌, ◌%◌, ◌<◌, ◌≡◌, ap, ◌∙◌, some, List, [], ◌∷◌, arith, Bytes, length, drop,
  drop_all, get_elem?,
}
use mathlib.Core.Option.{some-injective}
use computer_network_lab.Transport.Messages.{IsQueue}
use computer_network_lab.Transport.Sides.{Sender}

-- As many messages of a ring of 5000 places, from a place on.
unfoldable pub ring_from : (ℕ → Bytes) → ℕ → ℕ → List Bytes
ring_from buffer place zero = []
ring_from buffer place (suc count) = buffer (place % 5000) ∷ ring_from buffer (place + 1) count

abbrev pub waiting : Sender → List Bytes
waiting s = ring_from s.buffer s.buffront s.msg_num

drop_next :
    (n : ℕ) (xs : List Bytes) (x : Bytes)
    → get_elem? xs n ≡ some x
    → drop n xs ≡ x ∷ drop (suc n) xs
drop_next n [] x h = cc
drop_next zero (y ∷ xs) x h = ap (λ k. k ∷ xs) (some-injective _ _ h)
drop_next (suc n) (y ∷ xs) x h = drop_next n xs x h

drop-ring_from :
    (xs : List Bytes) (buffer : ℕ → Bytes) (n place count : ℕ)
    → n + count ≡ length xs
    → ((i : ℕ) → i < count → get_elem? xs (n + i) ≡ some (buffer ((place + i) % 5000)))
    → drop n xs ≡ ring_from buffer place count
unfolding ring_from
drop-ring_from xs buffer n place zero size h = drop_all n xs (omega (arith, size))
drop-ring_from xs buffer n place (suc count) size h =
    let same : (m : ℕ) → m + 0 ≡ m = λ m. omega arith in
    let first : get_elem? xs n ≡ some (buffer (place % 5000)) =
      let e = h 0 (omega arith) in rw (same n, same place) at e in
    let step : (m i : ℕ) → m + 1 + i ≡ m + (i + 1) = λ m i. omega arith in
    let one_more : suc n ≡ n + 1 = omega arith in
    drop_next n xs _ first
    ∙ ap (λ m. buffer (place % 5000) ∷ drop m xs) one_more
    ∙ ap (λ k. buffer (place % 5000) ∷ k)
        (drop-ring_from xs buffer (n + 1) (place + 1) count (omega (arith, size))
          (λ i k. rw (step n i, step place i) (h (i + 1) (omega arith))))

-- They are the messages that come after those sent, in order and each once.
pub drop-waiting :
    (accepted : List Bytes) (s : Sender)
    → IsQueue accepted s
    → drop s.next_seqnum accepted ≡ waiting s
drop-waiting accepted s q =
    drop-ring_from accepted s.buffer s.next_seqnum s.buffront s.msg_num q.count q.waiting
