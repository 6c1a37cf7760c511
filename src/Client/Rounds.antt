-- ===== src/Client/Rounds.antt =====
-- The rounds of the loop of `sendLargeFile`, and that it ends.
use computer_network_lab.Prelude.{
  ℕ, zero, suc, ◌+◌, ◌-◌, ◌≤◌, ◌<◌, ◌≡◌, ◌≢◌, ◌⊎◌, sym, ap, ◌∙◌, Bool-cases, inl, inr, Option, none,
  some, List, [], ◌∷◌, ◌++◌, arith, Bytes, length, length-append, length-take, length-drop, take,
  drop, min, ltb, ltb→lt, lt→ltb, take-length_append,
}
use computer_network_lab.Client.Transfer.{
  read_over, all_sent, still_sending, next_send, after_send, count_sent, send_loop,
}

pub length-read_over :
    (n : ℕ) (content buffer : Bytes)
    → length buffer ≡ 3000
    → n ≤ 3000
    → length (read_over n content buffer) ≡ 3000
unfolding read_over
length-read_over n content buffer h k = omega (
  arith,
  length-append (take n content) (drop (length (take n content)) buffer),
  length-take n content,
  length-drop (length (take n content)) buffer,
)

-- What was read stands at the front of the buffer.
pub take-read_over :
    (n : ℕ) (content buffer : Bytes)
    → n ≤ length content
    → take n (read_over n content buffer) ≡ take n content
unfolding read_over
take-read_over n content buffer h =
    let e : length (take n content) ≡ n = omega (arith, length-take n content) in
    ap (λ k. take k (take n content ++ drop (length (take n content)) buffer)) (sym e)
    ∙ take-length_append (take n content) _

-- One round with bytes left to send.
pub send_round :
    (fuel : ℕ) (results : List (Option ℕ)) (filesize : ℕ) (content : Bytes) (sent : ℕ)
    (buffer : Bytes)
    → sent < filesize
    → let size = min 3000 (filesize - sent) in
      send_loop (suc fuel) results filesize content sent buffer
      ≡ after_send (next_send results size) (read_over size content buffer) (
          send_loop fuel
            (drop 1 results)
            filesize
            (drop size content)
            (count_sent sent (next_send results size))
            (read_over size content buffer))
unfolding send_loop
send_round fuel results filesize content sent buffer h = rw (lt→ltb sent filesize h)

-- The loop with nothing left to send.
pub send_done :
    (fuel : ℕ) (results : List (Option ℕ)) (filesize : ℕ) (content : Bytes) (sent : ℕ)
    (buffer : Bytes)
    → filesize ≤ sent
    → send_loop fuel results filesize content sent buffer ≡ (all_sent, [])
unfolding send_loop
send_done zero results filesize content sent buffer h = ground arith
send_done (suc fuel) results filesize content sent buffer h = ground arith

pub lt-cases : (a b : ℕ) → (a < b) ⊎ (b ≤ a)
lt-cases a b = elim (Bool-cases (ltb a b)) [
  | inl e ↦ inl (ltb→lt a b e)
  | inr e ↦ inr (ground arith)
]

-- The loop without fuel and with bytes left to send.
pub send_starved :
    (results : List (Option ℕ)) (filesize : ℕ) (content : Bytes) (sent : ℕ) (buffer : Bytes)
    → sent < filesize
    → send_loop zero results filesize content sent buffer ≡ (still_sending, [])
unfolding send_loop
send_starved results filesize content sent buffer h = rw (lt→ltb sent filesize h)

pub send_loop_ends :
    (fuel : ℕ) (results : List (Option ℕ)) (filesize : ℕ) (content : Bytes) (sent : ℕ)
    (buffer : Bytes)
    → length results + (filesize - sent) ≤ fuel
    → (send_loop fuel results filesize content sent buffer).0 ≢ still_sending
unfolding after_send next_send count_sent
send_loop_ends zero results filesize content sent buffer h =
    rw (send_done zero results filesize content sent buffer (omega arith)) (λ e. cc)
send_loop_ends (suc fuel) [] filesize content sent buffer h = elim (lt-cases sent filesize) [
  | inr k ↦ rw (send_done (suc fuel) [] filesize content sent buffer k) (λ e. cc)
  | inl k ↦
      rw (send_round fuel [] filesize content sent buffer k)
        (send_loop_ends fuel [] filesize _ _ _ (omega arith))
]
send_loop_ends (suc fuel) (none ∷ results) filesize content sent buffer h =
    elim (lt-cases sent filesize) [
      | inr k ↦ rw (send_done (suc fuel) (none ∷ results) filesize content sent buffer k) (λ e. cc)
      | inl k ↦ rw (send_round fuel (none ∷ results) filesize content sent buffer k) (λ e. cc)
    ]
send_loop_ends (suc fuel) (some n ∷ results) filesize content sent buffer h =
    elim (lt-cases sent filesize) [
      | inr k ↦
          rw (send_done (suc fuel) (some n ∷ results) filesize content sent buffer k) (λ e. cc)
      | inl k ↦
          rw (send_round fuel (some n ∷ results) filesize content sent buffer k)
            (send_loop_ends fuel results filesize _ _ _ (omega arith))
    ]
