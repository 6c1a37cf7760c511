-- ===== src/Client/Sending.antt =====
-- The loop of `sendLargeFile`: it sends as many bytes as it says, and it sends the file if each
-- `send` takes all that it is given.
use computer_network_lab.Prelude.{
  length-nil, ℕ, zero, suc, ◌+◌, ◌-◌, ◌≤◌, ◌≡◌, ◌≢◌, sym, ap, ◌∙◌, inl, inr, Option, none, some,
  List, [], ◌∷◌, arith, Bytes, All, length, length-append, length-take, length-drop, take, drop,
  take-append-drop, min,
}
use mathlib.Core.Option.{some-injective}
use computer_network_lab.Client.Transfer.{
  read_over, SendOutcome, all_sent, still_sending, next_send, after_send, count_sent, send_loop,
  send_file,
}
use computer_network_lab.Client.Rounds.{
  length-read_over, take-read_over, send_round, send_done, lt-cases, send_starved, send_loop_ends,
}

-- A round that sends `n` bytes adds `n` bytes to the stream.
counted_round :
    (n filesize sent : ℕ) (filled : Bytes) (later : SendOutcome × Bytes)
    → length filled ≡ 3000
    → n ≤ 3000
    → sent + n ≤ filesize
    → (later.0 ≡ all_sent → sent + n + length later.1 ≡ filesize)
    → (after_send (some n) filled later).0 ≡ all_sent
    → sent + length (after_send (some n) filled later).1 ≡ filesize
unfolding after_send
counted_round n filesize sent filled later h k m rest e =
    omega (arith, length-append (take n filled) later.1, length-take n filled, rest e)

send_loop_count :
    (fuel : ℕ) (results : List (Option ℕ)) (filesize : ℕ) (content : Bytes) (sent : ℕ)
    (buffer : Bytes)
    → length buffer ≡ 3000
    → sent ≤ filesize
    → (send_loop fuel results filesize content sent buffer).0 ≡ all_sent
    → sent + length (send_loop fuel results filesize content sent buffer).1 ≡ filesize
unfolding next_send count_sent after_send
send_loop_count zero results filesize content sent buffer full low e =
    elim (lt-cases sent filesize) [
      | inl k ↦ absurd (cc (rw (send_starved results filesize content sent buffer k) at e))
      | inr k ↦ rw (send_done zero results filesize content sent buffer k) (omega arith)
    ]
send_loop_count (suc fuel) [] filesize content sent buffer full low e =
    elim (lt-cases sent filesize) [
      | inr k ↦ rw (send_done (suc fuel) [] filesize content sent buffer k) (omega arith)
      | inl k ↦
          let size = min 3000 (filesize - sent) in
          let filled = read_over size content buffer in
          let step = send_round fuel [] filesize content sent buffer k in
          let held = length-read_over size content buffer full (omega arith) in
          rw step (
            counted_round size filesize sent filled _ held (omega arith) (omega arith)
              (send_loop_count fuel [] filesize _ (sent + size) filled held (omega arith))
              (rw step at e))
    ]
send_loop_count (suc fuel) (none ∷ results) filesize content sent buffer full low e =
    elim (lt-cases sent filesize) [
      | inr k ↦
          rw (send_done (suc fuel) (none ∷ results) filesize content sent buffer k) (omega arith)
      | inl k ↦
          absurd (cc (rw (send_round fuel (none ∷ results) filesize content sent buffer k) at e))
    ]
send_loop_count (suc fuel) (some n ∷ results) filesize content sent buffer full low e =
    elim (lt-cases sent filesize) [
      | inr k ↦
          rw (send_done (suc fuel) (some n ∷ results) filesize content sent buffer k) (omega arith)
      | inl k ↦
          let size = min 3000 (filesize - sent) in
          let filled = read_over size content buffer in
          let step = send_round fuel (some n ∷ results) filesize content sent buffer k in
          let held = length-read_over size content buffer full (omega arith) in
          rw step (
            counted_round (min n size) filesize sent filled _ held (omega arith) (omega arith)
              (send_loop_count fuel results filesize _ (sent + min n size) filled held
                (omega arith))
              (rw step at e))
    ]

-- Every `send` takes all that it is given.
abbrev pub AllTaken : List (Option ℕ) → Type 0
AllTaken = All (λ r. (n : ℕ) × (r ≡ some n) × (3000 ≤ n))

-- A round that sends the next `n` bytes of the content, before the others.
whole_round :
    (n : ℕ) (content buffer : Bytes) (later : SendOutcome × Bytes)
    → n ≤ length content
    → later ≡ (all_sent, drop n content)
    → after_send (some n) (read_over n content buffer) later ≡ (all_sent, content)
unfolding after_send
whole_round n content buffer later h e =
    rw (e, take-read_over n content buffer h, take-append-drop n content)

send_loop_whole :
    (fuel : ℕ) (results : List (Option ℕ)) (filesize : ℕ) (content : Bytes) (sent : ℕ)
    (buffer : Bytes)
    → length results + (filesize - sent) ≤ fuel
    → AllTaken results
    → length content ≡ filesize - sent
    → send_loop fuel results filesize content sent buffer ≡ (all_sent, content)
unfolding next_send count_sent
send_loop_whole zero results filesize content sent buffer enough taken size =
    send_done zero results filesize content sent buffer (omega arith)
    ∙ ap (λ c. (all_sent, c)) (sym (length-nil content (omega arith)))
send_loop_whole (suc fuel) [] filesize content sent buffer enough taken size =
    elim (lt-cases sent filesize) [
      | inr k ↦
          send_done (suc fuel) [] filesize content sent buffer k
          ∙ ap (λ c. (all_sent, c)) (sym (length-nil content (omega arith)))
      | inl k ↦
          let n = min 3000 (filesize - sent) in
          send_round fuel [] filesize content sent buffer k
          ∙ whole_round n content buffer _ (omega arith) (
              send_loop_whole fuel [] filesize (drop n content) (sent + n) _ (omega arith) tt
                (omega (arith, length-drop n content)))
    ]
send_loop_whole (suc fuel) (none ∷ results) filesize content sent buffer enough ((m, e, k), taken)
      size =
    absurd (cc)
send_loop_whole (suc fuel) (some m ∷ results) filesize content sent buffer enough
      ((p, e, large), taken) size =
    elim (lt-cases sent filesize) [
      | inr k ↦
          send_done (suc fuel) (some m ∷ results) filesize content sent buffer k
          ∙ ap (λ c. (all_sent, c)) (sym (length-nil content (omega arith)))
      | inl k ↦
          let n = min 3000 (filesize - sent) in
          let whole : min m n ≡ n = (let same : m ≡ p = some-injective _ _ e in omega arith) in
          send_round fuel (some m ∷ results) filesize content sent buffer k
          ∙ rw whole (
              whole_round n content buffer _ (omega arith) (
                send_loop_whole fuel results filesize (drop n content) (sent + n) _ (omega arith)
                  taken (omega (arith, length-drop n content))))
    ]

-- With the fuel that it is given the loop ends, whatever the calls of `send` give.
send_file_ends :
    (results : List (Option ℕ)) (filesize : ℕ) (content junk : Bytes)
    → (send_file results filesize content junk).0 ≢ still_sending
unfolding send_file
send_file_ends results filesize content junk =
    send_loop_ends (length results + filesize) results filesize content 0 junk (omega arith)

-- When the loop ends without an error, the connection has taken exactly as many bytes as the file
-- has, also where single calls of `send` took less than they were given.
pub length-send_file :
    (results : List (Option ℕ)) (filesize : ℕ) (content junk : Bytes)
    → length junk ≡ 3000
    → (send_file results filesize content junk).0 ≡ all_sent
    → length (send_file results filesize content junk).1 ≡ filesize
unfolding send_file
length-send_file results filesize content junk h e = omega (
  arith,
  send_loop_count (length results + filesize) results filesize content 0 junk h (omega arith) e,
)

-- If every `send` takes all that it is given, the connection has taken the file.
pub send_file_whole :
    (results : List (Option ℕ)) (content junk : Bytes)
    → AllTaken results
    → send_file results (length content) content junk ≡ (all_sent, content)
unfolding send_file
send_file_whole results content junk h =
    send_loop_whole (length results + length content) results (length content) content 0 junk
      (omega arith) h (omega arith)
