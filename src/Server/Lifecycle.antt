-- ===== src/Server/Lifecycle.antt =====
-- The main loop: every round takes an arrival, so the loop has fuel enough, and it ends as asked.
use computer_network_lab.Prelude.{
  length-nil, ℕ, zero, suc, ◌≤◌, ◌<◌, ◌≡◌, refl, ◌≢◌, ◌⊎◌, inl, inr, true, false, List, [], ◌∷◌,
  arith, Bytes, length, Bool-cases, Option-cases,
}
use computer_network_lab.FileSystem.{FileSystem}
use computer_network_lab.Errors.{ErrorCode}
use computer_network_lab.Message.{CmdMsg, receive_cmd}
use computer_network_lab.Server.State.{
  State, ServerConfig, waiting, Arrival, queued, later, nothing,
}
use computer_network_lab.Server.Frames.{send_inbox, send_data_inbox, receive_inbox, session_inbox}
use computer_network_lab.Server.Transfer.{count_transfer, store_small, store_large}
use computer_network_lab.Server.Walk.{KeepsCalls}
use computer_network_lab.Server.Walk.Commands.{process_command-Keeps}
use computer_network_lab.Server.Loop.{
  count_failure, end_round, handle_message, handle_datagram, take_arrival, round, stops, serve, run,
}

List-cases {ℓ} : {A : Type ℓ} (xs : List A) → (xs ≡ []) ⊎ (xs ≢ [])
List-cases [] = inl refl
List-cases (x ∷ xs) = inr (λ e. cc)

module _ (fs : FileSystem) where
  -- No more is waiting after the step than before it.
  abbrev Shrinks : State fs → State fs → Type 0
  Shrinks s t = length t.inbox ≤ length s.inbox

  store_small-Shrinks :
      (q : Bytes) (size : ℕ) (content : Bytes) (s : State fs)
      → Shrinks s (store_small fs q size content s).1
  unfolding store_small count_transfer
  store_small-Shrinks q size content s = elim (Option-cases (fs.create s.disk q)) [
    | inl e ↦ rw (e, store_small, send_inbox fs) (omega arith)
    | inr (d, e) ↦ rw (e, store_small, send_inbox fs) (omega arith)
  ]

  store_large-Shrinks :
      (q : Bytes) (size : ℕ) (chunks : List Bytes) (s : State fs)
      → Shrinks s (store_large fs q size chunks s).1
  unfolding store_large count_transfer
  store_large-Shrinks q size chunks s = elim (Option-cases (fs.create s.disk q)) [
    | inl e ↦ rw (e, store_large) (omega arith)
    | inr (d, e) ↦ rw (e, store_large, send_inbox fs) (omega arith)
  ]

  Shrinks-calls : KeepsCalls Shrinks (λ q. Unit {0})
  Shrinks-calls = record {
    order = record { same = λ s. omega arith; then_also = λ s t u h k. omega arith };
    send = λ m. record { at = λ s. rw (send_inbox fs m s) (omega arith) };
    send_data = λ b. record { at = λ s. rw (send_data_inbox fs b s) (omega arith) };
    recv = record { at = λ s. receive_inbox fs s };
    session = record { at = λ s. rw (session_inbox fs s) (omega arith) };
    phase = λ x. record { at = λ s. omega arith };
    stop = record { at = λ s. omega arith };
    delete = λ q ok. record { at = λ s. omega arith };
    rename = λ q r ok ok'. record { at = λ s. omega arith };
    small = λ q size content ok. record { at = λ s. store_small-Shrinks q size content s };
    large = λ q size chunks ok. record { at = λ s. store_large-Shrinks q size chunks s };
  }

  module _ (config : ServerConfig) where
    count_failure_inbox :
        (cmd : CmdMsg) (result : ErrorCode) (s : State fs)
        → (count_failure fs config cmd result s).1.inbox ≡ s.inbox
    unfolding count_failure
    count_failure_inbox cmd result s = ground arith

    end_round_inbox : (s : State fs) → (end_round fs config s).1.inbox ≡ s.inbox
    unfolding end_round
    end_round_inbox s = ground arith

    handle_message-Shrinks :
        (cmd : CmdMsg) (s : State fs) → Shrinks s (handle_message fs config cmd s).1
    unfolding handle_message
    handle_message-Shrinks cmd s =
        rw (end_round_inbox, count_failure_inbox)
          ((process_command-Keeps Shrinks-calls config (λ q. tt) cmd).at _)

    handle_datagram-Shrinks :
        (sender : ℕ) (b : Bytes) (s : State fs) → Shrinks s (handle_datagram fs config sender b s).1
    unfolding handle_datagram
    handle_datagram-Shrinks sender [] s = omega arith
    handle_datagram-Shrinks sender (c ∷ b) s =
        handle_message-Shrinks (receive_cmd (c ∷ b)) (record s { client_addr = sender })

    take_arrival_shorter :
        (l : List Arrival) (s : State fs)
        → l ≢ []
        → suc (length (take_arrival fs config l s).1.inbox) ≤ length l
    unfolding take_arrival
    take_arrival_shorter [] s h = absurd (h refl)
    take_arrival_shorter (queued a b ∷ rest) s h =
        omega (arith, handle_datagram-Shrinks a b (record s { inbox = rest }))
    take_arrival_shorter (later a b ∷ rest) s h =
        omega (arith, handle_datagram-Shrinks a b (record s { inbox = rest }))
    take_arrival_shorter (nothing ∷ rest) s h = omega arith

    -- A round of the main loop takes at least one arrival, whatever the command does.
    round_shorter :
        (s : State fs) → s.inbox ≢ [] → length (round fs config s).inbox < length s.inbox
    unfolding round
    round_shorter s h = take_arrival_shorter s.inbox s h

    round_empty : (s : State fs) → s.inbox ≡ [] → {n : ℕ} → length (round fs config s).inbox ≤ n
    unfolding round take_arrival
    round_empty s e {n} = rw (e, take_arrival) (omega arith)

    serve_ends :
        (fuel : ℕ) (s : State fs)
        → length s.inbox ≤ fuel
        → (stops fs config (serve fs config fuel s) ≡ true) ⊎ ((serve fs config fuel s).inbox ≡ [])
    unfolding serve
    serve_ends zero s h = inr (length-nil s.inbox (omega arith))
    serve_ends (suc fuel) s h = elim (Bool-cases (stops fs config s)) [
      | inl e ↦ rw e (inl e)
      | inr e ↦ elim (List-cases s.inbox) [
        | inl none_left ↦ rw e (serve_ends fuel (round fs config s) (round_empty s none_left))
        | inr some_left ↦
            rw e (serve_ends fuel (round fs config s) (omega (arith, round_shorter s some_left)))
      ]
    ]

-- `run` has fuel enough: when it returns, a shutdown was requested and the server is marked as
-- stopped, or everything that arrived has been taken and the server still runs.
pub run_ends :
    (fs : FileSystem) (config : ServerConfig) (s : State fs)
    → let t = run fs config s in ((stops fs config t ≡ true) × (t.running ≡ false)) ⊎ (t.inbox ≡ [])
unfolding run
run_ends fs config s =
    let start = record s { running = true; state = waiting } in
    let u = serve fs config (length start.inbox) start in
    elim (Bool-cases (stops fs config u)) [
      | inl e ↦ rw e (inl (e, refl))
      | inr e ↦ elim (serve_ends fs config (length start.inbox) start (omega arith)) [
        | inl k ↦ cc
        | inr k ↦ rw e (inr k)
      ]
    ]
