-- ===== src/Server/Dashboard.antt =====
-- The counters that `/api/metrics` shows for the UDP commands, against those that the server moves.
use computer_network_lab.Prelude.{
  ℕ, zero, suc, ◌≡◌, refl, ◌∙◌, ap, ◌≢◌, true, List, [], ◌∷◌, arith, Bytes, bytes_eq_iff,
  Option-cases, inl, inr, length, Bool-cases,
}
use computer_network_lab.FileSystem.{FileSystem}
use computer_network_lab.Errors.{ErrorCode}
use computer_network_lab.Message.{CmdMsg, Command, command_to_string, get_command, receive_cmd}
use computer_network_lab.Metrics.{
  Metrics, get_request_count, record_request, record_error, record_bytes_received,
  record_send_session,
}
use computer_network_lab.Metrics.Counters.{get_count-increment}
use computer_network_lab.Server.State.{
  State, ServerConfig, waiting, Arrival, queued, later, nothing,
}
use computer_network_lab.Server.Frames.{
  send_metrics, send_data_metrics, receive_metrics, session_metrics,
}
use computer_network_lab.Server.Transfer.{count_transfer, store_small, store_large}
use computer_network_lab.Server.Walk.{KeepsCalls}
use computer_network_lab.Server.Walk.Commands.{process_command-Keeps}
use computer_network_lab.Server.Loop.{
  count_failure, end_round, handle_message, handle_datagram, take_arrival, round, stops, serve, run,
}

module _ (fs : FileSystem) (key : Bytes) where
  -- The request counter of `key`.
  abbrev count : State fs → ℕ
  count s = get_request_count key s.metrics

  abbrev Unmoved : State fs → State fs → Type 0
  Unmoved s t = count t ≡ count s

  store_small-Unmoved :
      (q : Bytes) (size : ℕ) (content : Bytes) (s : State fs)
      → Unmoved s (store_small fs q size content s).1
  unfolding store_small count_transfer get_request_count record_bytes_received record_send_session
  store_small-Unmoved q size content s = elim (Option-cases (fs.create s.disk q)) [
    | inl e ↦ rw (e, store_small, send_metrics fs)
    | inr (d, e) ↦ rw (e, store_small, send_metrics fs)
  ]

  store_large-Unmoved :
      (q : Bytes) (size : ℕ) (chunks : List Bytes) (s : State fs)
      → Unmoved s (store_large fs q size chunks s).1
  unfolding store_large count_transfer get_request_count record_bytes_received record_send_session
  store_large-Unmoved q size chunks s = elim (Option-cases (fs.create s.disk q)) [
    | inl e ↦ rw (e, store_large)
    | inr (d, e) ↦ rw (e, store_large, send_metrics fs)
  ]

  Unmoved-calls : KeepsCalls Unmoved (λ q. Unit {0})
  Unmoved-calls = record {
    order = record { same = λ s. refl; then_also = λ s t u h k. k ∙ h };
    send = λ m. record { at = λ s. ap (get_request_count key) (send_metrics fs m s) };
    send_data = λ b. record { at = λ s. ap (get_request_count key) (send_data_metrics fs b s) };
    recv = record { at = λ s. ap (get_request_count key) (receive_metrics fs s) };
    session = record { at = λ s. ap (get_request_count key) (session_metrics fs s) };
    phase = λ x. record { at = λ s. refl };
    stop = record { at = λ s. refl };
    delete = λ q ok. record { at = λ s. refl };
    rename = λ q r ok ok'. record { at = λ s. refl };
    small = λ q size content ok. record { at = λ s. store_small-Unmoved q size content s };
    large = λ q size chunks ok. record { at = λ s. store_large-Unmoved q size chunks s };
  }

  module _ (config : ServerConfig) (foreign : (c : Command) → command_to_string c ≢ key) where
    count_failure-Unmoved :
        (cmd : CmdMsg) (result : ErrorCode) (s : State fs)
        → Unmoved s (count_failure fs config cmd result s).1
    unfolding count_failure get_request_count record_error
    count_failure-Unmoved cmd result s = ground arith

    end_round-Unmoved : (s : State fs) → Unmoved s (end_round fs config s).1
    unfolding end_round
    end_round-Unmoved s = ground arith

    record_request-Unmoved :
        (c : Command) (m : Metrics)
        → get_request_count key (record_request (command_to_string c) m) ≡ get_request_count key m
    unfolding get_request_count record_request
    record_request-Unmoved c m = ground (
      arith,
      get_count-increment (command_to_string c) key m.request_counts,
      bytes_eq_iff (command_to_string c) key,
      foreign c,
    )

    handle_message-Unmoved :
        (cmd : CmdMsg) (s : State fs) → Unmoved s (handle_message fs config cmd s).1
    unfolding handle_message
    handle_message-Unmoved cmd s =
        end_round-Unmoved _
        ∙ count_failure-Unmoved cmd _ _
        ∙ (process_command-Keeps Unmoved-calls config (λ q. tt) cmd).at _
        ∙ record_request-Unmoved (get_command cmd) s.metrics

    handle_datagram-Unmoved :
        (sender : ℕ) (b : Bytes) (s : State fs) → Unmoved s (handle_datagram fs config sender b s).1
    unfolding handle_datagram
    handle_datagram-Unmoved sender [] s = refl
    handle_datagram-Unmoved sender (c ∷ b) s =
        handle_message-Unmoved (receive_cmd (c ∷ b)) (record s { client_addr = sender })

    take_arrival-Unmoved :
        (l : List Arrival) (s : State fs) → Unmoved s (take_arrival fs config l s).1
    unfolding take_arrival
    take_arrival-Unmoved [] s = refl
    take_arrival-Unmoved (queued a b ∷ rest) s =
        handle_datagram-Unmoved a b (record s { inbox = rest })
    take_arrival-Unmoved (later a b ∷ rest) s =
        handle_datagram-Unmoved a b (record s { inbox = rest })
    take_arrival-Unmoved (nothing ∷ rest) s = refl

    serve-Unmoved : (fuel : ℕ) (s : State fs) → Unmoved s (serve fs config fuel s)
    unfolding serve round
    serve-Unmoved zero s = refl
    serve-Unmoved (suc fuel) s = elim (Bool-cases (stops fs config s)) [
      | inl e ↦ rw e
      | inr e ↦ rw e (serve-Unmoved fuel (round fs config s) ∙ take_arrival-Unmoved s.inbox s)
    ]

-- The main loop moves no request counter whose key is not one of the names that `commandToString`
-- gives, whatever it receives. The keys "ls", "send", "remove" and "rename" that `/api/metrics`
-- shows are none of these.
pub run_request_count :
    (fs : FileSystem) (config : ServerConfig) (key : Bytes) (s : State fs)
    → ((c : Command) → command_to_string c ≢ key)
    → get_request_count key (run fs config s).metrics ≡ get_request_count key s.metrics
unfolding run
run_request_count fs config key s foreign =
    let start = record s { running = true; state = waiting } in
    let u = serve fs config (length start.inbox) start in
    elim (Bool-cases (stops fs config u)) [
      | inl e ↦ rw e (serve-Unmoved fs key config foreign (length start.inbox) start)
      | inr e ↦ rw e (serve-Unmoved fs key config foreign (length start.inbox) start)
    ]
