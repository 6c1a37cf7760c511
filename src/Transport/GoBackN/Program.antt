-- ===== src/Transport/GoBackN/Program.antt =====
-- original-labs/gbn.c as a whole: the Go-Back-N sides on the emulator.
use computer_network_lab.Prelude.{
  ℕ, ◌≤◌, ◌<◌, ◌≡◌, sym, some, List, [], ◌∷◌, ◌++◌, arith, Bytes, length, inl, inr, refl, Bool,
}
use mathlib.Core.Option.{some-injective}
use computer_network_lab.Transport.Packet.{Pkt}
use computer_network_lab.Transport.Protocol.{Protocol}
use computer_network_lab.Transport.Sides.{Sender, a_init}
use computer_network_lab.Transport.GoBackN.{Receiver, b_init, a_output, a_input, a_timeout, b_input}
use computer_network_lab.Transport.GoBackN.System.{System, Step, Reach}
use computer_network_lab.Transport.GoBackN.System as Network
use computer_network_lab.Transport.GoBackN.Safety.{reached_system}
use computer_network_lab.Transport.GoBackN.Log.{
  a_output_log, a_input_log, a_timeout_log, b_input_log,
}
use computer_network_lab.Transport.Emulator.{simulate, start}
use computer_network_lab.Transport.Emulator.Calls.{CanArrive}
use computer_network_lab.Transport.Emulator.Network.{IsNetwork}
use computer_network_lab.Transport.Emulator.Sendable.{log_a_sent, log_b_sent}
use computer_network_lab.Transport.Emulator.Refinement.{simulate_keeps}

-- The functions of gbn.c that the emulator calls.
abbrev pub go_back_n : ℕ → Protocol
go_back_n window_size = record {
  Sender = Sender;
  Receiver = Receiver;
  sender_log = λ a. a.calls;
  receiver_log = λ b. b.calls;
  output = λ message a. some (a_output window_size message a);
  input = a_input window_size;
  timeout = a_timeout window_size;
  accept_packet = b_input;
}

module _ (window_size : ℕ) (positive : 0 < window_size) (winbuf : ℕ → Pkt)
    (buffer : ℕ → Bytes) where
  -- The sides can get there on a network.
  abbrev Reached : Sender → Receiver → List Bytes → Type 0
  Reached a b accepted =
      Reach window_size (Network.start winbuf buffer) (record { a = a; b = b; accepted = accepted })

  hand_over_message :
      (a t : Sender) (b : Receiver) (accepted : List Bytes) (message : Bytes)
      → Reached a b accepted
      → length accepted < 5000
      → some (a_output window_size message a) ≡ some t
      → Reached t b (accepted ++ message ∷ [])
  hand_over_message a t b accepted message r few e =
      let v = reached_system window_size positive winbuf buffer r in
      let free : a.msg_num < 5000 = omega (arith, v.sender.queue.count) in
      rw (sym (some-injective _ _ e))
        (Reach.next r (Step.hand_over (record { a = a; b = b; accepted = accepted }) message free))

  arrive_a :
      (a : Sender) (b : Receiver) (accepted : List Bytes) (p : Pkt)
      → Reached a b accepted
      → CanArrive b.calls p
      → Reached (a_input window_size p a) b accepted
  arrive_a a b accepted p r (inl m) =
      Reach.next r (Step.reach_a (record { a = a; b = b; accepted = accepted }) p m)
  arrive_a a b accepted p r (inr e) =
      Reach.next r (Step.damage_a (record { a = a; b = b; accepted = accepted }) p e)

  arrive_b :
      (a : Sender) (b : Receiver) (accepted : List Bytes) (p : Pkt)
      → Reached a b accepted
      → CanArrive a.calls p
      → Reached a (b_input p b) accepted
  arrive_b a b accepted p r (inl m) =
      Reach.next r (Step.reach_b (record { a = a; b = b; accepted = accepted }) p m)
  arrive_b a b accepted p r (inr e) =
      Reach.next r (Step.damage_b (record { a = a; b = b; accepted = accepted }) p e)

  go_back_n-IsNetwork : IsNetwork (go_back_n window_size) Reached
  go_back_n-IsNetwork = record {
    on_hand_over = hand_over_message;
    on_input = arrive_a;
    on_receive = arrive_b;
    on_timeout = λ a b accepted n r.
        Reach.next r (Step.time_out (record { a = a; b = b; accepted = accepted }) n);
    output_log =
        λ a t message e. rw (sym (some-injective _ _ e)) (a_output_log window_size message a);
    input_log = λ a p. a_input_log window_size p a;
    timeout_log = λ a n. a_timeout_log window_size n a;
    receive_log = λ b p. b_input_log p b;
    sender_sendable = λ a b accepted r known few.
        let v = reached_system window_size positive winbuf buffer r in
        log_a_sent accepted a.next_seqnum a.calls a.calls (λ c m. m) v.sender.window.genuine known
          (omega (arith, v.sender.queue.count));
    receiver_sendable = λ a b accepted r few.
        let v = reached_system window_size positive winbuf buffer r in
        log_b_sent b.expected_seqnum b.calls b.calls (λ c m. m) v.receiver.acks
          (omega (arith, v.receiver.below, v.sender.queue.count));
  }

-- With a window of at least one place and at most 5000 messages, for every channel pattern and all
-- delays: the two Go-Back-N sides are, after each number of rounds of the emulator's main loop, in a
-- state that they can reach on a network that loses, repeats, reorders and detectably damages packets.
pub go_back_n_refines :
    {Time : Type 0} (later : Time → Time → Bool) (plus : Time → Time → Time) (rtt delay gap : Time)
    (pattern : Bytes) (nsimmax window_size : ℕ)
    → 0 < window_size
    → nsimmax ≤ 5000
    → (zero_time : Time) (winbuf : ℕ → Pkt) (buffer : ℕ → Bytes) (rounds : ℕ)
    → let s = simulate later plus rtt delay gap pattern nsimmax (go_back_n window_size) rounds (
        start later plus rtt delay gap pattern nsimmax
          (go_back_n window_size)
          zero_time
          (a_init winbuf buffer)
          b_init) in
      Reach window_size
        (Network.start winbuf buffer)
        (record { a = s.a; b = s.b; accepted = s.accepted })
unfolding a_init
go_back_n_refines later plus rtt delay gap pattern nsimmax window_size positive few zero_time winbuf
      buffer rounds =
    simulate_keeps later plus rtt delay gap pattern nsimmax (go_back_n window_size) few
      (Reached window_size positive winbuf buffer)
      (go_back_n-IsNetwork window_size positive winbuf buffer) zero_time (a_init winbuf buffer)
      b_init rounds Reach.here refl refl
