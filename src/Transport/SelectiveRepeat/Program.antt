-- ===== src/Transport/SelectiveRepeat/Program.antt =====
-- original-labs/stable.c as a whole: the selective-repeat sides on the emulator.
use computer_network_lab.Prelude.{ℕ, ◌≤◌, ◌<◌, refl, List, arith, Bytes, inl, inr, Bool}
use computer_network_lab.Transport.Packet.{Pkt}
use computer_network_lab.Transport.Protocol.{Protocol}
use computer_network_lab.Transport.Sides.{Sender, a_init}
use computer_network_lab.Transport.SelectiveRepeat.{
  Receiver, b_init, a_output, a_input, a_timeout, b_input,
}
use computer_network_lab.Transport.SelectiveRepeat.System.{System, Step, Reach}
use computer_network_lab.Transport.SelectiveRepeat.System as Network
use computer_network_lab.Transport.SelectiveRepeat.Safety.{reached_system}
use computer_network_lab.Transport.SelectiveRepeat.Acks.{reached-IsAcks}
use computer_network_lab.Transport.SelectiveRepeat.Log.{
  a_output_log, a_input_log, a_timeout_log, b_input_log,
}
use computer_network_lab.Transport.Emulator.{simulate, start}
use computer_network_lab.Transport.Emulator.Calls.{CanArrive}
use computer_network_lab.Transport.Emulator.Network.{IsNetwork}
use computer_network_lab.Transport.Emulator.Sendable.{log_a_sent, log_b_sent}
use computer_network_lab.Transport.Emulator.Refinement.{simulate_keeps}

-- The functions of stable.c that the emulator calls.
abbrev pub selective_repeat : ℕ → Protocol
selective_repeat window_size = record {
  Sender = Sender;
  Receiver = Receiver;
  sender_log = λ a. a.calls;
  receiver_log = λ b. b.calls;
  output = a_output window_size;
  input = a_input window_size;
  timeout = a_timeout window_size;
  accept_packet = b_input window_size;
}

module _ (window_size : ℕ) (positive : 0 < window_size) (winbuf : ℕ → Pkt) (buffer : ℕ → Bytes)
    (recv_window : ℕ → Pkt) where
  -- The sides can get there on a network.
  abbrev Reached : Sender → Receiver → List Bytes → Type 0
  Reached a b accepted =
      Reach window_size (Network.start winbuf buffer recv_window)
        (record { a = a; b = b; accepted = accepted })

  arrive_a :
      (a : Sender) (b : Receiver) (accepted : List Bytes) (p : Pkt)
      → Reached a b accepted
      → CanArrive b.calls p
      → Reached (a_input window_size p a) b accepted
  arrive_a a b accepted p r (inl m) =
      Reach.next r (Step.reach_a (record { a = a; b = b; accepted = accepted }) p m)
  arrive_a a b accepted p r (inr e) =
      Reach.next r (Step.damage_a (record { a = a; b = b; accepted = accepted }) p e)

  arrive_b :
      (a : Sender) (b : Receiver) (accepted : List Bytes) (p : Pkt)
      → Reached a b accepted
      → CanArrive a.calls p
      → Reached a (b_input window_size p b) accepted
  arrive_b a b accepted p r (inl m) =
      Reach.next r (Step.reach_b (record { a = a; b = b; accepted = accepted }) p m)
  arrive_b a b accepted p r (inr e) =
      Reach.next r (Step.damage_b (record { a = a; b = b; accepted = accepted }) p e)

  selective_repeat-IsNetwork : IsNetwork (selective_repeat window_size) Reached
  selective_repeat-IsNetwork = record {
    on_hand_over = λ a t b accepted message r _ e.
        Reach.next r (Step.hand_over (record { a = a; b = b; accepted = accepted }) message t e);
    on_input = arrive_a;
    on_receive = arrive_b;
    on_timeout = λ a b accepted n r.
        Reach.next r (Step.time_out (record { a = a; b = b; accepted = accepted }) n);
    output_log = λ a t message e. a_output_log window_size message a t e;
    input_log = λ a p. a_input_log window_size p a;
    timeout_log = λ a n. a_timeout_log window_size n a;
    receive_log = λ b p. b_input_log window_size p b;
    sender_sendable = λ a b accepted r known few.
        let v = reached_system window_size winbuf buffer recv_window positive r in
        log_a_sent accepted a.next_seqnum a.calls a.calls (λ c m. m) v.sender.window.genuine known
          (omega (arith, v.sender.queue.count));
    receiver_sendable = λ a b accepted r few.
        let v = reached_system window_size winbuf buffer recv_window positive r in
        log_b_sent a.next_seqnum b.calls b.calls (λ c m. m)
          (reached-IsAcks window_size positive winbuf buffer recv_window r)
          (omega (arith, v.sender.queue.count));
  }

-- With a window of at least one place and at most 5000 messages, for every channel pattern and all
-- delays: the two selective-repeat sides are, after each number of rounds of the emulator's main
-- loop, in a state that they can reach on a network that loses, repeats, reorders and detectably
-- damages packets.
pub selective_repeat_refines :
    {Time : Type 0} (later : Time → Time → Bool) (plus : Time → Time → Time) (rtt delay gap : Time)
    (pattern : Bytes) (nsimmax window_size : ℕ)
    → 0 < window_size
    → nsimmax ≤ 5000
    → (zero_time : Time) (winbuf : ℕ → Pkt) (buffer : ℕ → Bytes) (recv_window : ℕ → Pkt)
      (rounds : ℕ)
    → let s =
        simulate later plus rtt delay gap pattern nsimmax (selective_repeat window_size) rounds (
          start later plus rtt delay gap pattern nsimmax
            (selective_repeat window_size)
            zero_time
            (a_init winbuf buffer)
            (b_init recv_window)) in
      Reach window_size
        (Network.start winbuf buffer recv_window)
        (record { a = s.a; b = s.b; accepted = s.accepted })
unfolding a_init
selective_repeat_refines later plus rtt delay gap pattern nsimmax window_size positive few zero_time
      winbuf buffer recv_window rounds =
    simulate_keeps later plus rtt delay gap pattern nsimmax (selective_repeat window_size) few
      (Reached window_size positive winbuf buffer recv_window)
      (selective_repeat-IsNetwork window_size positive winbuf buffer recv_window) zero_time
      (a_init winbuf buffer) (b_init recv_window) rounds Reach.here refl refl
