-- ===== src/Transport/Emulator/Refinement.antt =====
-- The emulator is one of the networks on which a protocol is proved to work: what holds of the two
-- sides wherever such a network carries their packets holds after each round of the main loop.
use computer_network_lab.Prelude.{
  ℕ, zero, suc, ◌+◌, ◌≤◌, ◌≡◌, refl, sym, Bool, Option, Option-cases, inl, inr, none, some, List,
  [], ◌∷◌, ◌++◌, arith, Bytes, All, All-append, length, length-append, append-nil,
}
use mathlib.Core.Option.{some-injective}
use computer_network_lab.Transport.Protocol.{Protocol, Extends}
use computer_network_lab.Transport.Damage.{IsMessage}
use computer_network_lab.Transport.Emulator.{
  Side, side_a, side_b, Kind, timer_interrupt, from_layer5, from_layer3, Event, Simulation,
  generate_next_arrival, run_a, run_b, hand_over, next_message, dispatch, run_first, round, go_on,
  simulate, start,
}
use computer_network_lab.Transport.Emulator.Network.{IsNetwork}
use computer_network_lab.Transport.Emulator.Sendable.{All-drop}
use computer_network_lab.Transport.Emulator.EventList.{arrival}
use computer_network_lab.Transport.Emulator.Arrivals.{next_message-IsMessage, first-IsEmulator}
use computer_network_lab.Transport.Emulator.Calls.{
  IsEvent, IsEmulator, perform_all-IsEmulator, generate_next_arrival-IsEmulator, grow-IsEmulator,
  fewer-IsEmulator,
}

module _ {Time : Type 0} (later : Time → Time → Bool) (plus : Time → Time → Time)
    (rtt delay gap : Time) (pattern : Bytes) (nsimmax : ℕ) (protocol : Protocol)
    (few : nsimmax ≤ 5000) (Reached : protocol.Sender → protocol.Receiver → List Bytes → Type 0)
    (network : IsNetwork protocol Reached) where
  -- A simulation whose sides have got where they are on a network, and whose emulator fits them.
  record IsRun (s : Simulation Time protocol) : Type 0 where
    pub reached : Reached s.a s.b s.accepted
    pub fits :
        IsEmulator
          (protocol.sender_log s.a)
          (protocol.receiver_log s.b)
          nsimmax
          (length s.accepted)
          s.emulator
    pub messages : All IsMessage s.accepted

  -- A has run.
  run_a-IsRun :
      (s : Simulation Time protocol) (t : protocol.Sender) (accepted : List Bytes)
      → Reached t s.b accepted
      → Extends (protocol.sender_log s.a) (protocol.sender_log t)
      → All IsMessage accepted
      → IsEmulator
          (protocol.sender_log s.a)
          (protocol.receiver_log s.b)
          nsimmax
          (length accepted)
          s.emulator
      → IsRun (record (run_a later plus rtt delay gap pattern nsimmax protocol t s) {
        accepted = accepted;
      })
  unfolding run_a
  run_a-IsRun s t accepted steps longer known fits = record {
    reached = steps;
    fits =
        perform_all-IsEmulator later plus rtt delay gap pattern nsimmax protocol
          (protocol.sender_log t) (protocol.receiver_log s.b) (length accepted) side_a _ s.emulator
          (grow-IsEmulator (protocol.sender_log s.a) (protocol.sender_log t)
            (protocol.receiver_log s.b) (protocol.receiver_log s.b) nsimmax _ s.emulator longer
            ([], sym (append-nil (protocol.receiver_log s.b))) fits)
          (All-drop _ (length (protocol.sender_log s.a)) (protocol.sender_log t) (
            network.sender_sendable t s.b accepted steps known
              (omega (arith, fits.budget, fits.limit))));
    messages = known;
  }

  -- B has run.
  run_b-IsRun :
      (s : Simulation Time protocol) (t : protocol.Receiver)
      → Reached s.a t s.accepted
      → Extends (protocol.receiver_log s.b) (protocol.receiver_log t)
      → All IsMessage s.accepted
      → IsEmulator
          (protocol.sender_log s.a)
          (protocol.receiver_log s.b)
          nsimmax
          (length s.accepted)
          s.emulator
      → IsRun (run_b later plus rtt delay gap pattern nsimmax protocol t s)
  unfolding run_b
  run_b-IsRun s t steps longer known fits = record {
    reached = steps;
    fits =
        perform_all-IsEmulator later plus rtt delay gap pattern nsimmax protocol
          (protocol.sender_log s.a) (protocol.receiver_log t) (length s.accepted) side_b _
          s.emulator
          (grow-IsEmulator (protocol.sender_log s.a) (protocol.sender_log s.a)
            (protocol.receiver_log s.b) (protocol.receiver_log t) nsimmax _ s.emulator
            ([], sym (append-nil (protocol.sender_log s.a))) longer fits)
          (All-drop _ (length (protocol.receiver_log s.b)) (protocol.receiver_log t) (
            network.receiver_sendable s.a t s.accepted steps
              (omega (arith, fits.budget, fits.limit))));
    messages = known;
  }

  -- A message is handed over, unless that ends the program.
  hand_over-IsRun :
      (message : Bytes) (a : Option protocol.Sender) (s t : Simulation Time protocol)
      → protocol.output message s.a ≡ a
      → Reached s.a s.b s.accepted
      → IsMessage message
      → All IsMessage s.accepted
      → IsEmulator
          (protocol.sender_log s.a)
          (protocol.receiver_log s.b)
          nsimmax
          (1 + length s.accepted)
          s.emulator
      → hand_over later plus rtt delay gap pattern nsimmax protocol message a s ≡ some t
      → IsRun t
  unfolding hand_over run_a
  hand_over-IsRun message none s t h steps good known fits e = cc
  hand_over-IsRun message (some a) s t h steps good known fits e = rw (sym (some-injective _ _ e)) (
      run_a-IsRun s a (s.accepted ++ message ∷ [])
        (network.on_hand_over s.a a s.b s.accepted message steps
          (omega (arith, fits.budget, fits.limit)) h)
        (network.output_log s.a a message h)
        (All-append _ s.accepted (message ∷ []) known (good, tt))
        (fewer-IsEmulator _ _ nsimmax _ _ s.emulator
          (omega (arith, length-append s.accepted (message ∷ []))) fits))

  -- A round's event is carried out.
  dispatch-IsRun :
      (side : Side) (k : Kind) (s t : Simulation Time protocol)
      → Reached s.a s.b s.accepted
      → All IsMessage s.accepted
      → IsEmulator
          (protocol.sender_log s.a)
          (protocol.receiver_log s.b)
          nsimmax
          (arrival k + length s.accepted)
          s.emulator
      → IsEvent (protocol.sender_log s.a) (protocol.receiver_log s.b) side k
      → dispatch later plus rtt delay gap pattern nsimmax protocol side k s ≡ some t
      → IsRun t
  unfolding dispatch run_a
  dispatch-IsRun side_a from_layer5 s t steps known fits h e =
      let f = generate_next_arrival later plus nsimmax gap s.emulator in
      let (g, _) =
        generate_next_arrival-IsEmulator later plus rtt delay gap pattern nsimmax protocol _ _
          (1 + length s.accepted) s.emulator fits in
      hand_over-IsRun (next_message f.nsim) _ (record s { emulator = f }) t refl steps
        (next_message-IsMessage f.nsim) known g e
  dispatch-IsRun side_b from_layer5 s t steps known fits h e =
      let (g, _) =
        generate_next_arrival-IsEmulator later plus rtt delay gap pattern nsimmax protocol _ _
          (1 + length s.accepted) s.emulator fits in
      rw (sym (some-injective _ _ e)) (record {
        reached = steps;
        fits = fewer-IsEmulator _ _ nsimmax _ _ _ (omega arith) g;
        messages = known;
      })
  dispatch-IsRun side_a (from_layer3 p) s t steps known fits h e = rw (sym (some-injective _ _ e)) (
      run_a-IsRun s (protocol.input p s.a) s.accepted
        (network.on_input s.a s.b s.accepted p steps h) (network.input_log s.a p) known
        (fewer-IsEmulator _ _ nsimmax _ _ _ (omega arith) fits))
  dispatch-IsRun side_b (from_layer3 p) s t steps known fits h e = rw (sym (some-injective _ _ e)) (
      run_b-IsRun s (protocol.accept_packet p s.b) (network.on_receive s.a s.b s.accepted p steps h)
        (network.receive_log s.b p) known (fewer-IsEmulator _ _ nsimmax _ _ _ (omega arith) fits))
  dispatch-IsRun side_a (timer_interrupt n) s t steps known fits h e =
      rw (sym (some-injective _ _ e)) (
        run_a-IsRun s (protocol.timeout n s.a) s.accepted
          (network.on_timeout s.a s.b s.accepted n steps) (network.timeout_log s.a n) known
          (fewer-IsEmulator _ _ nsimmax _ _ _ (omega arith) fits))
  dispatch-IsRun side_b (timer_interrupt n) s t steps known fits h e =
      rw (sym (some-injective _ _ e)) (record {
        reached = steps;
        fits = fewer-IsEmulator _ _ nsimmax _ _ _ (omega arith) fits;
        messages = known;
      })

  run_first-IsRun :
      (s t : Simulation Time protocol) (evlist : List (Event Time))
      → s.emulator.evlist ≡ evlist
      → IsRun s
      → run_first later plus rtt delay gap pattern nsimmax protocol s evlist ≡ some t
      → IsRun t
  unfolding run_first
  run_first-IsRun s t [] h v e = cc
  run_first-IsRun s t (q ∷ evlist) h v e =
      let fits = first-IsEmulator _ _ nsimmax _ s.emulator q evlist h v.fits in
      dispatch-IsRun q.eventity q.evtype
        (record s { emulator = record s.emulator { evlist = evlist; clock = q.evtime } }) t
        v.reached v.messages fits.0 fits.1 e

  simulate-IsRun :
      (rounds : ℕ) (s : Simulation Time protocol)
      → IsRun s
      → IsRun (simulate later plus rtt delay gap pattern nsimmax protocol rounds s)
  unfolding simulate go_on round
  simulate-IsRun zero s v = v
  simulate-IsRun (suc rounds) s v =
      elim (Option-cases
        (run_first later plus rtt delay gap pattern nsimmax protocol s s.emulator.evlist)) [
          | inl e ↦ rw e v
          | inr (t, e) ↦
              rw e (simulate-IsRun rounds t (run_first-IsRun s t s.emulator.evlist refl v e))
        ]

  -- The sides are related after each number of rounds, if their first states are.
  pub simulate_keeps :
      (zero_time : Time) (a : protocol.Sender) (b : protocol.Receiver) (rounds : ℕ)
      → Reached a b []
      → protocol.sender_log a ≡ []
      → protocol.receiver_log b ≡ []
      → let s =
          simulate later plus rtt delay gap pattern nsimmax protocol rounds
            (start later plus rtt delay gap pattern nsimmax protocol zero_time a b) in
        Reached s.a s.b s.accepted
  unfolding start
  simulate_keeps zero_time a b rounds steps no_a no_b =
      (simulate-IsRun rounds _ (record {
        reached = steps;
        fits =
            (generate_next_arrival-IsEmulator later plus rtt delay gap pattern nsimmax protocol _ _
              0 _ (record { events = tt; budget = omega arith; limit = omega arith })).0;
        messages = tt;
      })).reached
