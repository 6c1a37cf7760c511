-- ===== src/Transport/Emulator.antt =====
-- original-labs/gbn.c: the emulator of the network below A and B, with the sides of a protocol on it;
-- original-labs/stable.c has a copy of it. The doubly linked event list is a list. The C type float is
-- a parameter `Time` with its comparison `>=` and its sum; `rtt` is `RTT`, `delay` is `RTT / 2 - 1`,
-- and `gap` is the user's `lambda`.
pub mod EventList
pub mod Order
pub mod Calls
pub mod Sendable
pub mod Network
pub mod Arrivals
pub mod Refinement
use computer_network_lab.Prelude.{
  ℕ, zero, suc, ◌+◌, ◌%◌, Bool, true, false, ◌&&◌, Option, none, some, List, [], ◌∷◌, ◌++◌, ltb,
  leb, ◌==◌, if◌then◌else◌, Bytes, replicate, length, drop, get_or,
}
use computer_network_lab.Transport.Packet.{
  Pkt, corrupt, Call, to_layer3, to_layer5, start_timer, stop_timer,
}
use computer_network_lab.Transport.Protocol.{Protocol}

-- `A` and `B`.
pub data Side : Type 0 where
  side_a side_b : Side

unfoldable pub same_side : Side → Side → Bool
same_side side_a side_a = true
same_side side_b side_b = true
same_side _ _ = false

unfoldable pub other_side : Side → Side
other_side side_a = side_b
other_side side_b = side_a

-- The event codes, each with what its event carries.
pub data Kind : Type 0 where
  timer_interrupt : ℕ → Kind
  from_layer5 : Kind
  from_layer3 : Pkt → Kind

-- `struct event`.
pub record Event (Time : Type 0) : Type 0 where
  pub evtime : Time
  pub eventity : Side
  pub evtype : Kind

-- The emulator's variables. `cp` is one more than in the code, where it starts at -1.
pub record Emulator (Time : Type 0) : Type 0 where
  pub evlist : List (Event Time)
  pub clock : Time
  pub nsim : ℕ
  pub cp : ℕ
  pub ntolayer3 : ℕ
  pub nlost : ℕ
  pub ncorrupt : ℕ

-- The whole program's state, with the messages that A has got so far.
pub record Simulation (Time : Type 0) (protocol : Protocol) : Type 0 where
  pub emulator : Emulator Time
  pub a : protocol.Sender
  pub b : protocol.Receiver
  pub accepted : List Bytes

-- Whether an event is the timer of this packet at this side.
unfoldable pub is_timer : {Time : Type 0} → Side → ℕ → Event Time → Bool
is_timer side pkt_del q = timer_of q.evtype
  where
    timer_of : Kind → Bool
    timer_of (timer_interrupt n) = n == pkt_del && same_side q.eventity side
    timer_of from_layer5 = false
    timer_of (from_layer3 p) = false

-- The search of `stoptime_r`: the first such event is taken out.
unfoldable pub remove_timer : {Time : Type 0} → Side → ℕ → List (Event Time) → List (Event Time)
remove_timer side pkt_del [] = []
remove_timer side pkt_del (q ∷ evlist) =
    let rest = remove_timer side pkt_del evlist in
    if is_timer side pkt_del q then evlist else q ∷ rest

-- `stoptime_r`.
unfoldable pub stoptime_r : {Time : Type 0} → Side → ℕ → Emulator Time → Emulator Time
stoptime_r side pkt_del e = record e { evlist = remove_timer side pkt_del e.evlist }

module _ {Time : Type 0} (later : Time → Time → Bool) where
  -- `insertevent`: before the first event that is later.
  unfoldable pub insertevent : Event Time → List (Event Time) → List (Event Time)
  insertevent p [] = p ∷ []
  insertevent p (q ∷ evlist) =
      let rest = insertevent p evlist in
      if later p.evtime q.evtime then q ∷ rest else p ∷ q ∷ evlist

  unfoldable pub schedule : Event Time → Emulator Time → Emulator Time
  schedule p e = record e { evlist = insertevent p e.evlist }

module _ {Time : Type 0} (later : Time → Time → Bool) (plus : Time → Time → Time) where
  -- `starttime_r`.
  unfoldable pub starttime_r : ℕ → Side → Time → Emulator Time → Emulator Time
  starttime_r pkt_seq side increment e =
      schedule later
        (record {
          evtime = plus e.clock increment;
          eventity = side;
          evtype = timer_interrupt pkt_seq;
        })
        e

  -- `generate_next_arrival`.
  unfoldable pub generate_next_arrival : ℕ → Time → Emulator Time → Emulator Time
  generate_next_arrival nsimmax gap e =
      if leb nsimmax e.nsim
      then e
      else let f =
          schedule later
            (record { evtime = plus e.clock gap; eventity = side_a; evtype = from_layer5 }) e in
        record f { nsim = f.nsim + 1 }

  -- The arrival of a packet at the other side.
  unfoldable pub send_on : Side → Time → Pkt → Emulator Time → Emulator Time
  send_on side delay packet e =
      schedule later
        (record {
          evtime = plus e.clock delay;
          eventity = other_side side;
          evtype = from_layer3 packet;
        })
        e

  -- `tolayer3`; the channel pattern is not empty.
  unfoldable pub tolayer3 : Bytes → Time → Side → Pkt → Emulator Time → Emulator Time
  tolayer3 pattern delay side packet e =
      let letter = get_or pattern (e.cp % length pattern) 0 in
      let f = record e { cp = e.cp + 1; ntolayer3 = e.ntolayer3 + 1 } in
      if letter == b'x'
      then record f { nlost = f.nlost + 1 }
      else if letter == b'-'
      then send_on side delay (corrupt packet) (record f { ncorrupt = f.ncorrupt + 1 })
      else send_on side delay packet f

-- The message that `main` makes up.
unfoldable pub next_message : ℕ → Bytes
next_message nsim = replicate 20 (97 + nsim % 26)

module _ {Time : Type 0} {protocol : Protocol} where
  unfoldable pub go_on :
      Simulation Time protocol
      → (Simulation Time protocol → Simulation Time protocol)
      → Option (Simulation Time protocol)
      → Simulation Time protocol
  go_on s further none = s
  go_on s further (some t) = further t

module _ {Time : Type 0} (later : Time → Time → Bool) (plus : Time → Time → Time)
    (rtt delay gap : Time) (pattern : Bytes) (nsimmax : ℕ) (protocol : Protocol) where
  -- A call of one side.
  unfoldable pub perform : Side → Call → Emulator Time → Emulator Time
  perform side (to_layer3 p) e = tolayer3 later plus pattern delay side p e
  perform side (to_layer5 b) e = e
  perform side (start_timer n) e = starttime_r later plus n side rtt e
  perform side (stop_timer n) e = stoptime_r side n e

  unfoldable pub perform_all : Side → List Call → Emulator Time → Emulator Time
  perform_all side [] e = e
  perform_all side (c ∷ calls) e = perform_all side calls (perform side c e)

  -- A side has run: its new calls are performed.
  unfoldable pub run_a : protocol.Sender → Simulation Time protocol → Simulation Time protocol
  run_a a s = record s {
    a = a;
    emulator =
        perform_all side_a (drop (length (protocol.sender_log s.a)) (protocol.sender_log a))
          s.emulator;
  }

  unfoldable pub run_b : protocol.Receiver → Simulation Time protocol → Simulation Time protocol
  run_b b s = record s {
    b = b;
    emulator =
        perform_all side_b (drop (length (protocol.receiver_log s.b)) (protocol.receiver_log b))
          s.emulator;
  }

  -- A has taken the message, or has ended the program.
  unfoldable pub hand_over :
      Bytes → Option protocol.Sender → Simulation Time protocol → Option (Simulation Time protocol)
  hand_over message none s = none
  hand_over message (some a) s =
      let t = run_a a s in some (record t { accepted = t.accepted ++ message ∷ [] })

  -- The branches of `main`'s loop.
  unfoldable pub dispatch :
      Side → Kind → Simulation Time protocol → Option (Simulation Time protocol)
  dispatch side_a from_layer5 s =
      let e = generate_next_arrival later plus nsimmax gap s.emulator in
      let message = next_message e.nsim in
      hand_over message (protocol.output message s.a) (record s { emulator = e })
  dispatch side_b from_layer5 s =
      some (record s { emulator = generate_next_arrival later plus nsimmax gap s.emulator })
  dispatch side_a (from_layer3 p) s = some (run_a (protocol.input p s.a) s)
  dispatch side_b (from_layer3 p) s = some (run_b (protocol.accept_packet p s.b) s)
  dispatch side_a (timer_interrupt n) s = some (run_a (protocol.timeout n s.a) s)
  dispatch side_b (timer_interrupt n) s = some s

  -- The first event is taken out and carried out; without one the loop ends.
  unfoldable pub run_first :
      Simulation Time protocol → List (Event Time) → Option (Simulation Time protocol)
  run_first s [] = none
  run_first s (q ∷ evlist) =
      dispatch q.eventity q.evtype
        (record s { emulator = record s.emulator { evlist = evlist; clock = q.evtime } })

  -- A round of `main`'s loop; `none` where there is none, or where it ends the program.
  unfoldable pub round : Simulation Time protocol → Option (Simulation Time protocol)
  round s = run_first s s.emulator.evlist

  -- That many rounds, or until the program ends.
  unfoldable pub simulate : ℕ → Simulation Time protocol → Simulation Time protocol
  simulate zero s = s
  simulate (suc rounds) s = go_on s (simulate rounds) (round s)

  -- The state after `init`, with what `A_init` and `B_init` make of the sides.
  unfoldable pub start : Time → protocol.Sender → protocol.Receiver → Simulation Time protocol
  start zero_time a b = record {
    emulator = generate_next_arrival later plus nsimmax gap (record {
      evlist = [];
      clock = zero_time;
      nsim = 0;
      cp = 0;
      ntolayer3 = 0;
      nlost = 0;
      ncorrupt = 0;
    });
    a = a;
    b = b;
    accepted = [];
  }
