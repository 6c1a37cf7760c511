-- ===== src/Transport/Emulator/Calls.antt =====
-- What the calls of one side do to the emulator.
use computer_network_lab.Prelude.{
  ℕ, ◌+◌, ◌%◌, ◌≤◌, ◌≡◌, refl, Bool, true, Bool-cases, inl, inr, ◌⊎◌, List, [], ◌∷◌, arith, leb,
  ◌==◌, Bytes, All, All-map_of, length, get_or,
}
use mathlib.Core.List.{Memᴰ}
use mathlib.Core.List.Memᴰ as Member
use computer_network_lab.Transport.Packet.{
  Pkt, check_corrupted, corrupt, Call, to_layer3, to_layer5, start_timer, stop_timer,
}
use computer_network_lab.Transport.Protocol.{Protocol, Extends}
use computer_network_lab.Transport.Emulator.{
  Side, side_a, side_b, other_side, Kind, timer_interrupt, from_layer5, from_layer3, Event,
  Emulator, stoptime_r, insertevent, schedule, starttime_r, generate_next_arrival, send_on,
  tolayer3, perform, perform_all,
}
use computer_network_lab.Transport.Emulator.EventList.{
  insertevent-All, remove_timer-All, arrival, arrivals, arrivals-insertevent, arrivals-remove_timer,
}

-- A packet that can arrive: the other side has sent it, or it is corrupted.
abbrev pub CanArrive : List Call → Pkt → Type 0
CanArrive log p = Memᴰ (to_layer3 p) log ⊎ (check_corrupted p ≡ true)

abbrev pub IsEvent : List Call → List Call → Side → Kind → Type 0
IsEvent log_a log_b side_a (from_layer3 p) = CanArrive log_b p
IsEvent log_a log_b side_b (from_layer3 p) = CanArrive log_a p
IsEvent log_a log_b side (timer_interrupt n) = Unit
IsEvent log_a log_b side from_layer5 = Unit

-- A call of a side: what it sends is in its log and is found when it is corrupted.
abbrev pub IsSendable : List Call → Call → Type 0
IsSendable log (to_layer3 p) = Memᴰ (to_layer3 p) log × (check_corrupted (corrupt p) ≡ true)
IsSendable log (to_layer5 b) = Unit
IsSendable log (start_timer n) = Unit
IsSendable log (stop_timer n) = Unit

abbrev pub log_of : Side → List Call → List Call → List Call
log_of side_a log_a log_b = log_a
log_of side_b log_a log_b = log_b

-- An emulator of two sides with these logs, of which A has got `total` messages.
pub record IsEmulator {Time : Type 0} (log_a log_b : List Call) (nsimmax total : ℕ)
    (e : Emulator Time) : Type 0 where
  pub events : All (λ (q : Event Time). IsEvent log_a log_b q.eventity q.evtype) e.evlist
  pub budget : arrivals e.evlist + total ≤ e.nsim
  pub limit : e.nsim ≤ nsimmax

IsEvent-arrival :
    (log_a log_b : List Call) (side : Side) (p : Pkt)
    → CanArrive (log_of side log_a log_b) p
    → IsEvent log_a log_b (other_side side) (from_layer3 p)
unfolding other_side
IsEvent-arrival log_a log_b side_a p h = h
IsEvent-arrival log_a log_b side_b p h = h

mem_extends : {xs ys : List Call} {c : Call} → Extends xs ys → Memᴰ c xs → Memᴰ c ys
mem_extends (more, e) m = rw e (Member.append_left more m)

Event-grows :
    (xs ys us vs : List Call) (side : Side) (k : Kind)
    → Extends xs ys
    → Extends us vs
    → IsEvent xs us side k
    → IsEvent ys vs side k
Event-grows xs ys us vs side_a (from_layer3 p) h k (inl m) = inl (mem_extends k m)
Event-grows xs ys us vs side_a (from_layer3 p) h k (inr m) = inr m
Event-grows xs ys us vs side_b (from_layer3 p) h k (inl m) = inl (mem_extends h m)
Event-grows xs ys us vs side_b (from_layer3 p) h k (inr m) = inr m
Event-grows xs ys us vs side (timer_interrupt n) h k m = tt
Event-grows xs ys us vs side from_layer5 h k m = tt

module _ {Time : Type 0} (log_a log_b : List Call) (nsimmax total : ℕ) where
  schedule-IsEmulator :
      (later : Time → Time → Bool) (p : Event Time) (e : Emulator Time)
      → IsEmulator log_a log_b nsimmax total e
      → IsEvent log_a log_b p.eventity p.evtype
      → arrival p.evtype ≡ 0
      → IsEmulator log_a log_b nsimmax total (schedule later p e)
  unfolding schedule
  schedule-IsEmulator later p e v h k = record {
    events = insertevent-All later _ p e.evlist h v.events;
    budget = omega (arith, arrivals-insertevent later p e.evlist, v.budget);
    limit = v.limit;
  }

  stoptime_r-IsEmulator :
      (side : Side) (n : ℕ) (e : Emulator Time)
      → IsEmulator log_a log_b nsimmax total e
      → IsEmulator log_a log_b nsimmax total (stoptime_r side n e)
  unfolding stoptime_r
  stoptime_r-IsEmulator side n e v = record {
    events = remove_timer-All _ side n e.evlist v.events;
    budget = omega (arith, arrivals-remove_timer side n e.evlist, v.budget);
    limit = v.limit;
  }

  tolayer3-IsEmulator :
      (later : Time → Time → Bool) (plus : Time → Time → Time) (pattern : Bytes) (delay : Time)
      (side : Side) (p : Pkt) (e : Emulator Time)
      → IsEmulator log_a log_b nsimmax total e
      → IsSendable (log_of side log_a log_b) (to_layer3 p)
      → IsEmulator log_a log_b nsimmax total (tolayer3 later plus pattern delay side p e)
  unfolding tolayer3 send_on
  tolayer3-IsEmulator later plus pattern delay side p e v (m, damaged) =
      let letter = get_or pattern (e.cp % length pattern) 0 in
      elim (Bool-cases (letter == b'x')) [
        | inl k ↦ rw k (record { events = v.events; budget = v.budget; limit = v.limit })
        | inr k ↦ elim (Bool-cases (letter == b'-')) [
          | inl j ↦ rw k (
              rw j (
                schedule-IsEmulator later _ _
                  (record { events = v.events; budget = v.budget; limit = v.limit })
                  (IsEvent-arrival log_a log_b side _ (inr damaged)) refl))
          | inr j ↦ rw k (
              rw j (
                schedule-IsEmulator later _ _
                  (record { events = v.events; budget = v.budget; limit = v.limit })
                  (IsEvent-arrival log_a log_b side _ (inl m)) refl))
        ]
      ]

module _ {Time : Type 0} (later : Time → Time → Bool) (plus : Time → Time → Time)
    (rtt delay gap : Time) (pattern : Bytes) (nsimmax : ℕ) (protocol : Protocol)
    (log_a log_b : List Call) (total : ℕ) where
  perform-IsEmulator :
      (side : Side) (c : Call) (e : Emulator Time)
      → IsEmulator log_a log_b nsimmax total e
      → IsSendable (log_of side log_a log_b) c
      → IsEmulator log_a log_b nsimmax total
          (perform later plus rtt delay gap pattern nsimmax protocol side c e)
  unfolding perform starttime_r
  perform-IsEmulator side (to_layer3 p) e v h =
      tolayer3-IsEmulator log_a log_b nsimmax total later plus pattern delay side p e v h
  perform-IsEmulator side (to_layer5 b) e v h = v
  perform-IsEmulator side (start_timer n) e v h =
      schedule-IsEmulator log_a log_b nsimmax total later _ e v tt refl
  perform-IsEmulator side (stop_timer n) e v h =
      stoptime_r-IsEmulator log_a log_b nsimmax total side n e v

  pub perform_all-IsEmulator :
      (side : Side) (calls : List Call) (e : Emulator Time)
      → IsEmulator log_a log_b nsimmax total e
      → All (IsSendable (log_of side log_a log_b)) calls
      → IsEmulator log_a log_b nsimmax total
          (perform_all later plus rtt delay gap pattern nsimmax protocol side calls e)
  unfolding perform_all
  perform_all-IsEmulator side [] e v h = v
  perform_all-IsEmulator side (c ∷ calls) e v (h, k) =
      perform_all-IsEmulator side calls _ (perform-IsEmulator side c e v h) k

  -- Another message is to come, while there are fewer than `nsimmax`.
  pub generate_next_arrival-IsEmulator :
      (e : Emulator Time)
      → IsEmulator log_a log_b nsimmax total e
      → IsEmulator log_a log_b nsimmax total (generate_next_arrival later plus nsimmax gap e)
        × (e.nsim ≤ (generate_next_arrival later plus nsimmax gap e).nsim)
  unfolding generate_next_arrival schedule
  generate_next_arrival-IsEmulator e v = elim (Bool-cases (leb nsimmax e.nsim)) [
    | inl k ↦ rw k (v, omega arith)
    | inr k ↦
        let p : Event Time = record {
          evtime = plus e.clock gap;
          eventity = side_a;
          evtype = from_layer5;
        } in
        let more : arrivals (insertevent later p e.evlist) ≡ 1 + arrivals e.evlist =
          arrivals-insertevent later p e.evlist in
        rw k (
          record {
            events = insertevent-All later _ p e.evlist tt v.events;
            budget = omega (arith, v.budget);
            limit = ground (arith, v.limit);
          },
          omega arith,
        )
  ]

-- Longer logs leave the emulator as it is.
pub grow-IsEmulator :
    {Time : Type 0} (xs ys us vs : List Call) (nsimmax total : ℕ) (e : Emulator Time)
    → Extends xs ys
    → Extends us vs
    → IsEmulator xs us nsimmax total e
    → IsEmulator ys vs nsimmax total e
grow-IsEmulator {Time = Time} xs ys us vs nsimmax total e h k v = record {
  events =
      All-map_of (λ (q : Event Time). IsEvent xs us q.eventity q.evtype)
        (λ (q : Event Time). IsEvent ys vs q.eventity q.evtype)
        (λ q. Event-grows xs ys us vs q.eventity q.evtype h k) e.evlist v.events;
  budget = v.budget;
  limit = v.limit;
}

pub fewer-IsEmulator :
    {Time : Type 0} (log_a log_b : List Call) (nsimmax total fewer : ℕ) (e : Emulator Time)
    → fewer ≤ total
    → IsEmulator log_a log_b nsimmax total e
    → IsEmulator log_a log_b nsimmax fewer e
fewer-IsEmulator log_a log_b nsimmax total fewer e h v = record {
  events = v.events;
  budget = omega (arith, v.budget);
  limit = v.limit;
}
