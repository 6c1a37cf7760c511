-- ===== src/Transport/Emulator/Order.antt =====
-- The event list is in order of time, and the clock of the emulator never runs backwards.
use computer_network_lab.Prelude.{
  ℕ, ◌%◌, ◌≡◌, refl, ◌∙◌, ap, sym, Bool, true, false, Bool-cases, inl, inr, Option, none, some,
  List, [], ◌∷◌, leb, ◌==◌, Bytes, All, All-map_of, length, get_or,
}
use mathlib.Core.Option.{some-injective}
use computer_network_lab.Transport.Packet.{Call, to_layer3, to_layer5, start_timer, stop_timer}
use computer_network_lab.Transport.Protocol.{Protocol}
use computer_network_lab.Transport.Emulator.{
  hand_over, Side, side_a, side_b, Kind, timer_interrupt, from_layer5, from_layer3, Event, Emulator,
  Simulation, is_timer, remove_timer, stoptime_r, insertevent, schedule, starttime_r,
  generate_next_arrival, send_on, tolayer3, perform, perform_all, run_a, run_b, dispatch, run_first,
  round,
}
use computer_network_lab.Transport.Emulator.EventList.{insertevent-All, remove_timer-All}

module _ {Time : Type 0} (later : Time → Time → Bool)
    (total : (x y : Time) → later x y ≡ false → later y x ≡ true)
    (transitive : (x y z : Time) → later x y ≡ true → later y z ≡ true → later x z ≡ true) where
  abbrev pub IsLater : Time → Event Time → Type 0
  IsLater t q = later q.evtime t ≡ true

  -- Every event is at most as late as those behind it.
  abbrev pub IsSorted : List (Event Time) → Type 0
  IsSorted [] = Unit
  IsSorted (q ∷ evlist) = All (IsLater q.evtime) evlist × IsSorted evlist

  all_later :
      (x y : Time) (evlist : List (Event Time))
      → later x y ≡ true
      → All (IsLater x) evlist
      → All (IsLater y) evlist
  all_later x y evlist h k =
      All-map_of (IsLater x) (IsLater y) (λ q j. transitive q.evtime x y j h) evlist k

  -- `insertevent` keeps the order of the event list.
  insertevent-IsSorted :
      (p : Event Time) (evlist : List (Event Time))
      → IsSorted evlist
      → IsSorted (insertevent later p evlist)
  unfolding insertevent
  insertevent-IsSorted p [] h = (tt, tt)
  insertevent-IsSorted p (q ∷ evlist) (h, k) = elim (Bool-cases (later p.evtime q.evtime)) [
    | inl e ↦
        rw e
          (insertevent-All later (IsLater q.evtime) p evlist e h, insertevent-IsSorted p evlist k)
    | inr e ↦
        let before = total p.evtime q.evtime e in
        rw e ((before, all_later q.evtime p.evtime evlist before h), (h, k))
  ]

  remove_timer-IsSorted :
      (side : Side) (n : ℕ) (evlist : List (Event Time))
      → IsSorted evlist
      → IsSorted (remove_timer side n evlist)
  unfolding remove_timer
  remove_timer-IsSorted side n [] h = tt
  remove_timer-IsSorted side n (q ∷ evlist) (h, k) = elim (Bool-cases (is_timer side n q)) [
    | inl e ↦ rw e k
    | inr e ↦
        rw e (
          remove_timer-All (IsLater q.evtime) side n evlist h,
          remove_timer-IsSorted side n evlist k,
        )
  ]

  -- The events are in order, and none is over.
  pub record IsTimed (e : Emulator Time) : Type 0 where
    pub sorted : IsSorted e.evlist
    pub coming : All (IsLater e.clock) e.evlist

  schedule-IsTimed :
      (p : Event Time) (e : Emulator Time)
      → IsLater e.clock p
      → IsTimed e
      → IsTimed (schedule later p e)
  unfolding schedule
  schedule-IsTimed p e h v = record {
    sorted = insertevent-IsSorted p e.evlist v.sorted;
    coming = insertevent-All later (IsLater e.clock) p e.evlist h v.coming;
  }

  module _ (plus : Time → Time → Time) (rtt delay gap : Time) (pattern : Bytes) (nsimmax : ℕ)
      (protocol : Protocol) (after_rtt : (t : Time) → later (plus t rtt) t ≡ true)
      (after_delay : (t : Time) → later (plus t delay) t ≡ true)
      (after_gap : (t : Time) → later (plus t gap) t ≡ true) where
    perform-IsTimed :
        (side : Side) (c : Call) (e : Emulator Time)
        → IsTimed e
        → IsTimed (perform later plus rtt delay gap pattern nsimmax protocol side c e)
          × ((perform later plus rtt delay gap pattern nsimmax protocol side c e).clock ≡ e.clock)
    unfolding perform starttime_r stoptime_r tolayer3 send_on schedule
    perform-IsTimed side (to_layer3 p) e v =
        let letter = get_or pattern (e.cp % length pattern) 0 in
        elim (Bool-cases (letter == b'x')) [
          | inl k ↦ rw k (record { sorted = v.sorted; coming = v.coming }, refl)
          | inr k ↦ elim (Bool-cases (letter == b'-')) [
            | inl j ↦ rw k (
                rw j (
                  schedule-IsTimed _ _ (after_delay e.clock)
                      (record { sorted = v.sorted; coming = v.coming }),
                  refl,
                ))
            | inr j ↦ rw k (
                rw j (
                  schedule-IsTimed _ _ (after_delay e.clock)
                      (record { sorted = v.sorted; coming = v.coming }),
                  refl,
                ))
          ]
        ]
    perform-IsTimed side (to_layer5 b) e v = (v, refl)
    perform-IsTimed side (start_timer n) e v = (schedule-IsTimed _ e (after_rtt e.clock) v, refl)
    perform-IsTimed side (stop_timer n) e v = (
      record {
        sorted = remove_timer-IsSorted side n e.evlist v.sorted;
        coming = remove_timer-All (IsLater e.clock) side n e.evlist v.coming;
      },
      refl,
    )

    perform_all-IsTimed :
        (side : Side) (calls : List Call) (e : Emulator Time)
        → IsTimed e
        → IsTimed (perform_all later plus rtt delay gap pattern nsimmax protocol side calls e)
          × ((perform_all later plus rtt delay gap pattern nsimmax protocol side calls e).clock
              ≡ e.clock)
    unfolding perform_all
    perform_all-IsTimed side [] e v = (v, refl)
    perform_all-IsTimed side (c ∷ calls) e v =
        let (h, k) = perform-IsTimed side c e v in
        let (i, j) = perform_all-IsTimed side calls _ h in (i, j ∙ k)

    generate_next_arrival-IsTimed :
        (e : Emulator Time)
        → IsTimed e
        → IsTimed (generate_next_arrival later plus nsimmax gap e)
          × ((generate_next_arrival later plus nsimmax gap e).clock ≡ e.clock)
    unfolding generate_next_arrival schedule
    generate_next_arrival-IsTimed e v = elim (Bool-cases (leb nsimmax e.nsim)) [
      | inl k ↦ rw k (v, refl)
      | inr k ↦
          let p : Event Time = record {
            evtime = plus e.clock gap;
            eventity = side_a;
            evtype = from_layer5;
          } in
          let w = schedule-IsTimed p e (after_gap e.clock) v in
          rw k (record { sorted = w.sorted; coming = w.coming }, refl)
    ]

    hand_over-IsTimed :
        (message : Bytes) (a : Option protocol.Sender) (s t : Simulation Time protocol)
        → IsTimed s.emulator
        → hand_over later plus rtt delay gap pattern nsimmax protocol message a s ≡ some t
        → IsTimed t.emulator × (t.emulator.clock ≡ s.emulator.clock)
    unfolding hand_over run_a
    hand_over-IsTimed message none s t v e = cc
    hand_over-IsTimed message (some a) s t v e =
        rw (sym (some-injective _ _ e)) (perform_all-IsTimed side_a _ s.emulator v)

    dispatch-IsTimed :
        (side : Side) (k : Kind) (s t : Simulation Time protocol)
        → IsTimed s.emulator
        → dispatch later plus rtt delay gap pattern nsimmax protocol side k s ≡ some t
        → IsTimed t.emulator × (t.emulator.clock ≡ s.emulator.clock)
    unfolding dispatch run_a run_b
    dispatch-IsTimed side_a from_layer5 s t v e =
        let (h, k) = generate_next_arrival-IsTimed s.emulator v in
        let (i, j) = hand_over-IsTimed _ _ _ t h e in (i, j ∙ k)
    dispatch-IsTimed side_b from_layer5 s t v e =
        rw (sym (some-injective _ _ e)) (generate_next_arrival-IsTimed s.emulator v)
    dispatch-IsTimed side_a (from_layer3 p) s t v e =
        rw (sym (some-injective _ _ e)) (perform_all-IsTimed side_a _ s.emulator v)
    dispatch-IsTimed side_b (from_layer3 p) s t v e =
        rw (sym (some-injective _ _ e)) (perform_all-IsTimed side_b _ s.emulator v)
    dispatch-IsTimed side_a (timer_interrupt n) s t v e =
        rw (sym (some-injective _ _ e)) (perform_all-IsTimed side_a _ s.emulator v)
    dispatch-IsTimed side_b (timer_interrupt n) s t v e = rw (sym (some-injective _ _ e)) (v, refl)

    run_first-IsTimed :
        (s t : Simulation Time protocol) (evlist : List (Event Time))
        → IsTimed (record s.emulator { evlist = evlist })
        → run_first later plus rtt delay gap pattern nsimmax protocol s evlist ≡ some t
        → IsTimed t.emulator × (later t.emulator.clock s.emulator.clock ≡ true)
    unfolding run_first
    run_first-IsTimed s t [] v e = cc
    run_first-IsTimed s t (q ∷ evlist) v e =
        let u : Simulation Time protocol = record s {
          emulator = record s.emulator { evlist = evlist; clock = q.evtime };
        } in
        let (h, k) =
          dispatch-IsTimed q.eventity q.evtype u t
            (record { sorted = v.sorted.1; coming = v.sorted.0 }) e in
        (h, ap (λ c. later c s.emulator.clock) k ∙ v.coming.0)

    -- With a total and transitive order of times and delays that are not negative, a round of the main
    -- loop that finds the event list in order of time, with no event before the clock, leaves it so,
    -- and the clock does not go back.
    pub round_in_time :
        (s t : Simulation Time protocol)
        → IsTimed s.emulator
        → round later plus rtt delay gap pattern nsimmax protocol s ≡ some t
        → IsTimed t.emulator × (later t.emulator.clock s.emulator.clock ≡ true)
    unfolding round
    round_in_time s t v e =
        run_first-IsTimed s t s.emulator.evlist (record { sorted = v.sorted; coming = v.coming }) e
