-- ===== src/Transport/Emulator/EventList.antt =====
-- The event list: what `insertevent` and `stoptime_r` keep of it.
use computer_network_lab.Prelude.{
  ℕ, ◌+◌, ◌≡◌, refl, Bool, true, Bool-cases, inl, inr, List, [], ◌∷◌, arith, All,
}
use computer_network_lab.Transport.Emulator.{
  Side, Kind, timer_interrupt, from_layer5, from_layer3, Event, is_timer, remove_timer, insertevent,
}

module _ {Time : Type 0} (later : Time → Time → Bool) where
  -- A property of all events of the list and of the new one is one of all events afterwards.
  pub insertevent-All :
      (P : Event Time → Type 0) (p : Event Time) (evlist : List (Event Time))
      → P p
      → All P evlist
      → All P (insertevent later p evlist)
  unfolding insertevent
  insertevent-All P p [] h k = (h, tt)
  insertevent-All P p (q ∷ evlist) h (j, k) = elim (Bool-cases (later p.evtime q.evtime)) [
    | inl e ↦ rw e (j, insertevent-All P p evlist h k)
    | inr e ↦ rw e (h, (j, k))
  ]

module _ {Time : Type 0} where
  pub remove_timer-All :
      (P : Event Time → Type 0) (side : Side) (n : ℕ) (evlist : List (Event Time))
      → All P evlist
      → All P (remove_timer side n evlist)
  unfolding remove_timer
  remove_timer-All P side n [] k = tt
  remove_timer-All P side n (q ∷ evlist) (j, k) = elim (Bool-cases (is_timer side n q)) [
    | inl e ↦ rw e k
    | inr e ↦ rw e (j, remove_timer-All P side n evlist k)
  ]

-- The messages still to come.
abbrev pub arrival : Kind → ℕ
arrival from_layer5 = 1
arrival (timer_interrupt n) = 0
arrival (from_layer3 p) = 0

abbrev pub arrivals : {Time : Type 0} → List (Event Time) → ℕ
arrivals [] = 0
arrivals (q ∷ evlist) = arrival q.evtype + arrivals evlist

module _ {Time : Type 0} where
  pub arrivals-insertevent :
      (later : Time → Time → Bool) (p : Event Time) (evlist : List (Event Time))
      → arrivals (insertevent later p evlist) ≡ arrival p.evtype + arrivals evlist
  unfolding insertevent
  arrivals-insertevent later p [] = refl
  arrivals-insertevent later p (q ∷ evlist) = elim (Bool-cases (later p.evtime q.evtime)) [
    | inl e ↦ rw e (omega (arith, arrivals-insertevent later p evlist))
    | inr e ↦ rw e refl
  ]

  -- A timer is no message.
  timer_arrival :
      (side : Side) (n : ℕ) (q : Event Time) → is_timer side n q ≡ true → arrival q.evtype ≡ 0
  unfolding is_timer
  timer_arrival side n q h = of_kind q.evtype h
    where
      of_kind : (k : Kind) → is_timer side n (record q { evtype = k }) ≡ true → arrival k ≡ 0
      of_kind (timer_interrupt m) h = refl
      of_kind from_layer5 h = cc
      of_kind (from_layer3 p) h = refl

  pub arrivals-remove_timer :
      (side : Side) (n : ℕ) (evlist : List (Event Time))
      → arrivals (remove_timer side n evlist) ≡ arrivals evlist
  unfolding remove_timer
  arrivals-remove_timer side n [] = refl
  arrivals-remove_timer side n (q ∷ evlist) = elim (Bool-cases (is_timer side n q)) [
    | inl e ↦ rw e (omega (arith, timer_arrival side n q e))
    | inr e ↦ rw e (omega (arith, arrivals-remove_timer side n evlist))
  ]
