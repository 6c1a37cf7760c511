-- ===== src/Transport/GoBackN/Slide.antt =====
-- The sender's window when it slides, and when it is sent again.
use computer_network_lab.Prelude.{
  ℕ, zero, suc, ◌+◌, ◌-◌, ◌%◌, ◌≤◌, ◌<◌, ◌≡◌, refl, sym, ap, ◌∙◌, true, false, not, ◌&&◌,
  Bool-cases, inl, inr, List, [], ◌∷◌, arith, ltb, ltb→lt, ◌==◌, Bytes, All, All-append,
}
use native.Mathlib.Nat.{mod-lt, mod-eq_of_lt}
use computer_network_lab.Transport.Sides.{Sender, call}
use computer_network_lab.Transport.Messages.{IsGenuine, IsGenuineCall}
use computer_network_lab.Transport.Packet.{Call, to_layer3, start_timer}
use computer_network_lab.Transport.GoBackN.{slide, resend, restart}
use computer_network_lab.Transport.GoBackN.Window.{IsWindow}

module _ (window_size : ℕ) (accepted : List Bytes) where
  -- `slide` moves the front of the window and counts; everything else stays.
  pub slide_frame :
      (fuel : ℕ) (s : Sender)
      → s.winfront < window_size
      → (f : ℕ) × (n : ℕ) × (f < window_size)
        × (slide window_size fuel s ≡ record s { winfront = f; pktnum = n })
  unfolding slide
  slide_frame zero s front = (s.winfront, s.pktnum, front, refl)
  slide_frame (suc fuel) s front =
      elim (Bool-cases (not (s.winfront == s.winrear) && ltb (s.winbuf s.winfront).seqnum s.base)) [
        | inl e ↦ rw e (slide_frame fuel _ (mod-lt (s.winfront + 1) (omega arith)))
        | inr e ↦ (s.winfront, s.pktnum, front, rw e refl)
      ]

  -- Before the window has been full, `slide` ends with its front at `base`.
  slide_front :
      (fuel : ℕ) (s : Sender)
      → s.next_seqnum < window_size
      → s.base ≤ s.next_seqnum
      → s.winrear ≡ s.next_seqnum
      → ((i : ℕ) → i < s.next_seqnum → (s.winbuf i).seqnum ≡ i)
      → s.winfront ≤ s.base
      → s.base ≤ s.winfront + fuel
      → (slide window_size fuel s).winfront ≡ s.base
  unfolding slide
  slide_front zero s few low rear numbers behind enough = omega arith
  slide_front (suc fuel) s few low rear numbers behind enough =
      elim (Bool-cases (ltb s.winfront s.base)) [
        | inl e ↦
            let here : s.winfront < s.base = ltb→lt _ _ e in
            let passes : (not (s.winfront == s.winrear) && ltb (s.winbuf s.winfront).seqnum s.base)
                ≡ true =
              ground (arith, numbers s.winfront (omega arith)) in
            let moved : (s.winfront + 1) % window_size ≡ s.winfront + 1 =
              mod-eq_of_lt (omega arith) in
            rw passes (
              slide_front fuel _ few low rear numbers (omega (arith, moved)) (omega (arith, moved)))
        | inr e ↦
            let here : s.winfront ≡ s.base = ground arith in
            let stays : (not (s.winfront == s.winrear) && ltb (s.winbuf s.winfront).seqnum s.base)
                ≡ false =
              ground (arith, numbers s.winfront) in
            rw stays here
      ]

  -- An acknowledgement up to `ack - 1`: the base moves on, and the window slides.
  pub slide-IsWindow :
      (s : Sender) (ack : ℕ) (correct : ℕ) (calls : List Call)
      → IsWindow window_size accepted s
      → s.base < ack
      → ack ≤ s.next_seqnum
      → All (IsGenuineCall accepted s.next_seqnum) calls
      → IsWindow window_size accepted (
          slide window_size window_size
            (record s { base = ack; packet_correct = correct; calls = calls }))
  slide-IsWindow s ack correct calls w more within known =
      let t = record s { base = ack; packet_correct = correct; calls = calls } in
      let (f, n, inside, e) = slide_frame window_size t w.front in
      let front : s.next_seqnum < window_size → f ≡ ack = (λ few.
        sym (ap (λ (x : Sender). x.winfront) e)
        ∙ slide_front window_size t few within (w.rear_next few)
            (λ i h. w.numbers i h (omega arith)) (omega (arith, w.front_base few))
            (omega (arith, w.high))) in
      rw e (record {
        genuine = known;
        slots = w.slots;
        numbers = w.numbers;
        sound = w.sound;
        front = inside;
        rear = w.rear;
        rear_next = w.rear_next;
        front_base = front;
        low = within;
        high = omega (arith, w.high);
      })

  -- A call that sends nothing changes nothing of the window.
  call-IsWindow :
      (c : Call) (s : Sender)
      → IsGenuineCall accepted s.next_seqnum c
      → IsWindow window_size accepted s
      → IsWindow window_size accepted (call c s)
  unfolding call
  call-IsWindow c s known w = record {
    genuine = All-append _ s.calls (c ∷ []) w.genuine (known, tt);
    slots = w.slots;
    numbers = w.numbers;
    sound = w.sound;
    front = w.front;
    rear = w.rear;
    rear_next = w.rear_next;
    front_base = w.front_base;
    low = w.low;
    high = w.high;
  }

  pub restart-IsWindow :
      (s : Sender) → IsWindow window_size accepted s → IsWindow window_size accepted (restart s)
  unfolding restart
  restart-IsWindow s w = elim (Bool-cases (ltb s.base s.next_seqnum)) [
    | inl e ↦ rw e (call-IsWindow (start_timer s.base) s tt w)
    | inr e ↦ rw e w
  ]

  -- The place that is sent again holds a packet that was sent.
  resend_place :
      (s : Sender) (i : ℕ)
      → 0 < window_size
      → IsWindow window_size accepted s
      → i < s.next_seqnum - s.base
      → IsGenuine accepted s.next_seqnum (s.winbuf ((s.winfront + i) % window_size))
  resend_place s i positive w h =
      let place = mod-lt (s.winfront + i) positive in
      elim (Bool-cases (ltb s.next_seqnum window_size)) [
        | inl e ↦
            let few : s.next_seqnum < window_size = ltb→lt _ _ e in
            let same : (s.winfront + i) % window_size ≡ s.winfront + i =
              mod-eq_of_lt (omega (arith, w.front_base few)) in
            w.slots _ place (omega (arith, same, w.front_base few))
        | inr e ↦
            let many : window_size ≤ s.next_seqnum = ground arith in
            w.slots _ place (omega (arith, place))
      ]

  pub resend-IsWindow :
      (count i : ℕ) (s : Sender)
      → 0 < window_size
      → IsWindow window_size accepted s
      → i + count ≤ s.next_seqnum - s.base
      → IsWindow window_size accepted (resend window_size count i s)
  unfolding resend
  resend-IsWindow zero i s positive w h = w
  resend-IsWindow (suc count) i s positive w h =
      resend-IsWindow count (i + 1) _ positive
        (record {
          genuine =
              All-append _ s.calls (to_layer3 _ ∷ []) w.genuine
                (resend_place s i positive w (omega arith), tt);
          slots = w.slots;
          numbers = w.numbers;
          sound = w.sound;
          front = w.front;
          rear = w.rear;
          rear_next = w.rear_next;
          front_base = w.front_base;
          low = w.low;
          high = w.high;
        })
        (omega arith)
