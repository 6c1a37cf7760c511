-- ===== src/Transport/GoBackN/Input.antt =====
-- What the sender does with an acknowledgement and with a timer that goes off: it stays a sender whose
-- window and buffer are in order.
use computer_network_lab.Prelude.{
  ℕ, zero, suc, ◌+◌, ◌-◌, ◌≤◌, ◌<◌, ◌≡◌, refl, ap, ◌∙◌, false, ◌&&◌, Bool-cases, inl, inr, List, [],
  ◌∷◌, ◌++◌, arith, ltb, leb, ◌==◌, Bytes, All-append,
}
use computer_network_lab.Transport.Sides.{Sender, call}
use computer_network_lab.Transport.Messages.{IsQueue}
use computer_network_lab.Transport.Packet.{
  ℤ, pos, negsuc, Pkt, check_corrupted, Call, start_timer, stop_timer,
}
use computer_network_lab.Transport.GoBackN.{
  drain, take_ack, advance, a_input, slide, restart, resend, a_timeout,
}
use computer_network_lab.Transport.GoBackN.Window.{IsWindow}
use computer_network_lab.Transport.GoBackN.Slide.{
  slide-IsWindow, slide_frame, restart-IsWindow, resend-IsWindow,
}
use computer_network_lab.Transport.GoBackN.Queue.{IsSender, refill}

module _ (window_size : ℕ) (positive : 0 < window_size) (accepted : List Bytes) where
  -- The loop that sends waiting messages ends with the buffer empty or the window full.
  drain-IsSender :
      (fuel : ℕ) (s : Sender)
      → IsWindow window_size accepted s
      → IsQueue accepted s
      → s.base + window_size ≤ s.next_seqnum + fuel
      → IsSender window_size accepted (drain window_size fuel s)
        × ((drain window_size fuel s).base ≡ s.base)
        × (s.next_seqnum ≤ (drain window_size fuel s).next_seqnum)
  unfolding drain
  drain-IsSender zero s w q enough =
      (record { window = w; queue = q; full = λ h. omega (arith, w.high) }, refl, omega arith)
  drain-IsSender (suc fuel) s w q enough =
      elim (Bool-cases (ltb 0 s.msg_num && ltb s.next_seqnum (s.base + window_size))) [
        | inl e ↦
            let (v, r, n, b) =
              refill window_size positive accepted s w q (ground arith) (ground arith) in
            let (h, k, m) = drain-IsSender fuel _ v r (omega (arith, n, b)) in
            rw e (h, k ∙ b, omega (arith, m, n))
        | inr e ↦ rw e (
          record { window = w; queue = q; full = λ h. ground (arith, w.high) },
          refl,
          omega arith,
        )
      ]

  -- What `restart` leaves alone.
  restart_frame : (s : Sender) → (c : List Call) × (restart s ≡ record s { calls = c })
  unfolding restart call
  restart_frame s = elim (Bool-cases (ltb s.base s.next_seqnum)) [
    | inl e ↦ (s.calls ++ start_timer s.base ∷ [], rw e refl)
    | inr e ↦ (s.calls, rw e refl)
  ]

  -- The state in which `advance` sends the waiting messages.
  advance_slid :
      (acknum : ℕ) (s : Sender)
      → IsSender window_size accepted s
      → s.base ≤ acknum
      → acknum < s.next_seqnum
      → let t = restart (
          slide window_size window_size (record s {
            base = acknum + 1;
            packet_correct = s.packet_correct + (acknum - s.base + 1);
            calls = s.calls ++ stop_timer s.base ∷ [];
          })) in
        IsWindow window_size accepted t
        × IsQueue accepted t
        × (t.base ≡ acknum + 1)
        × (t.next_seqnum ≡ s.next_seqnum)
  advance_slid acknum s v low high =
      let u = record s {
        base = acknum + 1;
        packet_correct = s.packet_correct + (acknum - s.base + 1);
        calls = s.calls ++ stop_timer s.base ∷ [];
      } in
      let (f, n, inside, e) = slide_frame window_size accepted window_size u v.window.front in
      let (c, g) = restart_frame (slide window_size window_size u) in
      let w = restart-IsWindow window_size accepted _ (
        slide-IsWindow window_size accepted s (acknum + 1) _ _ v.window (omega arith) (omega arith)
          (All-append _ s.calls (stop_timer s.base ∷ []) v.window.genuine (tt, tt))) in
      let same = g ∙ ap (λ (x : Sender). record x { calls = c }) e in
      let q = v.queue in
      let queue : IsQueue accepted (restart (slide window_size window_size u)) = rw same (record {
        count = q.count;
        fits = q.fits;
        front = q.front;
        rear = q.rear;
        waiting = q.waiting;
      }) in
      (w, queue, rw same refl, rw same refl)

  pub advance-IsSender :
      (acknum : ℕ) (s : Sender)
      → IsSender window_size accepted s
      → s.base ≤ acknum
      → acknum < s.next_seqnum
      → IsSender window_size accepted (advance window_size acknum s)
        × ((advance window_size acknum s).base ≡ acknum + 1)
        × (s.next_seqnum ≤ (advance window_size acknum s).next_seqnum)
  unfolding advance call
  advance-IsSender acknum s v low high =
      let (w, q, b, n) = advance_slid acknum s v low high in
      let (h, k, m) = drain-IsSender window_size _ w q (omega (arith, b, n, v.window.high)) in
      (h, k ∙ b, omega (arith, m, n))

  take_ack-IsSender :
      (acknum : ℤ) (bound : ℕ) (s : Sender)
      → IsSender window_size accepted s
      → s.base ≤ bound
      → ((n : ℕ) → acknum ≡ pos n → n < bound)
      → let t = take_ack window_size acknum s in
        IsSender window_size accepted t × (t.base ≤ bound) × (s.next_seqnum ≤ t.next_seqnum)
  unfolding take_ack
  take_ack-IsSender (negsuc n) bound s v low known = (v, low, omega arith)
  take_ack-IsSender (pos zero) bound s v low known = (v, low, omega arith)
  take_ack-IsSender (pos (suc n)) bound s v low known =
      elim (Bool-cases (leb s.base (suc n) && ltb (suc n) s.next_seqnum)) [
        | inl e ↦
            let (h, b, m) = advance-IsSender (suc n) s v (ground arith) (ground arith) in
            rw e (h, omega (arith, b, known (suc n) refl), m)
        | inr e ↦ rw e (v, low, omega arith)
      ]

  -- A packet that arrives at A leaves a sender, whose base stays below a bound on what the packet
  -- acknowledges, and takes back nothing that was sent.
  pub a_input-IsSender :
      (packet : Pkt) (bound : ℕ) (s : Sender)
      → IsSender window_size accepted s
      → s.base ≤ bound
      → (check_corrupted packet ≡ false → (n : ℕ) → packet.acknum ≡ pos n → n < bound)
      → let t = a_input window_size packet s in
        IsSender window_size accepted t × (t.base ≤ bound) × (s.next_seqnum ≤ t.next_seqnum)
  unfolding a_input
  a_input-IsSender packet bound s v low known = elim (Bool-cases (check_corrupted packet)) [
    | inl e ↦ rw e (v, low, omega arith)
    | inr e ↦ rw e (take_ack-IsSender packet.acknum bound s v low (known e))
  ]

  -- What sending the window again leaves alone.
  resend_frame :
      (count i : ℕ) (s : Sender)
      → (sent : ℕ) × (again : ℕ) × (c : List Call) × (resend window_size count i s
          ≡ record s { packet_sent = sent; packet_resent = again; calls = c })
  unfolding resend
  resend_frame zero i s = (s.packet_sent, s.packet_resent, s.calls, refl)
  resend_frame (suc count) i s = resend_frame count (i + 1) _

  resend-IsSender :
      (s : Sender)
      → IsSender window_size accepted s
      → IsSender window_size accepted (resend window_size (s.next_seqnum - s.base) 0 s)
  resend-IsSender s v =
      let (sent, again, c, e) = resend_frame (s.next_seqnum - s.base) 0 s in
      let q = v.queue in
      record {
        window =
            resend-IsWindow window_size accepted (s.next_seqnum - s.base) 0 s positive v.window
              (omega arith);
        queue = rw e (record {
          count = q.count;
          fits = q.fits;
          front = q.front;
          rear = q.rear;
          waiting = q.waiting;
        });
        full = rw e v.full;
      }

  timer-IsSender :
      (timed : ℕ) (s : Sender) (count : ℕ)
      → IsSender window_size accepted s
      → IsSender window_size accepted
          (record s { packet_time_out = count; calls = s.calls ++ start_timer timed ∷ [] })
  timer-IsSender timed s count v =
      let w = v.window in
      let q = v.queue in
      record {
        window = record {
          genuine = All-append _ s.calls (start_timer timed ∷ []) w.genuine (tt, tt);
          slots = w.slots;
          numbers = w.numbers;
          sound = w.sound;
          front = w.front;
          rear = w.rear;
          rear_next = w.rear_next;
          front_base = w.front_base;
          low = w.low;
          high = w.high;
        };
        queue = record {
          count = q.count;
          fits = q.fits;
          front = q.front;
          rear = q.rear;
          waiting = q.waiting;
        };
        full = v.full;
      }

  -- A timer that goes off leaves a sender with the same base and the same numbers.
  pub a_timeout-IsSender :
      (pkt_seq : ℕ) (s : Sender)
      → IsSender window_size accepted s
      → let t = a_timeout window_size pkt_seq s in
        IsSender window_size accepted t × (t.base ≡ s.base) × (t.next_seqnum ≡ s.next_seqnum)
  unfolding a_timeout call
  a_timeout-IsSender pkt_seq s v =
      let (sent, again, c, e) = resend_frame (s.next_seqnum - s.base) 0 s in
      elim (Bool-cases (pkt_seq == s.base)) [
        | inl k ↦ rw k (timer-IsSender s.base _ _ (resend-IsSender s v), rw e refl, rw e refl)
        | inr k ↦ rw k (v, refl, refl)
      ]
