-- ===== src/Transport/SelectiveRepeat/Input.antt =====
-- What the selective-repeat sender does with an acknowledgement and a timer: it stays a sender whose
-- window and buffer are in order.
use computer_network_lab.Prelude.{
  ℕ, zero, suc, ◌+◌, ◌≤◌, ◌<◌, ◌≡◌, refl, sym, ap, ◌&&◌, ◌||◌, Bool-cases, inl, inr, Option, none,
  some, List, [], ◌∷◌, ◌++◌, arith, ltb, leb, ◌==◌, Bytes, All, append-nil,
}
use computer_network_lab.Transport.Packet.{
  ℤ, pos, negsuc, Pkt, check_corrupted, Call, to_layer3, start_timer, stop_timer,
}
use computer_network_lab.Transport.Sides.{Sender, call, take_message}
use computer_network_lab.Transport.Messages.{
  IsGenuine, IsGenuineCall, IsQueue, first_waiting, take_message-IsQueue,
}
use computer_network_lab.Transport.SelectiveRepeat.{
  is_number, send_new, find, slide, drain, mark, take_ack, a_input, resend, a_timeout,
}
use computer_network_lab.Transport.SelectiveRepeat.Window.{
  IsWindow, send_new-IsWindow, slide_once, mark_place-IsWindow, calls-IsWindow, find-held,
}
use computer_network_lab.Transport.SelectiveRepeat.Output.{IsSender}

module _ (window_size : ℕ) (accepted : List Bytes) where
  slide-IsSender :
      (fuel : ℕ) (s : Sender)
      → IsWindow window_size accepted s
      → IsQueue accepted s
      → let t = slide window_size fuel s in
        IsWindow window_size accepted t × IsQueue accepted t × (t.next_seqnum ≡ s.next_seqnum)
  unfolding slide
  slide-IsSender zero s w q = (w, q, refl)
  slide-IsSender (suc fuel) s w q =
      elim (Bool-cases (
        ltb 0 s.pktnum
        && is_number 1 (s.winbuf s.winfront).acknum
        && (s.winbuf s.winfront).seqnum == s.base)) [
          | inl e ↦ rw e (
              slide-IsSender fuel _ (slide_once window_size accepted s _ w (ground arith)) (record {
                count = q.count;
                fits = q.fits;
                front = q.front;
                rear = q.rear;
                waiting = q.waiting;
              }))
          | inr e ↦ rw e (w, q, refl)
        ]

  -- A waiting message moves into the window.
  refill :
      (s : Sender)
      → IsWindow window_size accepted s
      → IsQueue accepted s
      → 0 < s.msg_num
      → s.next_seqnum < s.base + window_size
      → let t = send_new window_size (s.buffer s.buffront) (take_message s) in
        IsWindow window_size accepted t × IsQueue accepted t
  unfolding send_new take_message
  refill s w q some_wait room =
      let k = take_message-IsQueue accepted s q some_wait in
      let taken : IsWindow window_size accepted (take_message s) = record {
        genuine = w.genuine;
        held = w.held;
        front = w.front;
        rear = w.rear;
        count = w.count;
        high = w.high;
      } in
      (
        send_new-IsWindow window_size accepted (s.buffer s.buffront) (take_message s) taken room
            (first_waiting accepted s q some_wait),
        record {
          count = k.count;
          fits = k.fits;
          front = k.front;
          rear = k.rear;
          waiting = k.waiting;
        },
      )

  -- The loop that sends waiting messages ends with the buffer empty or the window full.
  drain-IsSender :
      (fuel : ℕ) (s : Sender)
      → IsWindow window_size accepted s
      → IsQueue accepted s
      → s.base + window_size ≤ s.next_seqnum + fuel
      → IsSender window_size accepted (drain window_size fuel s)
        × (s.next_seqnum ≤ (drain window_size fuel s).next_seqnum)
  unfolding drain send_new take_message
  drain-IsSender zero s w q enough =
      (record { window = w; queue = q; full = λ h. omega (arith, w.high, w.count) }, omega arith)
  drain-IsSender (suc fuel) s w q enough =
      elim (Bool-cases (ltb 0 s.msg_num && ltb s.next_seqnum (s.base + window_size))) [
        | inl e ↦
            let (v, r) = refill s w q (ground arith) (ground arith) in
            let (h, m) = drain-IsSender fuel _ v r (omega arith) in rw e (h, omega (arith, m))
        | inr e ↦ rw e (
          record { window = w; queue = q; full = λ h. ground (arith, w.high, w.count) },
          omega arith,
        )
      ]

  mark-IsSender :
      (acknum : ℕ) (found : Option ℕ) (s : Sender)
      → IsSender window_size accepted s
      → IsSender window_size accepted (mark window_size acknum found s)
        × (s.next_seqnum ≤ (mark window_size acknum found s).next_seqnum)
  unfolding mark call
  mark-IsSender acknum none s v = (v, omega arith)
  mark-IsSender acknum (some place) s v =
      let q = v.queue in
      let t = record s { calls = s.calls ++ stop_timer acknum ∷ [] } in
      let called =
        calls-IsWindow window_size accepted s (stop_timer acknum ∷ []) s.packet_sent s.packet_resent
          s.packet_time_out v.window (tt, tt) in
      let marked = mark_place-IsWindow window_size accepted place t called in
      let (w, r, n) = slide-IsSender s.pktnum _ marked (record {
        count = q.count;
        fits = q.fits;
        front = q.front;
        rear = q.rear;
        waiting = q.waiting;
      }) in
      let (h, m) = drain-IsSender window_size _ w r (omega (arith, w.count)) in
      (h, omega (arith, m, n))

  take_ack-IsSender :
      (acknum : ℤ) (s : Sender)
      → IsSender window_size accepted s
      → IsSender window_size accepted (take_ack window_size acknum s)
        × (s.next_seqnum ≤ (take_ack window_size acknum s).next_seqnum)
  unfolding take_ack
  take_ack-IsSender (negsuc n) s v = (v, omega arith)
  take_ack-IsSender (pos n) s v = elim (Bool-cases (ltb n s.base || leb s.next_seqnum n)) [
    | inl e ↦ rw e (v, omega arith)
    | inr e ↦ rw e (mark-IsSender n (find window_size s.pktnum 0 n s) s v)
  ]

  -- A packet that arrives at A leaves a sender.
  pub a_input-IsSender :
      (packet : Pkt) (s : Sender)
      → IsSender window_size accepted s
      → IsSender window_size accepted (a_input window_size packet s)
        × (s.next_seqnum ≤ (a_input window_size packet s).next_seqnum)
  unfolding a_input
  a_input-IsSender packet s v = elim (Bool-cases (check_corrupted packet)) [
    | inl e ↦ rw e (v, omega arith)
    | inr e ↦ rw e (take_ack-IsSender packet.acknum s v)
  ]

  -- Calls that send genuine packets, and the counters.
  counted-IsSender :
      (s : Sender) (more : List Call) (sent again late : ℕ)
      → IsSender window_size accepted s
      → All (IsGenuineCall accepted s.next_seqnum) more
      → IsSender window_size accepted (record s {
        packet_sent = sent;
        packet_resent = again;
        packet_time_out = late;
        calls = s.calls ++ more;
      })
  counted-IsSender s more sent again late v known =
      let q = v.queue in
      record {
        window = calls-IsWindow window_size accepted s more sent again late v.window known;
        queue = record {
          count = q.count;
          fits = q.fits;
          front = q.front;
          rear = q.rear;
          waiting = q.waiting;
        };
        full = v.full;
      }

  resend-IsSender :
      (pkt_seq : ℕ) (found : Option ℕ) (s : Sender) (late : ℕ)
      → IsSender window_size accepted s
      → ((place : ℕ) → found ≡ some place → IsGenuine accepted s.next_seqnum (s.winbuf place))
      → let t = resend pkt_seq found (record s { packet_time_out = late }) in
        IsSender window_size accepted t × (t.next_seqnum ≡ s.next_seqnum)
  unfolding resend
  resend-IsSender pkt_seq none s late v known =
      let same : record s { packet_time_out = late }
          ≡ record s { packet_time_out = late; calls = s.calls ++ [] } =
        ap (λ c. record s { packet_time_out = late; calls = c }) (sym (append-nil s.calls)) in
      (rw same (counted-IsSender s [] s.packet_sent s.packet_resent late v tt), refl)
  resend-IsSender pkt_seq (some place) s late v known = (
    counted-IsSender s (to_layer3 (s.winbuf place) ∷ start_timer pkt_seq ∷ []) _ _ late v
        (known place refl, (tt, tt)),
    refl,
  )

  -- A timer that goes off leaves a sender.
  pub a_timeout-IsSender :
      (pkt_seq : ℕ) (s : Sender)
      → IsSender window_size accepted s
      → let t = a_timeout window_size pkt_seq s in
        IsSender window_size accepted t × (t.next_seqnum ≡ s.next_seqnum)
  unfolding a_timeout resend
  a_timeout-IsSender pkt_seq s v =
      let t = record s { packet_time_out = s.packet_time_out + 1 } in
      let (u, _) = resend-IsSender pkt_seq none s (s.packet_time_out + 1) v (λ place e. cc) in
      resend-IsSender pkt_seq (find window_size t.pktnum 0 pkt_seq t) s _ v (λ place e.
        find-held window_size accepted t.pktnum 0 pkt_seq t place u.window (omega arith) e)
