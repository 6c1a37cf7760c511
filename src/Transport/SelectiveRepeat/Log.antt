-- ===== src/Transport/SelectiveRepeat/Log.antt =====
-- Selective repeat: the logs only grow.
use computer_network_lab.Prelude.{
  ℕ, zero, suc, ◌+◌, ◌-◌, ◌%◌, ◌≡◌, refl, ◌&&◌, ◌||◌, not, false, Bool-cases, inl, inr, Option,
  none, some, [], ◌∷◌, ◌++◌, ltb, leb, ◌==◌, Bytes, arith,
}
use mathlib.Core.Option.{some-injective}
use computer_network_lab.Transport.Packet.{
  ℤ, pos, negsuc, Pkt, check_corrupted, make_packet, make_ack, to_layer3, to_layer5, start_timer,
  stop_timer, assign,
}
use computer_network_lab.Transport.Protocol.{Extends, same_log, then_log}
use computer_network_lab.Transport.Sides.{Sender, call, keep_message, take_message}
use computer_network_lab.Transport.SelectiveRepeat.{
  Receiver, resend, send_new, a_output, find, slide, drain, mark, take_ack, a_input, a_timeout,
  in_range, hold, deliver, b_input,
}

pub resend_log : (n : ℕ) (place : Option ℕ) (s : Sender) → Extends s.calls (resend n place s).calls
unfolding resend
resend_log n none s = same_log s.calls
resend_log n (some i) s = (to_layer3 (s.winbuf i) ∷ start_timer n ∷ [], refl)

module _ (window_size : ℕ) where
  send_new_log :
      (message : Bytes) (s : Sender) → Extends s.calls (send_new window_size message s).calls
  unfolding send_new
  send_new_log message s =
      (to_layer3 (make_packet s.next_seqnum message) ∷ start_timer s.next_seqnum ∷ [], refl)

  pub a_output_log :
      (message : Bytes) (s t : Sender)
      → a_output window_size message s ≡ some t
      → Extends s.calls t.calls
  unfolding a_output keep_message
  a_output_log message s t e = elim (Bool-cases (ltb s.next_seqnum (s.base + window_size))) [
    | inl k ↦
        let same : send_new window_size message s ≡ t = some-injective _ _ (rw k at e) in
        rw⁻¹ same (send_new_log message s)
    | inr k ↦ elim (Bool-cases (ltb s.msg_num 4999)) [
      | inl j ↦
          let same : keep_message message s ≡ t = some-injective _ _ (rw (k, j) at e) in
          rw⁻¹ same (same_log s.calls)
      | inr j ↦ cc (rw (k, j) at e)
    ]
  ]

  slide_log : (fuel : ℕ) (s : Sender) → (slide window_size fuel s).calls ≡ s.calls
  unfolding slide
  slide_log zero s = refl
  slide_log (suc fuel) s = ground (
    arith,
    slide_log fuel (record s {
      base = s.base + 1;
      winfront = (s.winfront + 1) % window_size;
      pktnum = s.pktnum - 1;
      ack_adv_num = s.ack_adv_num + 1;
    }),
  )

  drain_log : (fuel : ℕ) (s : Sender) → Extends s.calls (drain window_size fuel s).calls
  unfolding drain take_message
  drain_log zero s = same_log s.calls
  drain_log (suc fuel) s =
      elim (Bool-cases (ltb 0 s.msg_num && ltb s.next_seqnum (s.base + window_size))) [
        | inl e ↦
            let t = send_new window_size (s.buffer s.buffront) (take_message s) in
            rw e (
              then_log s.calls t.calls _ (send_new_log (s.buffer s.buffront) (take_message s))
                (drain_log fuel t))
        | inr e ↦ rw e (same_log s.calls)
      ]

  mark_log :
      (n : ℕ) (place : Option ℕ) (s : Sender) → Extends s.calls (mark window_size n place s).calls
  unfolding mark call
  mark_log n none s = same_log s.calls
  mark_log n (some i) s =
      let u = record s {
        calls = s.calls ++ stop_timer n ∷ [];
        winbuf = assign i (record (s.winbuf i) { acknum = pos 1 }) s.winbuf;
      } in
      let v = slide window_size u.pktnum u in
      then_log s.calls v.calls _ (stop_timer n ∷ [], slide_log u.pktnum u) (drain_log window_size v)

  take_ack_log : (n : ℤ) (s : Sender) → Extends s.calls (take_ack window_size n s).calls
  unfolding take_ack
  take_ack_log (negsuc n) s = same_log s.calls
  take_ack_log (pos n) s = elim (Bool-cases (ltb n s.base || leb s.next_seqnum n)) [
    | inl e ↦ rw e (same_log s.calls)
    | inr e ↦ rw e (mark_log n (find window_size s.pktnum 0 n s) s)
  ]

  pub a_input_log : (p : Pkt) (s : Sender) → Extends s.calls (a_input window_size p s).calls
  unfolding a_input
  a_input_log p s = elim (Bool-cases (check_corrupted p)) [
    | inl e ↦ rw e (same_log s.calls)
    | inr e ↦ rw e (take_ack_log p.acknum s)
  ]

  pub a_timeout_log : (n : ℕ) (s : Sender) → Extends s.calls (a_timeout window_size n s).calls
  unfolding a_timeout
  a_timeout_log n s =
      let t = record s { packet_time_out = s.packet_time_out + 1 } in
      resend_log n (find window_size t.pktnum 0 n t) t

  hold_log : (p : Pkt) (r : Receiver) → Extends r.calls (hold window_size p r).calls
  unfolding hold
  hold_log p r =
      let slot = p.seqnum % window_size in
      elim (Bool-cases
        (not (r.recv_marked slot) || not ((r.recv_window slot).seqnum == p.seqnum))) [
          | inl e ↦ rw e (to_layer3 (make_ack (pos p.seqnum)) ∷ [], refl)
          | inr e ↦ rw e (same_log r.calls)
        ]

  deliver_log : (fuel : ℕ) (r : Receiver) → Extends r.calls (deliver window_size fuel r).calls
  unfolding deliver
  deliver_log zero r = same_log r.calls
  deliver_log (suc fuel) r =
      let slot = r.expected_seq % window_size in
      elim (Bool-cases (r.recv_marked slot && (r.recv_window slot).seqnum == r.expected_seq)) [
        | inl e ↦
            let t = record r {
              expected_seq = r.expected_seq + 1;
              recv_marked = assign slot false r.recv_marked;
              packet_receieve = r.packet_receieve + 1;
              calls = r.calls ++ to_layer5 (r.recv_window slot).payload ∷ [];
            } in
            rw e (
              then_log r.calls t.calls _ (to_layer5 (r.recv_window slot).payload ∷ [], refl)
                (deliver_log fuel t))
        | inr e ↦ rw e (same_log r.calls)
      ]

  pub b_input_log : (p : Pkt) (r : Receiver) → Extends r.calls (b_input window_size p r).calls
  unfolding b_input
  b_input_log p r = elim (Bool-cases (check_corrupted p)) [
    | inl e ↦ rw e (same_log r.calls)
    | inr e ↦ elim (Bool-cases (in_range window_size p.seqnum r.expected_seq)) [
      | inl k ↦
          rw (e, k)
            (then_log r.calls (hold window_size p r).calls _ (hold_log p r)
              (deliver_log window_size (hold window_size p r)))
      | inr k ↦ rw (e, k) (to_layer3 (make_ack (pos p.seqnum)) ∷ [], refl)
    ]
  ]
