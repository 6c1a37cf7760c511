-- ===== src/Transport/GoBackN/Log.antt =====
-- The logs only grow: what each operation adds to its side's calls.
use computer_network_lab.Prelude.{
  ℕ, zero, suc, ◌+◌, ◌-◌, ◌%◌, ◌≡◌, refl, not, ◌&&◌, Bool-cases, inl, inr, [], ◌∷◌, ◌++◌,
  append_assoc, ltb, leb, ◌==◌, Bytes,
}
use computer_network_lab.Transport.Packet.{
  ℤ, pos, negsuc, Pkt, check_corrupted, make_packet, make_ack, pred, Call, to_layer3, to_layer5,
  start_timer, stop_timer,
}
use computer_network_lab.Transport.Protocol.{Extends, same_log, then_log}
use computer_network_lab.Transport.Sides.{Sender, call, keep_message, take_message}
use computer_network_lab.Transport.GoBackN.{
  Receiver, time_packet, put_packet, a_output, slide, drain, restart, advance, take_ack, a_input,
  resend, a_timeout, accept, acknowledge, b_input,
}

call_log : (c : Call) (s : Sender) → Extends s.calls (call c s).calls
unfolding call
call_log c s = (c ∷ [], refl)

time_packet_log : (s : Sender) → Extends s.calls (time_packet s).calls
unfolding time_packet call
time_packet_log s = elim (Bool-cases (s.next_seqnum == s.base + 1)) [
  | inl e ↦ rw e (start_timer s.base ∷ [], refl)
  | inr e ↦ rw e (same_log s.calls)
]

restart_log : (s : Sender) → Extends s.calls (restart s).calls
unfolding restart
restart_log s = elim (Bool-cases (ltb s.base s.next_seqnum)) [
  | inl e ↦ rw e (call_log (start_timer s.base) s)
  | inr e ↦ rw e (same_log s.calls)
]

module _ (window_size : ℕ) where
  pub a_output_log :
      (message : Bytes) (s : Sender) → Extends s.calls (a_output window_size message s).calls
  unfolding a_output put_packet keep_message
  a_output_log message s = elim (Bool-cases (ltb s.next_seqnum (s.base + window_size))) [
    | inl e ↦ rw e (
        then_log s.calls (put_packet window_size message s).calls _
          (to_layer3 (make_packet s.next_seqnum message) ∷ [], refl)
          (time_packet_log (put_packet window_size message s)))
    | inr e ↦ rw e (same_log s.calls)
  ]

  slide_log : (fuel : ℕ) (s : Sender) → (slide window_size fuel s).calls ≡ s.calls
  unfolding slide
  slide_log zero s = refl
  slide_log (suc fuel) s =
      elim (Bool-cases (not (s.winfront == s.winrear) && ltb (s.winbuf s.winfront).seqnum s.base)) [
        | inl e ↦ rw e (slide_log fuel _)
        | inr e ↦ rw e refl
      ]

  drain_log : (fuel : ℕ) (s : Sender) → Extends s.calls (drain window_size fuel s).calls
  unfolding drain take_message
  drain_log zero s = same_log s.calls
  drain_log (suc fuel) s =
      elim (Bool-cases (ltb 0 s.msg_num && ltb s.next_seqnum (s.base + window_size))) [
        | inl e ↦
            let t = a_output window_size (s.buffer s.buffront) (take_message s) in
            rw e (
              then_log s.calls t.calls _ (a_output_log (s.buffer s.buffront) (take_message s))
                (drain_log fuel t))
        | inr e ↦ rw e (same_log s.calls)
      ]

  advance_log : (acknum : ℕ) (s : Sender) → Extends s.calls (advance window_size acknum s).calls
  unfolding advance call
  advance_log acknum s =
      let t = record s {
        base = acknum + 1;
        packet_correct = s.packet_correct + (acknum - s.base + 1);
        calls = s.calls ++ stop_timer s.base ∷ [];
      } in
      let u = slide window_size window_size t in
      then_log s.calls u.calls _ (stop_timer s.base ∷ [], slide_log window_size t)
        (then_log u.calls (restart u).calls _ (restart_log u) (drain_log window_size (restart u)))

  pub a_input_log : (p : Pkt) (s : Sender) → Extends s.calls (a_input window_size p s).calls
  unfolding a_input take_ack
  a_input_log p s = elim (Bool-cases (check_corrupted p)) [
    | inl e ↦ rw e (same_log s.calls)
    | inr e ↦ rw e (of_ack p.acknum)
  ]
    where
      of_ack : (n : ℤ) → Extends s.calls (take_ack window_size n s).calls
      of_ack (negsuc n) = same_log s.calls
      of_ack (pos zero) = same_log s.calls
      of_ack (pos (suc n)) = elim (Bool-cases (leb s.base (suc n) && ltb (suc n) s.next_seqnum)) [
        | inl e ↦ rw e (advance_log (suc n) s)
        | inr e ↦ rw e (same_log s.calls)
      ]

  resend_log : (count i : ℕ) (s : Sender) → Extends s.calls (resend window_size count i s).calls
  unfolding resend
  resend_log zero i s = same_log s.calls
  resend_log (suc count) i s =
      let c = to_layer3 (s.winbuf ((s.winfront + i) % window_size)) in
      then_log s.calls (s.calls ++ c ∷ []) _ (c ∷ [], refl) (resend_log count (i + 1) _)

  pub a_timeout_log : (n : ℕ) (s : Sender) → Extends s.calls (a_timeout window_size n s).calls
  unfolding a_timeout call
  a_timeout_log n s = elim (Bool-cases (n == s.base)) [
    | inl e ↦
        let t = resend window_size (s.next_seqnum - s.base) 0 s in
        rw e (
          then_log s.calls t.calls _ (resend_log (s.next_seqnum - s.base) 0 s)
            (start_timer s.base ∷ [], refl))
    | inr e ↦ rw e (same_log s.calls)
  ]

pub b_input_log : (p : Pkt) (r : Receiver) → Extends r.calls (b_input p r).calls
unfolding b_input accept acknowledge
b_input_log p r = elim (Bool-cases (check_corrupted p)) [
  | inl e ↦ rw e (same_log r.calls)
  | inr e ↦ rw e (elim (Bool-cases (p.seqnum == r.expected_seqnum)) [
    | inl k ↦ rw k (
      to_layer5 p.payload ∷ to_layer3 (make_ack (pred (r.expected_seqnum + 1))) ∷ [],
      append_assoc r.calls _ _,
    )
    | inr k ↦ rw k (to_layer3 (make_ack (pred r.expected_seqnum)) ∷ [], refl)
  ])
]
