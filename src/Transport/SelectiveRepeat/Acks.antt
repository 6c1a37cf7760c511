-- ===== src/Transport/SelectiveRepeat/Acks.antt =====
-- Selective repeat: B acknowledges packets that A has sent.
use computer_network_lab.Prelude.{
  ℕ, zero, suc, ◌+◌, ◌%◌, ◌<◌, ◌≡◌, refl, ◌&&◌, ◌||◌, not, false, Bool-cases, inl, inr, List, [],
  ◌∷◌, ◌++◌, ◌==◌, Bytes, arith, All, All-append,
}
use computer_network_lab.Transport.Packet.{
  pos, pred, Pkt, check_corrupted, make_ack, Call, to_layer3, to_layer5, assign,
}
use computer_network_lab.Transport.Messages.{All-Mem}
use computer_network_lab.Transport.GoBackN.Delivery.{IsAckCall, acks_more}
use computer_network_lab.Transport.SelectiveRepeat.{Receiver, in_range, hold, deliver, b_input}
use computer_network_lab.Transport.SelectiveRepeat.System.{System, start, Step, Reach}
use computer_network_lab.Transport.SelectiveRepeat.Output.{a_output-IsSender}
use computer_network_lab.Transport.SelectiveRepeat.Input.{a_input-IsSender, a_timeout-IsSender}
use computer_network_lab.Transport.SelectiveRepeat.Safety.{reached_system}

-- All acknowledgements are for packets below this one.
abbrev pub IsAcks : ℕ → List Call → Type 0
IsAcks next calls = All (IsAckCall next) calls

one_ack :
    (next : ℕ) (p : Pkt) (calls : List Call)
    → p.seqnum < next
    → IsAcks next calls
    → IsAcks next (calls ++ to_layer3 (make_ack (pos p.seqnum)) ∷ [])
unfolding pred
one_ack next p calls low v = All-append _ calls _ v ((suc p.seqnum, omega arith, refl), tt)

module _ (window_size next : ℕ) where
  hold-IsAcks :
      (p : Pkt) (r : Receiver)
      → p.seqnum < next
      → IsAcks next r.calls
      → IsAcks next (hold window_size p r).calls
  unfolding hold
  hold-IsAcks p r low v =
      let slot = p.seqnum % window_size in
      elim (Bool-cases
        (not (r.recv_marked slot) || not ((r.recv_window slot).seqnum == p.seqnum))) [
          | inl e ↦ rw e (one_ack next p r.calls low v)
          | inr e ↦ rw e v
        ]

  deliver-IsAcks :
      (fuel : ℕ) (r : Receiver)
      → IsAcks next r.calls
      → IsAcks next (deliver window_size fuel r).calls
  unfolding deliver
  deliver-IsAcks zero r v = v
  deliver-IsAcks (suc fuel) r v =
      let slot = r.expected_seq % window_size in
      elim (Bool-cases (r.recv_marked slot && (r.recv_window slot).seqnum == r.expected_seq)) [
        | inl e ↦ rw e (
            deliver-IsAcks fuel
              (record r {
                expected_seq = r.expected_seq + 1;
                recv_marked = assign slot false r.recv_marked;
                packet_receieve = r.packet_receieve + 1;
                calls = r.calls ++ to_layer5 (r.recv_window slot).payload ∷ [];
              })
              (All-append _ r.calls _ v (tt, tt)))
        | inr e ↦ rw e v
      ]

  b_input-IsAcks :
      (p : Pkt) (r : Receiver)
      → (check_corrupted p ≡ false → p.seqnum < next)
      → IsAcks next r.calls
      → IsAcks next (b_input window_size p r).calls
  unfolding b_input
  b_input-IsAcks p r known v = elim (Bool-cases (check_corrupted p)) [
    | inl e ↦ rw e v
    | inr e ↦ elim (Bool-cases (in_range window_size p.seqnum r.expected_seq)) [
      | inl k ↦
          rw (e, k)
            (deliver-IsAcks window_size (hold window_size p r) (hold-IsAcks p r (known e) v))
      | inr k ↦ rw (e, k) (one_ack next p r.calls (known e) v)
    ]
  ]

module _ (window_size : ℕ) (positive : 0 < window_size) (winbuf : ℕ → Pkt) (buffer : ℕ → Bytes)
    (recv_window : ℕ → Pkt) where
  Step-IsAcks :
      {s t : System}
      → Reach window_size (start winbuf buffer recv_window) s
      → Step window_size s t
      → IsAcks s.a.next_seqnum s.b.calls
      → IsAcks t.a.next_seqnum t.b.calls
  Step-IsAcks r (Step.hand_over s message t e) v =
      let w = reached_system window_size winbuf buffer recv_window positive r in
      let (_, _, n) = a_output-IsSender window_size s.accepted message s.a t w.sender e in
      acks_more _ _ s.b.calls n v
  Step-IsAcks r (Step.reach_b s p m) v =
      let w = reached_system window_size winbuf buffer recv_window positive r in
      let (low, _, _) = All-Mem _ _ _ w.sender.window.genuine m in
      b_input-IsAcks window_size s.a.next_seqnum p s.b (λ _. low) v
  Step-IsAcks r (Step.reach_a s p m) v =
      let w = reached_system window_size winbuf buffer recv_window positive r in
      acks_more _ _ s.b.calls (a_input-IsSender window_size s.accepted p s.a w.sender).1 v
  Step-IsAcks r (Step.damage_b s p e) v =
      b_input-IsAcks window_size s.a.next_seqnum p s.b (λ f. cc) v
  Step-IsAcks r (Step.damage_a s p e) v =
      let w = reached_system window_size winbuf buffer recv_window positive r in
      acks_more _ _ s.b.calls (a_input-IsSender window_size s.accepted p s.a w.sender).1 v
  Step-IsAcks r (Step.time_out s k) v =
      let w = reached_system window_size winbuf buffer recv_window positive r in
      let (_, n) = a_timeout-IsSender window_size s.accepted k s.a w.sender in
      acks_more _ _ s.b.calls (omega (arith, n)) v

  pub reached-IsAcks :
      {s : System}
      → Reach window_size (start winbuf buffer recv_window) s
      → IsAcks s.a.next_seqnum s.b.calls
  reached-IsAcks Reach.here = tt
  reached-IsAcks (Reach.next r k) = Step-IsAcks r k (reached-IsAcks r)
