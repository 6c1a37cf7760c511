-- ===== src/Transport/SelectiveRepeat/Delivery.antt =====
-- The selective-repeat receiver: what its slots hold, and what it has given to layer 5.
use computer_network_lab.Prelude.{
  ℕ, zero, suc, ◌+◌, ◌%◌, ◌≤◌, ◌≡◌, sym, ap, ◌∙◌, true, false, not, ◌&&◌, ◌||◌, Bool-cases, inl,
  inr, List, [], ◌∷◌, ◌++◌, arith, ◌==◌, Bytes, get_elem?, length, take, append-nil,
}
use computer_network_lab.Transport.Packet.{
  Pkt, check_corrupted, to_layer3, to_layer5, assign, delivered, delivered-append,
}
use computer_network_lab.Transport.Messages.{IsGenuine, take-append, take_next, get_elem?-append}
use computer_network_lab.Transport.SelectiveRepeat.{Receiver, in_range, hold, deliver, b_input}

-- A receiver of which layer 5 has got the first messages, each once, up to the number it expects, and
-- whose marked slots hold packets that were sent.
pub record IsReceiver (accepted : List Bytes) (next : ℕ) (r : Receiver) : Type 0 where
  pub got : delivered r.calls ≡ take r.expected_seq accepted
  pub below : r.expected_seq ≤ next
  pub held : (i : ℕ) → r.recv_marked i ≡ true → IsGenuine accepted next (r.recv_window i)

-- More messages and more packets leave a receiver.
pub IsReceiver-append :
    (accepted more : List Bytes) (n m : ℕ) (r : Receiver)
    → n ≤ m
    → n ≤ length accepted
    → IsReceiver accepted n r
    → IsReceiver (accepted ++ more) m r
IsReceiver-append accepted more n m r h known v = record {
  got = v.got ∙ sym (take-append _ accepted more (omega (arith, v.below)));
  below = omega (arith, v.below);
  held =
      λ i k. let (low, e, c) = v.held i k in (omega arith, get_elem?-append accepted more _ e, c);
}

pub IsReceiver-more :
    (accepted : List Bytes) (n m : ℕ) (r : Receiver)
    → n ≤ m
    → IsReceiver accepted n r
    → IsReceiver accepted m r
IsReceiver-more accepted n m r h v = record {
  got = v.got;
  below = omega (arith, v.below);
  held = λ i k. let (low, e, c) = v.held i k in (omega arith, e, c);
}

module _ (window_size : ℕ) (accepted : List Bytes) (next : ℕ) where
  hold-IsReceiver :
      (p : Pkt) (r : Receiver)
      → IsReceiver accepted next r
      → IsGenuine accepted next p
      → IsReceiver accepted next (hold window_size p r)
  unfolding hold assign delivered
  hold-IsReceiver p r v genuine =
      let slot = p.seqnum % window_size in
      elim (Bool-cases
        (not (r.recv_marked slot) || not ((r.recv_window slot).seqnum == p.seqnum))) [
          | inl e ↦ rw e (record {
            got = delivered-append r.calls _ ∙ append-nil _ ∙ v.got;
            below = v.below;
            held = λ i k. elim (Bool-cases (slot == i)) [
              | inl same ↦ rw same genuine
              | inr other ↦ rw other (v.held i (rw other at k))
            ];
          })
          | inr e ↦ rw e v
        ]

  -- The packet that B expects is given to layer 5.
  deliver_once :
      (r : Receiver) (count : ℕ)
      → IsReceiver accepted next r
      → let slot = r.expected_seq % window_size in
        r.recv_marked slot ≡ true
        → (r.recv_window slot).seqnum ≡ r.expected_seq
        → IsReceiver accepted next (record r {
          expected_seq = r.expected_seq + 1;
          recv_marked = assign slot false r.recv_marked;
          packet_receieve = count;
          calls = r.calls ++ to_layer5 (r.recv_window slot).payload ∷ [];
        })
  unfolding assign delivered
  deliver_once r count v marked number =
      let slot = r.expected_seq % window_size in
      let (low, e, c) = v.held slot marked in
      let p = r.recv_window slot in
      let one_more : r.expected_seq + 1 ≡ suc r.expected_seq = omega arith in
      record {
        got = rw one_more (
            delivered-append r.calls _
            ∙ ap (λ d. d ++ p.payload ∷ []) v.got
            ∙ sym (take_next _ accepted p.payload (ap (get_elem? accepted) (sym number) ∙ e)));
        below = omega arith;
        held = λ i k. elim (Bool-cases (slot == i)) [
          | inl same ↦ absurd (let h = rw same at k in cc)
          | inr other ↦ v.held i (rw other at k)
        ];
      }

  deliver-IsReceiver :
      (fuel : ℕ) (r : Receiver)
      → IsReceiver accepted next r
      → IsReceiver accepted next (deliver window_size fuel r)
  unfolding deliver
  deliver-IsReceiver zero r v = v
  deliver-IsReceiver (suc fuel) r v =
      let slot = r.expected_seq % window_size in
      elim (Bool-cases (r.recv_marked slot && (r.recv_window slot).seqnum == r.expected_seq)) [
        | inl e ↦
            let number : (r.recv_window slot).seqnum ≡ r.expected_seq = ground arith in
            rw e (deliver-IsReceiver fuel _ (deliver_once r _ v (ground arith) number))
        | inr e ↦ rw e v
      ]

  answer-IsReceiver :
      (p : Pkt) (r : Receiver)
      → IsReceiver accepted next r
      → IsReceiver accepted next (record r { calls = r.calls ++ to_layer3 p ∷ [] })
  unfolding delivered
  answer-IsReceiver p r v = record {
    got = delivered-append r.calls _ ∙ append-nil _ ∙ v.got;
    below = v.below;
    held = v.held;
  }

  -- A genuine packet, or one whose checksum does not fit, leaves a receiver.
  pub b_input-IsReceiver :
      (p : Pkt) (r : Receiver)
      → IsReceiver accepted next r
      → (check_corrupted p ≡ false → IsGenuine accepted next p)
      → IsReceiver accepted next (b_input window_size p r)
  unfolding b_input
  b_input-IsReceiver p r v known = elim (Bool-cases (check_corrupted p)) [
    | inl e ↦ rw e v
    | inr e ↦ rw e (elim (Bool-cases (in_range window_size p.seqnum r.expected_seq)) [
      | inl k ↦ rw k (deliver-IsReceiver window_size _ (hold-IsReceiver p r v (known e)))
      | inr k ↦ rw k (answer-IsReceiver _ r v)
    ])
  ]
