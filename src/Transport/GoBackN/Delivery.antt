-- ===== src/Transport/GoBackN/Delivery.antt =====
-- The receiver: what it has given to layer 5, and what its acknowledgements say.
use computer_network_lab.Prelude.{
  ℕ, zero, suc, ◌+◌, ◌≤◌, ◌<◌, ◌≡◌, refl, sym, ap, ◌∙◌, false, Bool-cases, inl, inr, List, [], ◌∷◌,
  ◌++◌, arith, ◌==◌, ==_iff, Bytes, All, All-append, get_elem?, take, append-nil,
}
use computer_network_lab.Transport.Messages.{IsGenuine, take_next}
use computer_network_lab.Transport.Packet.{
  pos, pred, Pkt, check_corrupted, compute_checksum, make_ack, Call, to_layer3, to_layer5,
  start_timer, stop_timer, delivered, delivered-append,
}
use computer_network_lab.Transport.GoBackN.{Receiver, accept, acknowledge, b_input}

-- An acknowledgement that B makes while it expects at most this packet.
abbrev pub IsAck : ℕ → Pkt → Type 0
IsAck expected p = (m : ℕ) × (m ≤ expected) × (p ≡ make_ack (pred m))

-- It is for packets below that one only.
pub IsAck-below :
    (expected : ℕ) (p : Pkt) → IsAck expected p → (n : ℕ) → p.acknum ≡ pos n → n < expected
unfolding make_ack compute_checksum pred
IsAck-below expected p (zero, low, e) n h = let number = ap (λ (q : Pkt). q.acknum) e in cc
IsAck-below expected p (suc m, low, e) n h =
    let number = ap (λ (q : Pkt). q.acknum) e in let same : m ≡ n = cc in omega arith

abbrev pub IsAckCall : ℕ → Call → Type 0
IsAckCall expected (to_layer3 p) = IsAck expected p
IsAckCall expected _ = Unit

-- A receiver of which layer 5 has got the first messages, each once, up to the number it expects.
pub record IsReceiver (accepted : List Bytes) (next : ℕ) (r : Receiver) : Type 0 where
  pub got : delivered r.calls ≡ take r.expected_seqnum accepted
  pub below : r.expected_seqnum ≤ next
  pub acks : All (IsAckCall r.expected_seqnum) r.calls

pub acks_more :
    (n m : ℕ) (calls : List Call) → n ≤ m → All (IsAckCall n) calls → All (IsAckCall m) calls
acks_more n m [] h k = tt
acks_more n m (to_layer3 p ∷ calls) h ((i, low, e), k) =
    ((i, omega arith, e), acks_more n m calls h k)
acks_more n m (to_layer5 b ∷ calls) h (_, k) = (tt, acks_more n m calls h k)
acks_more n m (start_timer j ∷ calls) h (_, k) = (tt, acks_more n m calls h k)
acks_more n m (stop_timer j ∷ calls) h (_, k) = (tt, acks_more n m calls h k)

module _ (accepted : List Bytes) (next : ℕ) where
  accept-IsReceiver :
      (p : Pkt) (r : Receiver)
      → IsReceiver accepted next r
      → IsGenuine accepted next p
      → IsReceiver accepted next (accept p r)
  unfolding accept delivered
  accept-IsReceiver p r v (low, e, c) = elim (Bool-cases (p.seqnum == r.expected_seqnum)) [
    | inl k ↦
        let same = (==_iff p.seqnum r.expected_seqnum).0 k in
        let one_more : r.expected_seqnum + 1 ≡ suc r.expected_seqnum = omega arith in
        let got : delivered (r.calls ++ to_layer5 p.payload ∷ [])
            ≡ take (r.expected_seqnum + 1) accepted =
          rw one_more (
            delivered-append r.calls _
            ∙ ap (λ d. d ++ p.payload ∷ []) v.got
            ∙ sym (take_next _ accepted p.payload (ap (get_elem? accepted) (sym same) ∙ e))) in
        rw k (record {
          got = got;
          below = omega arith;
          acks = All-append _ r.calls _ (acks_more _ _ r.calls (omega arith) v.acks) (tt, tt);
        })
    | inr k ↦ rw k v
  ]

  acknowledge-IsReceiver :
      (r : Receiver) → IsReceiver accepted next r → IsReceiver accepted next (acknowledge r)
  unfolding acknowledge delivered
  acknowledge-IsReceiver r v = record {
    got = delivered-append r.calls _ ∙ append-nil _ ∙ v.got;
    below = v.below;
    acks = All-append _ r.calls _ v.acks ((r.expected_seqnum, omega arith, refl), tt);
  }

  corrupt-IsReceiver :
      (r : Receiver) (count : ℕ)
      → IsReceiver accepted next r
      → IsReceiver accepted next (record r { packet_corrupt = count })
  corrupt-IsReceiver r count v = record { got = v.got; below = v.below; acks = v.acks }

  -- A genuine packet, or one whose checksum does not fit, leaves a receiver.
  pub b_input-IsReceiver :
      (p : Pkt) (r : Receiver)
      → IsReceiver accepted next r
      → (check_corrupted p ≡ false → IsGenuine accepted next p)
      → IsReceiver accepted next (b_input p r)
  unfolding b_input
  b_input-IsReceiver p r v known = elim (Bool-cases (check_corrupted p)) [
    | inl e ↦ rw e (corrupt-IsReceiver r _ v)
    | inr e ↦ rw e (acknowledge-IsReceiver _ (accept-IsReceiver p r v (known e)))
  ]
