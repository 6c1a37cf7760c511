-- ===== src/Transport/GoBackN/Recovery.antt =====
-- What a timeout mends: the packets that it sends again bring B to the end of what was sent.
use computer_network_lab.Prelude.{
  ℕ, zero, suc, ◌+◌, ◌%◌, ◌≤◌, ◌≡◌, false, Bool-cases, inl, inr, List, [], ◌∷◌, arith, ◌==◌,
}
use computer_network_lab.Transport.Packet.{
  Pkt, check_corrupted, Call, to_layer3, to_layer5, start_timer, stop_timer,
}
use computer_network_lab.Transport.GoBackN.{Receiver, b_input, accept, acknowledge}
use computer_network_lab.Transport.GoBackN.System.{System}

-- Every packet of these calls arrives at B, in order.
unfoldable pub receive_all : List Call → Receiver → Receiver
receive_all [] r = r
receive_all (to_layer3 p ∷ calls) r = receive_all calls (b_input p r)
receive_all (to_layer5 b ∷ calls) r = receive_all calls r
receive_all (start_timer n ∷ calls) r = receive_all calls r
receive_all (stop_timer n ∷ calls) r = receive_all calls r

received :
    (p : Pkt) (r : Receiver) (n : ℕ)
    → check_corrupted p ≡ false
    → p.seqnum ≡ n
    → n ≤ r.expected_seqnum
    → n + 1 ≤ (b_input p r).expected_seqnum
unfolding b_input accept acknowledge
received p r n sound number behind = rw sound (elim (Bool-cases (p.seqnum == r.expected_seqnum)) [
  | inl k ↦ rw k (omega arith)
  | inr k ↦ rw k (ground arith)
])

module _ (window_size : ℕ) where
  -- The packets of `count` places of the window.
  abbrev places : (ℕ → Pkt) → ℕ → ℕ → ℕ → List Call
  places winbuf front zero i = []
  places winbuf front (suc count) i =
      to_layer3 (winbuf ((front + i) % window_size)) ∷ places winbuf front count (i + 1)
