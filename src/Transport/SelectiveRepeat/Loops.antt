-- ===== src/Transport/SelectiveRepeat/Loops.antt =====
-- The loops of `A_input` and `B_input` end: the fuel that the model gives them is enough.
use computer_network_lab.Prelude.{
  ℕ, zero, suc, ◌+◌, ◌%◌, ◌≤◌, ◌<◌, ◌≡◌, refl, ap, ◌∙◌, false, ◌&&◌, Bool-cases, inl, inr, arith,
  ltb, ltb→lt, ◌==◌, ==_iff,
}
use native.Mathlib.Nat.{add-mod_right}
use computer_network_lab.Transport.Packet.{assign}
use computer_network_lab.Transport.Sides.{Sender, take_message}
use computer_network_lab.Transport.SelectiveRepeat.{
  Receiver, is_number, send_new, slide, drain, deliver,
}

module _ (window_size : ℕ) where
  slide_more :
      (fuel more : ℕ) (s : Sender)
      → fuel ≤ more
      → s.pktnum ≤ fuel
      → slide window_size more s ≡ slide window_size fuel s
  unfolding slide
  slide_more zero zero s h enough = refl
  slide_more zero (suc more) s h enough =
      let ends : (ltb 0 s.pktnum
            && is_number 1 (s.winbuf s.winfront).acknum
            && (s.winbuf s.winfront).seqnum == s.base)
          ≡ false =
        ground arith in
      rw ends refl
  slide_more (suc fuel) zero s h enough = absurd (omega arith)
  slide_more (suc fuel) (suc more) s h enough =
      elim (Bool-cases (
        ltb 0 s.pktnum
        && is_number 1 (s.winbuf s.winfront).acknum
        && (s.winbuf s.winfront).seqnum == s.base)) [
          | inl e ↦ rw e (slide_more fuel more _ (omega arith) (omega arith))
          | inr e ↦ rw e refl
        ]

  drain_more :
      (fuel more : ℕ) (s : Sender)
      → fuel ≤ more
      → s.base + window_size ≤ s.next_seqnum + fuel
      → drain window_size more s ≡ drain window_size fuel s
  unfolding drain send_new take_message
  drain_more zero zero s h enough = refl
  drain_more zero (suc more) s h enough =
      let ends : (ltb 0 s.msg_num && ltb s.next_seqnum (s.base + window_size)) ≡ false =
        ground arith in
      rw ends refl
  drain_more (suc fuel) zero s h enough = absurd (omega arith)
  drain_more (suc fuel) (suc more) s h enough =
      elim (Bool-cases (ltb 0 s.msg_num && ltb s.next_seqnum (s.base + window_size))) [
        | inl e ↦ rw e (drain_more fuel more _ (omega arith) (omega arith))
        | inr e ↦ rw e refl
      ]

  -- A number whose slot is not that of the expected one is below it.
  other_slot : (i n : ℕ) → i ≤ n → (n % window_size == i % window_size) ≡ false → i < n
  other_slot i n h other = elim (Bool-cases (ltb i n)) [
    | inl e ↦ ltb→lt _ _ e
    | inr e ↦
        let last : n ≡ i = ground arith in
        let same : n % window_size ≡ i % window_size = ap (λ k. k % window_size) last in
        absurd (ground (arith, ==_iff (n % window_size) (i % window_size)))
  ]

  -- After `window_size` rounds from number `first` on, every slot has been freed.
  deliver_more :
      (fuel more first : ℕ) (r : Receiver)
      → fuel ≤ more
      → 0 < window_size
      → r.expected_seq + fuel ≡ first + window_size
      → ((i : ℕ) → first ≤ i → i < r.expected_seq → r.recv_marked (i % window_size) ≡ false)
      → deliver window_size more r ≡ deliver window_size fuel r
  unfolding deliver assign
  deliver_more zero zero first r h positive last freed = refl
  deliver_more zero (suc more) first r h positive last freed =
      let around : r.expected_seq % window_size ≡ first % window_size =
        ap (λ k. k % window_size) {x = r.expected_seq} (omega arith)
        ∙ add-mod_right first window_size in
      let free : r.recv_marked (r.expected_seq % window_size) ≡ false =
        ap r.recv_marked around ∙ freed first (omega arith) (omega arith) in
      let ends : (r.recv_marked (r.expected_seq % window_size)
            && (r.recv_window (r.expected_seq % window_size)).seqnum == r.expected_seq)
          ≡ false =
        rw free refl in
      rw ends refl
  deliver_more (suc fuel) zero first r h positive last freed = absurd (omega arith)
  deliver_more (suc fuel) (suc more) first r h positive last freed =
      let slot = r.expected_seq % window_size in
      elim (Bool-cases (r.recv_marked slot && (r.recv_window slot).seqnum == r.expected_seq)) [
        | inl e ↦ rw e (
            deliver_more fuel more first _ (omega arith) positive (omega arith) (λ i low high.
              elim (Bool-cases (slot == i % window_size)) [
                | inl same ↦ rw same refl
                | inr other ↦
                    let before : i < r.expected_seq =
                      other_slot i r.expected_seq (omega arith) other in
                    rw other (freed i low before)
              ]))
        | inr e ↦ rw e refl
      ]

  -- With a window of at least one place and `base` not past the next number, more fuel than the model
  -- gives changes none of the loops: each has met its own condition by then.
  pub loops_end :
      (more : ℕ) (s : Sender) (r : Receiver)
      → 0 < window_size
      → window_size ≤ more
      → s.pktnum ≤ more
      → s.base ≤ s.next_seqnum
      → (slide window_size more s ≡ slide window_size s.pktnum s)
        × (drain window_size more s ≡ drain window_size window_size s)
        × (deliver window_size more r ≡ deliver window_size window_size r)
  loops_end more s r positive h k low = (
    slide_more s.pktnum more s k (omega arith),
    drain_more window_size more s h (omega arith),
    deliver_more window_size more r.expected_seq r h positive refl (λ i a b. absurd (omega arith)),
  )
