-- ===== src/Transport/GoBackN/Loops.antt =====
-- The loops of `A_input` end: the fuel that the model gives them is enough.
use computer_network_lab.Prelude.{
  ℕ, zero, suc, ◌+◌, ◌%◌, ◌≤◌, ◌<◌, ◌≡◌, refl, ap, ◌∙◌, true, false, not, ◌&&◌, Bool-cases, inl,
  inr, arith, ltb, ltb→lt, lt→ltb, ◌==◌, Bytes,
}
use native.Mathlib.Nat.{mod-eq_of_lt, mod_self}
use computer_network_lab.Transport.Sides.{Sender, take_message}
use computer_network_lab.Transport.GoBackN.{put_packet, a_output, drain, slide}
use computer_network_lab.Transport.GoBackN.Queue.{time_packet_frame}

module _ (window_size : ℕ) where
  -- The front of the window meets its rear.
  slide_more :
      (fuel more : ℕ) (s : Sender)
      → fuel ≤ more
      → s.winfront < window_size
      → s.winrear < window_size
      → (s.winfront ≤ s.winrear → s.winrear ≤ s.winfront + fuel)
      → (s.winrear < s.winfront → s.winrear + window_size ≤ s.winfront + fuel)
      → slide window_size more s ≡ slide window_size fuel s
  unfolding slide
  slide_more zero zero s h front rear ahead behind = refl
  slide_more zero (suc more) s h front rear ahead behind =
      let met : s.winfront ≡ s.winrear = ground (arith, ahead, behind) in
      let ends : (not (s.winfront == s.winrear) && ltb (s.winbuf s.winfront).seqnum s.base)
          ≡ false =
        ground arith in
      rw ends refl
  slide_more (suc fuel) zero s h front rear ahead behind = absurd (omega arith)
  slide_more (suc fuel) (suc more) s h front rear ahead behind =
      elim (Bool-cases (not (s.winfront == s.winrear) && ltb (s.winbuf s.winfront).seqnum s.base)) [
        | inl e ↦
            let apart : ¬ (s.winfront ≡ s.winrear) = ground arith in
            elim (Bool-cases (ltb (s.winfront + 1) window_size)) [
              | inl k ↦
                  let moved : (s.winfront + 1) % window_size ≡ s.winfront + 1 =
                    mod-eq_of_lt (ltb→lt _ _ k) in
                  rw e (
                    slide_more fuel more _ (omega arith) (omega arith) rear
                      (λ g. ground (arith, ahead)) (λ g. ground (arith, behind)))
              | inr k ↦
                  let last : s.winfront + 1 ≡ window_size = ground arith in
                  let moved : (s.winfront + 1) % window_size ≡ 0 =
                    ap (λ i. i % window_size) last ∙ mod_self window_size in
                  rw e (
                    slide_more fuel more _ (omega arith) (omega arith) rear
                      (λ g. ground (arith, behind)) (λ g. ground (arith, behind)))
            ]
        | inr e ↦ rw e refl
      ]

  -- A round takes a place of the window.
  drain_round :
      (message : Bytes) (s : Sender)
      → s.next_seqnum < s.base + window_size
      → let t = a_output window_size message (take_message s) in
        (t.next_seqnum ≡ s.next_seqnum + 1) × (t.base ≡ s.base)
  unfolding a_output take_message put_packet
  drain_round message s room =
      let passes : ltb s.next_seqnum (s.base + window_size) ≡ true = lt→ltb _ _ room in
      let (c, e) = time_packet_frame (put_packet window_size message (take_message s)) in
      rw passes (rw e refl, rw e refl)

  drain_more :
      (fuel more : ℕ) (s : Sender)
      → fuel ≤ more
      → s.base + window_size ≤ s.next_seqnum + fuel
      → drain window_size more s ≡ drain window_size fuel s
  unfolding drain
  drain_more zero zero s h enough = refl
  drain_more zero (suc more) s h enough =
      let ends : (ltb 0 s.msg_num && ltb s.next_seqnum (s.base + window_size)) ≡ false =
        ground arith in
      rw ends refl
  drain_more (suc fuel) zero s h enough = absurd (omega arith)
  drain_more (suc fuel) (suc more) s h enough =
      elim (Bool-cases (ltb 0 s.msg_num && ltb s.next_seqnum (s.base + window_size))) [
        | inl e ↦
            let room : s.next_seqnum < s.base + window_size = ground arith in
            let (n, b) = drain_round (s.buffer s.buffront) s room in
            rw e (drain_more fuel more _ (omega arith) (omega (arith, n, b)))
        | inr e ↦ rw e refl
      ]

  -- For a sender whose pointers lie in the window, more fuel than `window_size` changes neither of the
  -- loops of `A_input`: each has met its own condition by then.
  advance_ends :
      (more : ℕ) (s : Sender)
      → window_size ≤ more
      → s.winfront < window_size
      → s.winrear < window_size
      → s.base ≤ s.next_seqnum
      → (slide window_size more s ≡ slide window_size window_size s)
        × (drain window_size more s ≡ drain window_size window_size s)
  advance_ends more s h front rear low = (
    slide_more window_size more s h front rear (λ g. omega arith) (λ g. omega arith),
    drain_more window_size more s h (omega arith),
  )
