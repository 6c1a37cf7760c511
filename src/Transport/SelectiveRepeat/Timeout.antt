-- ===== src/Transport/SelectiveRepeat/Timeout.antt =====
-- What the timer of a packet of the selective-repeat sender sends.
use computer_network_lab.Prelude.{
  ℕ, zero, suc, ◌+◌, ◌%◌, ◌≤◌, ◌<◌, ◌≡◌, refl, sym, ap, ◌∙◌, true, false, ◌&&◌, Bool-cases, inl,
  inr, some, List, [], ◌∷◌, ◌++◌, arith, ◌==◌, ==_iff, Bytes, get_elem?,
}
use computer_network_lab.Transport.Packet.{pos, Pkt, to_layer3, start_timer}
use computer_network_lab.Transport.Sides.{Sender}
use computer_network_lab.Transport.SelectiveRepeat.{is_number, find, resend, a_timeout}
use computer_network_lab.Transport.SelectiveRepeat.System.{System, start, Reach}
use computer_network_lab.Transport.SelectiveRepeat.Window.{IsWindow}
use computer_network_lab.Transport.SelectiveRepeat.Safety.{reached_system}

module _ (window_size : ℕ) (accepted : List Bytes) where
  -- A packet of the window that is not acknowledged is found in its place.
  find-place :
      (count i j : ℕ) (s : Sender)
      → IsWindow window_size accepted s
      → i + count ≡ s.pktnum
      → i ≤ j
      → j < s.pktnum
      → (s.winbuf ((s.winfront + j) % window_size)).acknum ≡ pos 0
      → find window_size count i (s.base + j) s ≡ some ((s.winfront + j) % window_size)
  unfolding find is_number
  find-place zero i j s w total low high unmarked = absurd (omega arith)
  find-place (suc count) i j s w total low high unmarked =
      let here = s.winbuf ((s.winfront + i) % window_size) in
      let (_, n) = w.held i (omega arith) in
      elim (Bool-cases (i == j)) [
        | inl e ↦
            let same : i ≡ j = (==_iff _ _).0 e in
            let passes : (here.seqnum == s.base + j && is_number 0 here.acknum) ≡ true =
              rw same (rw unmarked (ground (arith, n))) in
            rw passes (ap (λ k. some ((s.winfront + k) % window_size)) same)
        | inr e ↦
            let passes : (here.seqnum == s.base + j && is_number 0 here.acknum) ≡ false =
              ground (arith, n, ==_iff i j) in
            let further : suc i ≤ j = ground (arith, ==_iff i j) in
            rw passes (find-place count (i + 1) j s w (omega arith) (omega arith) high unmarked)
      ]

module _ (window_size : ℕ) where
  -- With a window of at least one place, after any steps from the start: for each packet of the window
  -- that is not acknowledged yet, its timer sends exactly this packet, with its own number and the
  -- message of that number, and starts again.
  pub timeout_resends :
      (winbuf : ℕ → Pkt) (buffer : ℕ → Bytes) (recv_window : ℕ → Pkt) {s : System} (i : ℕ)
      → 0 < window_size
      → Reach window_size (start winbuf buffer recv_window) s
      → i < s.a.pktnum
      → let p = s.a.winbuf ((s.a.winfront + i) % window_size) in
        p.acknum ≡ pos 0
        → ((a_timeout window_size (s.a.base + i) s.a).calls
            ≡ s.a.calls ++ to_layer3 p ∷ start_timer (s.a.base + i) ∷ [])
          × (p.seqnum ≡ s.a.base + i)
          × (get_elem? s.accepted (s.a.base + i) ≡ some p.payload)
  unfolding a_timeout resend
  timeout_resends winbuf buffer recv_window {s = s} i positive steps inside unmarked =
      let v = reached_system window_size winbuf buffer recv_window positive steps in
      let t = record s.a { packet_time_out = s.a.packet_time_out + 1 } in
      let w = v.sender.window in
      let u : IsWindow window_size s.accepted t = record {
        genuine = w.genuine;
        held = w.held;
        front = w.front;
        rear = w.rear;
        count = w.count;
        high = w.high;
      } in
      let found =
        find-place window_size s.accepted s.a.pktnum 0 i t u (omega arith) (omega arith) inside
          unmarked in
      let ((_, e, _), n) = w.held i inside in
      (rw found refl, n, ap (get_elem? s.accepted) (sym n) ∙ e)
