-- ===== src/Transport/GoBackN/Window.antt =====
-- The sender's window: what its slots hold, and that every operation keeps it so.
use computer_network_lab.Prelude.{
  ℕ, ◌+◌, ◌%◌, ◌≤◌, ◌<◌, ◌≡◌, refl, false, Bool-cases, inl, inr, some, List, [], ◌∷◌, ◌++◌, arith,
  ◌==◌, ==_iff, Bytes, All, All-append, get_elem?,
}
use native.Mathlib.Nat.{mod-lt, mod-eq_of_lt}
use computer_network_lab.Transport.Sides.{Sender, call}
use computer_network_lab.Transport.Messages.{IsGenuine, IsGenuineCall, genuine_more}
use computer_network_lab.Transport.Packet.{
  check_corrupted, make_packet, compute_checksum, Call, to_layer3, start_timer, assign,
}
use computer_network_lab.Transport.Checksum.{check_corrupted-compute_checksum}
use computer_network_lab.Transport.GoBackN.{put_packet, time_packet}

-- The window of a sender to which these messages were handed. While fewer packets were sent than the
-- window has places, packet `i` stands in place `i` and the front of the window is `base`.
pub record IsWindow (window_size : ℕ) (accepted : List Bytes) (s : Sender) : Type 0 where
  pub genuine : All (IsGenuineCall accepted s.next_seqnum) s.calls
  pub slots :
      (i : ℕ) → i < window_size → i < s.next_seqnum → IsGenuine accepted s.next_seqnum (s.winbuf i)
  pub numbers : (i : ℕ) → i < s.next_seqnum → s.next_seqnum ≤ window_size → (s.winbuf i).seqnum ≡ i
  pub sound :
      (i : ℕ)
      → i < s.next_seqnum
      → s.next_seqnum ≤ window_size
      → check_corrupted (s.winbuf i) ≡ false
  pub front : s.winfront < window_size
  pub rear : s.winrear < window_size
  pub rear_next : s.next_seqnum < window_size → s.winrear ≡ s.next_seqnum
  pub front_base : s.next_seqnum < window_size → s.winfront ≡ s.base
  pub low : s.base ≤ s.next_seqnum
  pub high : s.next_seqnum ≤ s.base + window_size

module _ (window_size : ℕ) (accepted : List Bytes) where
  -- A new packet with the next message is put into the window; the calls are already known.
  put-IsWindow :
      (message : Bytes) (s : Sender) (calls : List Call) (sent total : ℕ)
      → 0 < window_size
      → IsWindow window_size accepted s
      → s.next_seqnum < s.base + window_size
      → get_elem? accepted s.next_seqnum ≡ some message
      → All (IsGenuineCall accepted (s.next_seqnum + 1)) calls
      → IsWindow window_size accepted (record s {
        next_seqnum = s.next_seqnum + 1;
        winbuf = assign s.winrear (make_packet s.next_seqnum message) s.winbuf;
        winrear = (s.winrear + 1) % window_size;
        pktnum = total;
        packet_sent = sent;
        calls = calls;
      })
  unfolding make_packet compute_checksum assign
  put-IsWindow message s calls sent total positive w room e known = record {
    genuine = known;
    slots = λ i h k. elim (Bool-cases (s.winrear == i)) [
      | inl same ↦ rw same (omega arith, e, refl)
      | inr other ↦
          let before : i < s.next_seqnum = ground (arith, w.rear_next, ==_iff s.winrear i) in
          let (low, f, c) = w.slots i h before in rw other (omega arith, f, c)
    ];
    numbers = λ i h k. elim (Bool-cases (s.winrear == i)) [
      | inl same ↦ rw same (omega (arith, (==_iff s.winrear i).0 same, w.rear_next (omega arith)))
      | inr other ↦
          let before : i < s.next_seqnum = ground (arith, w.rear_next, ==_iff s.winrear i) in
          rw other (w.numbers i before (omega arith))
    ];
    sound = λ i h k. elim (Bool-cases (s.winrear == i)) [
      | inl same ↦ rw same (check_corrupted-compute_checksum _)
      | inr other ↦
          let before : i < s.next_seqnum = ground (arith, w.rear_next, ==_iff s.winrear i) in
          rw other (w.sound i before (omega arith))
    ];
    front = w.front;
    rear = mod-lt (s.winrear + 1) positive;
    rear_next = λ h. rw (w.rear_next (omega arith)) (mod-eq_of_lt h);
    front_base = λ h. w.front_base (omega arith);
    low = omega (arith, w.low);
    high = omega arith;
  }

  packet_calls :
      (message : Bytes) (s : Sender) (more : List Call)
      → IsWindow window_size accepted s
      → get_elem? accepted s.next_seqnum ≡ some message
      → All (IsGenuineCall accepted (s.next_seqnum + 1)) more
      → All
          (IsGenuineCall accepted (s.next_seqnum + 1))
          (s.calls ++ to_layer3 (make_packet s.next_seqnum message) ∷ more)
  unfolding make_packet compute_checksum
  packet_calls message s more w e known =
      All-append _ s.calls _ (genuine_more accepted _ _ s.calls (omega arith) w.genuine)
        ((omega arith, e, refl), known)

  -- A new packet with the next message.
  pub send-IsWindow :
      (message : Bytes) (s : Sender)
      → 0 < window_size
      → IsWindow window_size accepted s
      → s.next_seqnum < s.base + window_size
      → get_elem? accepted s.next_seqnum ≡ some message
      → IsWindow window_size accepted (time_packet (put_packet window_size message s))
  unfolding time_packet put_packet call
  send-IsWindow message s positive w room e = elim (Bool-cases (s.next_seqnum == s.base + 1)) [
    | inl timed ↦ rw timed (
        put-IsWindow message s _ _ _ positive w room e
          (All-append _ _ (start_timer s.base ∷ []) (packet_calls message s [] w e tt) (tt, tt)))
    | inr untimed ↦
        rw untimed
          (put-IsWindow message s _ _ _ positive w room e (packet_calls message s [] w e tt))
  ]
