-- ===== src/Transport/SelectiveRepeat/Window.antt =====
-- The selective-repeat sender: its window is a ring of the packets from `base` on, and every operation
-- keeps it so.
use computer_network_lab.Prelude.{
  ℕ, zero, suc, ◌+◌, ◌-◌, ◌%◌, ◌≤◌, ◌<◌, ◌≡◌, ◌≢◌, refl, sym, ap, ◌∙◌, false, ◌&&◌, Bool-cases, inl,
  inr, some, List, ◌++◌, arith, ltb, ltb→lt, ◌==◌, ==_iff, Bytes, All, All-append, get_elem?,
}
use native.Mathlib.Nat.{mod-lt, mod-eq_of_lt, mod-eq-sub-mod, mod-add-mod}
use computer_network_lab.Transport.Packet.{pos, make_packet, compute_checksum, Call, assign}
use computer_network_lab.Transport.Sides.{Sender}
use computer_network_lab.Transport.Messages.{IsGenuine, IsGenuineCall, genuine_more}
use computer_network_lab.Transport.SelectiveRepeat.{is_number, send_new, find}

-- The window of a sender to which these messages were handed: place `winfront + i` of the ring holds
-- packet `base + i`, and every packet sent carries the message that its number stands for.
pub record IsWindow (window_size : ℕ) (accepted : List Bytes) (s : Sender) : Type 0 where
  pub genuine : All (IsGenuineCall accepted s.next_seqnum) s.calls
  pub held :
      (i : ℕ)
      → i < s.pktnum
      → IsGenuine accepted s.next_seqnum (s.winbuf ((s.winfront + i) % window_size))
        × ((s.winbuf ((s.winfront + i) % window_size)).seqnum ≡ s.base + i)
  pub front : s.winfront < window_size
  pub rear : s.winrear ≡ (s.winfront + s.pktnum) % window_size
  pub count : s.base + s.pktnum ≡ s.next_seqnum
  pub high : s.pktnum ≤ window_size

-- Different offsets within the ring are different places.
ring_distinct : (w f i n : ℕ) → f < w → i < n → n < w → (f + i) % w ≢ (f + n) % w
ring_distinct w f i n front less inside same = elim (Bool-cases (ltb (f + n) w)) [
  | inl e ↦
      let a : (f + i) % w ≡ f + i = mod-eq_of_lt (ground arith) in
      let b : (f + n) % w ≡ f + n = mod-eq_of_lt (ground arith) in omega arith
  | inr e ↦
      let over : w ≤ f + n = ground arith in
      let b : (f + n) % w ≡ f + n - w = mod-eq-sub-mod over ∙ mod-eq_of_lt (omega arith) in
      elim (Bool-cases (ltb (f + i) w)) [
        | inl k ↦ let a : (f + i) % w ≡ f + i = mod-eq_of_lt (ltb→lt _ _ k) in omega arith
        | inr k ↦
            let a : (f + i) % w ≡ f + i - w =
              mod-eq-sub-mod (ground arith) ∙ mod-eq_of_lt (omega arith) in
            ground arith
      ]
]

module _ (window_size : ℕ) (accepted : List Bytes) where
  -- With a free place in the window, its rear is the place behind the last packet and no other.
  rear_last :
      (s : Sender)
      → IsWindow window_size accepted s
      → (i : ℕ) → i ≤ s.pktnum
      → s.winrear ≡ (s.winfront + i) % window_size
      → s.pktnum < window_size
      → i ≡ s.pktnum
  rear_last s w i most same room = elim (Bool-cases (ltb i s.pktnum)) [
    | inl e ↦ absurd (
        ring_distinct window_size s.winfront i s.pktnum w.front (ltb→lt _ _ e) room
          (sym same ∙ w.rear))
    | inr e ↦ ground arith
  ]

  not_rear :
      (s : Sender)
      → IsWindow window_size accepted s
      → (i : ℕ) → i ≤ s.pktnum
      → (s.winrear == (s.winfront + i) % window_size) ≡ false
      → i < s.pktnum
  not_rear s w i most other = elim (Bool-cases (ltb i s.pktnum)) [
    | inl e ↦ ltb→lt _ _ e
    | inr e ↦
        let last : i ≡ s.pktnum = ground arith in
        let same : s.winrear ≡ (s.winfront + i) % window_size =
          w.rear ∙ ap (λ k. (s.winfront + k) % window_size) (sym last) in
        absurd (ground (arith, (==_iff s.winrear ((s.winfront + i) % window_size))))
  ]

  -- A new packet with the next message.
  pub send_new-IsWindow :
      (message : Bytes) (s : Sender)
      → IsWindow window_size accepted s
      → s.next_seqnum < s.base + window_size
      → get_elem? accepted s.next_seqnum ≡ some message
      → IsWindow window_size accepted (send_new window_size message s)
  unfolding send_new make_packet compute_checksum assign
  send_new-IsWindow message s w room e = record {
    genuine =
        All-append _ s.calls _ (genuine_more accepted _ _ s.calls (omega arith) w.genuine)
          ((omega arith, e, refl), (tt, tt));
    held = λ i h. elim (Bool-cases (s.winrear == (s.winfront + i) % window_size)) [
      | inl same ↦
          let last : i ≡ s.pktnum =
            rear_last s w i (omega arith) ((==_iff _ _).0 same) (omega (arith, w.count)) in
          rw same ((omega arith, e, refl), omega (arith, w.count))
      | inr other ↦
          let before : i < s.pktnum = not_rear s w i (omega arith) other in
          let ((low, f, c), n) = w.held i before in rw other ((omega arith, f, c), n)
    ];
    front = w.front;
    rear =
        ap (λ r. (r + 1) % window_size) w.rear
        ∙ mod-add-mod (s.winfront + s.pktnum) window_size 1
        ∙ ap (λ k. k % window_size) {x = s.winfront + s.pktnum + 1} (omega arith);
    count = omega (arith, w.count);
    high = omega (arith, w.count);
  }

  -- A window whose first packet is taken out.
  pub slide_once :
      (s : Sender) (counted : ℕ)
      → IsWindow window_size accepted s
      → 0 < s.pktnum
      → IsWindow window_size accepted (record s {
        base = s.base + 1;
        winfront = (s.winfront + 1) % window_size;
        pktnum = s.pktnum - 1;
        ack_adv_num = counted;
      })
  slide_once s counted w some_sent = record {
    genuine = w.genuine;
    held = λ i h.
        let place : ((s.winfront + 1) % window_size + i) % window_size
            ≡ (s.winfront + (i + 1)) % window_size =
          mod-add-mod (s.winfront + 1) window_size i
          ∙ ap (λ k. k % window_size) {x = s.winfront + 1 + i} (omega arith) in
        let (g, n) = w.held (i + 1) (omega arith) in rw place (g, omega arith);
    front = mod-lt (s.winfront + 1) (omega (arith, w.front));
    rear =
        w.rear
        ∙ sym (
            mod-add-mod (s.winfront + 1) window_size (s.pktnum - 1)
            ∙ ap (λ k. k % window_size) {x = s.winfront + 1 + (s.pktnum - 1)} (omega arith));
    count = omega (arith, w.count);
    high = omega (arith, w.high);
  }

  -- A packet of the window is marked as acknowledged.
  pub mark_place-IsWindow :
      (place : ℕ) (s : Sender)
      → IsWindow window_size accepted s
      → IsWindow window_size accepted
          (record s { winbuf = assign place (record (s.winbuf place) { acknum = pos 1 }) s.winbuf })
  unfolding assign
  mark_place-IsWindow place s w = record {
    genuine = w.genuine;
    held = λ i h. elim (Bool-cases (place == (s.winfront + i) % window_size)) [
      | inl same ↦ rw same (rw ((==_iff place _).0 same) (w.held i h))
      | inr other ↦ rw other (w.held i h)
    ];
    front = w.front;
    rear = w.rear;
    count = w.count;
    high = w.high;
  }

  -- Calls that send genuine packets, and the counters.
  pub calls-IsWindow :
      (s : Sender) (more : List Call) (sent again late : ℕ)
      → IsWindow window_size accepted s
      → All (IsGenuineCall accepted s.next_seqnum) more
      → IsWindow window_size accepted (record s {
        packet_sent = sent;
        packet_resent = again;
        packet_time_out = late;
        calls = s.calls ++ more;
      })
  calls-IsWindow s more sent again late w known = record {
    genuine = All-append _ s.calls more w.genuine known;
    held = w.held;
    front = w.front;
    rear = w.rear;
    count = w.count;
    high = w.high;
  }

  -- What `find` finds is a packet of the window.
  pub find-held :
      (count i number : ℕ) (s : Sender) (place : ℕ)
      → IsWindow window_size accepted s
      → i + count ≤ s.pktnum
      → find window_size count i number s ≡ some place
      → IsGenuine accepted s.next_seqnum (s.winbuf place)
  unfolding find
  find-held zero i number s place w h e = cc
  find-held (suc count) i number s place w h e =
      let here = (s.winfront + i) % window_size in
      elim (Bool-cases ((s.winbuf here).seqnum == number && is_number 0 (s.winbuf here).acknum)) [
        | inl k ↦
            let found : some here ≡ some place = rw k at e in
            let same : here ≡ place = cc in let (g, _) = w.held i (omega arith) in rw (sym same) g
        | inr k ↦ find-held count (i + 1) number s place w (omega arith) (rw k at e)
      ]
