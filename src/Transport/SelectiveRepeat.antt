-- ===== src/Transport/SelectiveRepeat.antt =====
-- original-labs/stable.c: the selective-repeat sender A and receiver B. The receiver's arrays have 8
-- places in the code; the model is of window sizes up to 8.
pub mod System
pub mod Window
pub mod Output
pub mod Input
pub mod Delivery
pub mod Safety
pub mod Loops
pub mod Timeout
pub mod Log
pub mod Acks
pub mod Program
pub mod ProgramTests
pub mod Tests
use computer_network_lab.Prelude.{
  ℕ, zero, suc, ◌+◌, ◌-◌, ◌%◌, Bool, true, false, not, ◌&&◌, ◌||◌, Option, none, some, List, [],
  ◌∷◌, ◌++◌, ltb, leb, ◌==◌, if◌then◌else◌, Bytes,
}
use computer_network_lab.Transport.Packet.{
  ℤ, pos, negsuc, Pkt, check_corrupted, make_packet, make_ack, Call, to_layer3, to_layer5,
  start_timer, stop_timer, assign,
}
use computer_network_lab.Transport.Sides.{Sender, call, keep_message, take_message}

-- The receiver's variables, with its log.
pub record Receiver : Type 0 where
  pub expected_seq : ℕ
  pub recv_window : ℕ → Pkt
  pub recv_marked : ℕ → Bool
  pub packet_receieve : ℕ
  pub calls : List Call

abbrev pub b_init : (ℕ → Pkt) → Receiver
b_init recv_window = record {
  expected_seq = 0;
  recv_window = recv_window;
  recv_marked = λ i. false;
  packet_receieve = 0;
  calls = [];
}

-- `z == n`.
unfoldable pub is_number : ℕ → ℤ → Bool
is_number n (pos m) = m == n
is_number n (negsuc m) = false

-- A packet that was found is sent again, and its timer starts again.
unfoldable pub resend : ℕ → Option ℕ → Sender → Sender
resend pkt_seq none s = s
resend pkt_seq (some place) s = record s {
  packet_sent = s.packet_sent + 1;
  packet_resent = s.packet_resent + 1;
  calls = s.calls ++ to_layer3 (s.winbuf place) ∷ start_timer pkt_seq ∷ [];
}

module _ (window_size : ℕ) where
  -- A new packet goes to layer 3 and into the window, and its own timer starts.
  unfoldable pub send_new : Bytes → Sender → Sender
  send_new message s =
      let packet = make_packet s.next_seqnum message in
      record s {
        next_seqnum = s.next_seqnum + 1;
        winbuf = assign s.winrear (record packet { acknum = pos 0 }) s.winbuf;
        winrear = (s.winrear + 1) % window_size;
        pktnum = s.pktnum + 1;
        packet_sent = s.packet_sent + 1;
        calls = s.calls ++ to_layer3 packet ∷ start_timer s.next_seqnum ∷ [];
      }

  -- `A_output`; `none` is the end of the program, with the buffer full.
  unfoldable pub a_output : Bytes → Sender → Option Sender
  a_output message s =
      if ltb s.next_seqnum (s.base + window_size)
      then some (send_new message s)
      else if ltb s.msg_num 4999
      then some (keep_message message s)
      else none

  -- The loop that looks for packet `number`, not acknowledged yet, from the `i`-th place on.
  unfoldable pub find : ℕ → ℕ → ℕ → Sender → Option ℕ
  find zero i number s = none
  find (suc count) i number s =
      let rest = find count (i + 1) number s in
      let place = (s.winfront + i) % window_size in
      if (s.winbuf place).seqnum == number && is_number 0 (s.winbuf place).acknum
      then some place
      else rest

  -- The loop that leaves the acknowledged packets behind; each round takes a packet out.
  unfoldable pub slide : ℕ → Sender → Sender
  slide zero s = s
  slide (suc fuel) s =
      let rest = slide fuel (record s {
        base = s.base + 1;
        winfront = (s.winfront + 1) % window_size;
        pktnum = s.pktnum - 1;
        ack_adv_num = s.ack_adv_num + 1;
      }) in
      if ltb 0 s.pktnum
        && is_number 1 (s.winbuf s.winfront).acknum
        && (s.winbuf s.winfront).seqnum == s.base
      then rest
      else s

  -- The loop that sends what is in the buffer; each round uses a place of the window.
  unfoldable pub drain : ℕ → Sender → Sender
  drain zero s = s
  drain (suc fuel) s =
      let rest = drain fuel (send_new (s.buffer s.buffront) (take_message s)) in
      if ltb 0 s.msg_num && ltb s.next_seqnum (s.base + window_size) then rest else s

  -- The packet that an acknowledgement is for is marked.
  unfoldable pub mark : ℕ → Option ℕ → Sender → Sender
  mark acknum none s = s
  mark acknum (some place) s =
      let t = call (stop_timer acknum) s in
      let u = record t {
        winbuf = assign place (record (t.winbuf place) { acknum = pos 1 }) t.winbuf;
      } in
      drain window_size (slide u.pktnum u)

  unfoldable pub take_ack : ℤ → Sender → Sender
  take_ack (negsuc n) s = s
  take_ack (pos n) s =
      if ltb n s.base || leb s.next_seqnum n then s else mark n (find s.pktnum 0 n s) s

  -- `A_input`.
  unfoldable pub a_input : Pkt → Sender → Sender
  a_input packet s = if check_corrupted packet then s else take_ack packet.acknum s

  -- `A_packet_time_rinterrupt`.
  unfoldable pub a_timeout : ℕ → Sender → Sender
  a_timeout pkt_seq s =
      let t = record s { packet_time_out = s.packet_time_out + 1 } in
      resend pkt_seq (find t.pktnum 0 pkt_seq t) t

  -- Whether a packet is one of the `window_size` expected next or of the `window_size` before.
  unfoldable pub in_range : ℕ → ℕ → Bool
  in_range seqnum expected_seq =
      (leb expected_seq seqnum && ltb seqnum (expected_seq + window_size))
      || (ltb seqnum expected_seq && leb expected_seq (seqnum + window_size))

  -- A packet that its slot does not hold is put there and acknowledged.
  unfoldable pub hold : Pkt → Receiver → Receiver
  hold packet r =
      let slot = packet.seqnum % window_size in
      if not (r.recv_marked slot) || not ((r.recv_window slot).seqnum == packet.seqnum)
      then record r {
        recv_window = assign slot packet r.recv_window;
        recv_marked = assign slot true r.recv_marked;
        calls = r.calls ++ to_layer3 (make_ack (pos packet.seqnum)) ∷ [];
      }
      else r

  -- The loop that gives packets in order to layer 5; each round frees a slot.
  unfoldable pub deliver : ℕ → Receiver → Receiver
  deliver zero r = r
  deliver (suc fuel) r =
      let slot = r.expected_seq % window_size in
      let rest = deliver fuel (record r {
        expected_seq = r.expected_seq + 1;
        recv_marked = assign slot false r.recv_marked;
        packet_receieve = r.packet_receieve + 1;
        calls = r.calls ++ to_layer5 (r.recv_window slot).payload ∷ [];
      }) in
      if r.recv_marked slot && (r.recv_window slot).seqnum == r.expected_seq then rest else r

  -- `B_input`.
  unfoldable pub b_input : Pkt → Receiver → Receiver
  b_input packet r =
      if check_corrupted packet
      then r
      else if in_range packet.seqnum r.expected_seq
      then deliver window_size (hold packet r)
      else record r { calls = r.calls ++ to_layer3 (make_ack (pos packet.seqnum)) ∷ [] }
