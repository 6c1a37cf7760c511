-- ===== src/Transport/GoBackN.antt =====
-- original-labs/gbn.c: the Go-Back-N sender A and receiver B. A call into the emulator is an entry of
-- the side's log `calls`. The sequence numbers are unbounded, as the file's comment says.
pub mod System
pub mod Window
pub mod Slide
pub mod Queue
pub mod Loops
pub mod Input
pub mod Delivery
pub mod Log
pub mod Safety
pub mod Recovery
pub mod Program
pub mod ProgramTests
pub mod Tests
use computer_network_lab.Prelude.{
  ℕ, zero, suc, ◌+◌, ◌-◌, ◌%◌, Bool, true, false, not, ◌&&◌, List, [], ◌∷◌, ◌++◌, ltb, leb, ◌==◌,
  if◌then◌else◌, Bytes,
}
use computer_network_lab.Transport.Sides.{
  Sender, max_buf_size, a_init, call, keep_message, take_message,
}
use computer_network_lab.Transport.Packet.{
  ℤ, pos, negsuc, pred, Pkt, check_corrupted, make_packet, make_ack, Call, to_layer3, to_layer5,
  start_timer, stop_timer, assign,
}

-- The receiver's variables, with its log.
pub record Receiver : Type 0 where
  pub expected_seqnum : ℕ
  pub packet_receieve : ℕ
  pub packet_corrupt : ℕ
  pub calls : List Call

abbrev pub b_init : Receiver
b_init = record { expected_seqnum = 0; packet_receieve = 0; packet_corrupt = 0; calls = [] }

-- The timer, and the next sequence number.
unfoldable pub time_packet : Sender → Sender
time_packet s =
    let t = (if s.next_seqnum == s.base + 1 then call (start_timer s.base) s else s) in
    record t { next_seqnum = t.next_seqnum + 1 }

-- The timer of a window that is not empty.
unfoldable pub restart : Sender → Sender
restart s = if ltb s.base s.next_seqnum then call (start_timer s.base) s else s

module _ (window_size : ℕ) where
  -- The new packet goes into the window and to layer 3.
  unfoldable pub put_packet : Bytes → Sender → Sender
  put_packet message s =
      let packet = make_packet s.next_seqnum message in
      record s {
        winbuf = assign s.winrear packet s.winbuf;
        winrear = (s.winrear + 1) % window_size;
        pktnum = s.pktnum + 1;
        packet_sent = s.packet_sent + 1;
        calls = s.calls ++ to_layer3 packet ∷ [];
      }

  -- `A_output`.
  unfoldable pub a_output : Bytes → Sender → Sender
  a_output message s =
      if ltb s.next_seqnum (s.base + window_size)
      then time_packet (put_packet message s)
      else keep_message message s

  -- The loop that leaves the acknowledged packets behind. It ends at `winrear` at the latest, which
  -- the window size is fuel for.
  unfoldable pub slide : ℕ → Sender → Sender
  slide zero s = s
  slide (suc fuel) s =
      let rest =
        slide fuel
          (record s { winfront = (s.winfront + 1) % window_size; pktnum = s.pktnum - 1 }) in
      if not (s.winfront == s.winrear) && ltb (s.winbuf s.winfront).seqnum s.base then rest else s

  -- The loop that sends what is in the buffer; each round uses a place of the window.
  unfoldable pub drain : ℕ → Sender → Sender
  drain zero s = s
  drain (suc fuel) s =
      let rest = drain fuel (a_output (s.buffer s.buffront) (take_message s)) in
      if ltb 0 s.msg_num && ltb s.next_seqnum (s.base + window_size) then rest else s

  -- An acknowledgement within the window.
  unfoldable pub advance : ℕ → Sender → Sender
  advance acknum s =
      let t =
        call (stop_timer s.base)
          (record s { packet_correct = s.packet_correct + (acknum - s.base + 1) }) in
      drain window_size (restart (slide window_size (record t { base = acknum + 1 })))

  -- `A_input`. The number 0 is `NOTUSED`.
  unfoldable pub take_ack : ℤ → Sender → Sender
  take_ack (negsuc n) s = s
  take_ack (pos zero) s = s
  take_ack (pos (suc n)) s =
      if leb s.base (suc n) && ltb (suc n) s.next_seqnum then advance (suc n) s else s

  unfoldable pub a_input : Pkt → Sender → Sender
  a_input packet s = if check_corrupted packet then s else take_ack packet.acknum s

  -- The loop that sends the window again, from its `i`-th place on.
  unfoldable pub resend : ℕ → ℕ → Sender → Sender
  resend zero i s = s
  resend (suc count) i s = resend count (i + 1) (record s {
    packet_sent = s.packet_sent + 1;
    packet_resent = s.packet_resent + 1;
    calls = s.calls ++ to_layer3 (s.winbuf ((s.winfront + i) % window_size)) ∷ [];
  })

  -- `A_packet_time_rinterrupt`.
  unfoldable pub a_timeout : ℕ → Sender → Sender
  a_timeout pkt_seq s =
      let t = call (start_timer s.base) (resend (s.next_seqnum - s.base) 0 s) in
      if pkt_seq == s.base then record t { packet_time_out = t.packet_time_out + 1 } else s

-- A packet in order goes to layer 5, another is thrown away.
unfoldable pub accept : Pkt → Receiver → Receiver
accept packet r =
    if packet.seqnum == r.expected_seqnum
    then record r {
      expected_seqnum = r.expected_seqnum + 1;
      packet_receieve = r.packet_receieve + 1;
      calls = r.calls ++ to_layer5 packet.payload ∷ [];
    }
    else r

-- The cumulative acknowledgement.
unfoldable pub acknowledge : Receiver → Receiver
acknowledge r = record r { calls = r.calls ++ to_layer3 (make_ack (pred r.expected_seqnum)) ∷ [] }

-- `B_input`.
unfoldable pub b_input : Pkt → Receiver → Receiver
b_input packet r =
    if check_corrupted packet
    then record r { packet_corrupt = r.packet_corrupt + 1 }
    else acknowledge (accept packet r)
