-- ===== src/Transport/Sides.antt =====
-- original-labs/gbn.c, original-labs/stable.c: the global variables of the sender A, which the two
-- files share, and what happens to its buffer. A call into the emulator is an entry of the log `calls`.
use computer_network_lab.Prelude.{ℕ, ◌+◌, ◌-◌, ◌%◌, List, [], ◌∷◌, ◌++◌, Bytes}
use computer_network_lab.Transport.Packet.{Pkt, Call, assign}

abbrev pub max_buf_size : ℕ
max_buf_size = 5000

-- The sender's global variables, with its log.
pub record Sender : Type 0 where
  pub next_seqnum : ℕ
  pub base : ℕ
  pub winbuf : ℕ → Pkt
  pub winfront : ℕ
  pub winrear : ℕ
  pub pktnum : ℕ
  pub buffer : ℕ → Bytes
  pub buffront : ℕ
  pub bufrear : ℕ
  pub msg_num : ℕ
  pub ack_adv_num : ℕ
  pub packet_correct : ℕ
  pub packet_sent : ℕ
  pub packet_resent : ℕ
  pub packet_time_out : ℕ
  pub calls : List Call

-- `A_init`; the two arrays hold what they held.
unfoldable pub a_init : (ℕ → Pkt) → (ℕ → Bytes) → Sender
a_init winbuf buffer = record {
  next_seqnum = 0;
  base = 0;
  winbuf = winbuf;
  winfront = 0;
  winrear = 0;
  pktnum = 0;
  buffer = buffer;
  buffront = 0;
  bufrear = 0;
  msg_num = 0;
  ack_adv_num = 0;
  packet_correct = 0;
  packet_sent = 0;
  packet_resent = 0;
  packet_time_out = 0;
  calls = [];
}

unfoldable pub call : Call → Sender → Sender
call c s = record s { calls = s.calls ++ c ∷ [] }

-- The branch of a full window.
unfoldable pub keep_message : Bytes → Sender → Sender
keep_message message s = record s {
  buffer = assign s.bufrear message s.buffer;
  bufrear = (s.bufrear + 1) % max_buf_size;
  msg_num = s.msg_num + 1;
}

-- The first message of the buffer is taken out.
unfoldable pub take_message : Sender → Sender
take_message s = record s { buffront = (s.buffront + 1) % max_buf_size; msg_num = s.msg_num - 1 }
