-- ===== src/Transport/Fixture.antt =====
-- Test data for original-labs/gbn.c and original-labs/stable.c.
use computer_network_lab.Prelude.{ℕ, ◌+◌, Bool, [], leb, Bytes}
use computer_network_lab.Transport.Packet.{pos, Pkt}

-- Times in tenths.
abbrev pub at_least : ℕ → ℕ → Bool
at_least x y = leb y x

abbrev pub plus : ℕ → ℕ → ℕ
plus x y = x + y

-- What the arrays hold at the start.
abbrev pub no_packets : ℕ → Pkt
no_packets i = record { seqnum = 0; acknum = pos 0; checksum = 0; payload = [] }

abbrev pub no_messages : ℕ → Bytes
no_messages i = []
