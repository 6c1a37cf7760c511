-- ===== src/Transport/Tests.antt =====
-- Runs of the checksum.
use computer_network_lab.Prelude.{[], ◌∷◌}
use computer_network_lab.Transport.Packet.{pos, Pkt, compute_checksum}

-- A packet with the bytes 7 and 8, and one with the bytes 7 and 9.
abbrev sent : Pkt
sent = record { seqnum = 3; acknum = pos 0; checksum = 0; payload = 7 ∷ 8 ∷ [] }

abbrev changed : Pkt
changed = record (compute_checksum sent) { payload = 7 ∷ 9 ∷ [] }
