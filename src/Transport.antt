-- ===== src/Transport.antt =====
-- original-labs/gbn.c and original-labs/stable.c: two reliable data transfer protocols and the
-- emulator of a network that both run on.
pub mod Packet
pub mod Protocol
pub mod Sides
pub mod Messages
pub mod Waiting
pub mod Checksum
pub mod Damage
pub mod Emulator
pub mod GoBackN
pub mod SelectiveRepeat
pub mod Fixture
pub mod Tests
