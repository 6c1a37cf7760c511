-- ===== src/Transport/Checksum.antt =====
-- What the checksum of original-labs/gbn.c and original-labs/stable.c finds.
use computer_network_lab.Prelude.{
  ℕ, ◌+◌, ◌-◌, ◌%◌, ◌^◌, ◌≤◌, ◌≡◌, ◌≢◌, refl, true, false, [], ◌∷◌, arith, Bytes, All, ==_ne,
}
use computer_network_lab.Transport.Packet.{
  pos, word, Pkt, add_byte, sum_bytes, packet_sum, compute_checksum, check_corrupted, make_packet,
  corrupt,
}

-- A packet with its own checksum is never taken for corrupted.
pub check_corrupted-compute_checksum : (p : Pkt) → check_corrupted (compute_checksum p) ≡ false
unfolding check_corrupted compute_checksum packet_sum
check_corrupted-compute_checksum p =
    let s = packet_sum p in
    let e : (s + (2 ^ 32 - 1 - s % 65536)) % 2 ^ 32 % 65536 ≡ 65535 = omega arith in
    ground (arith, e)

-- The bytes of a payload, as one number.
abbrev pub total : Bytes → ℕ
total [] = 0
total (c ∷ b) = c + total b

abbrev pub AreBytes : Bytes → Type 0
AreBytes = All (λ c. c ≤ 255)

pub add_byte_bound : (s c : ℕ) → s ≤ 65535 → c ≤ 255 → add_byte s c ≤ 65535
unfolding add_byte
add_byte_bound s c h k = ground arith

add_byte_residue : (s c : ℕ) → s ≤ 65535 → c ≤ 255 → add_byte s c % 65535 ≡ (s + c) % 65535
unfolding add_byte
add_byte_residue s c h k = ground arith

-- The loop adds the bytes modulo 65535, and stays within 16 bits.
pub sum_bytes_residue :
    (s : ℕ) (b : Bytes)
    → s ≤ 65535
    → AreBytes b
    → (sum_bytes s b ≤ 65535) × (sum_bytes s b % 65535 ≡ (s + total b) % 65535)
unfolding sum_bytes
sum_bytes_residue s [] h k = (h, omega arith)
sum_bytes_residue s (c ∷ b) h (k, ks) =
    let bound = add_byte_bound s c h k in
    let (low, same) = sum_bytes_residue (add_byte s c) b bound ks in
    (low, omega (arith, add_byte_residue s c h k))

-- A packet that carries the checksum of a packet with another sum is found.
pub found :
    (p q : Pkt)
    → packet_sum p ≤ 65535
    → packet_sum q ≤ 65535
    → packet_sum p ≢ packet_sum q
    → q.checksum ≡ (compute_checksum p).checksum
    → check_corrupted q ≡ true
unfolding check_corrupted compute_checksum
found p q low low' differ e =
    let n : (packet_sum q + q.checksum) % 2 ^ 32 % 65536 ≢ 65535 =
      λ k. differ (omega (arith, e, k)) in
    rw (==_ne _ _ n)

-- The header's part of the sum.
abbrev pub header : Pkt → ℕ
header p = (p.seqnum % 2 ^ 32 + word p.acknum) % 2 ^ 32

-- A packet that carries the checksum of another one is found to be corrupted, where the headers'
-- sums fit into 16 bits and the two sums of headers and bytes differ modulo 65535. So every change of
-- a single byte is found.
pub check_corrupted_change :
    (p q : Pkt)
    → header p ≤ 65535
    → header q ≤ 65535
    → AreBytes p.payload
    → AreBytes q.payload
    → (header p + total p.payload) % 65535 ≢ (header q + total q.payload) % 65535
    → q.checksum ≡ (compute_checksum p).checksum
    → check_corrupted q ≡ true
unfolding packet_sum
check_corrupted_change p q h k b b' differ e =
    let (low, r) = sum_bytes_residue (header p) p.payload h b in
    let (low', r') = sum_bytes_residue (header q) q.payload k b' in
    found p q low low' (λ same. differ (omega (arith, r, r', same))) e

-- A data packet before its checksum is computed.
abbrev plain : ℕ → Bytes → Pkt
plain seqnum payload = record { seqnum = seqnum; acknum = pos 0; checksum = 0; payload = payload }

-- What the emulator does to a packet is found, for every sequence number up to 33700, if the payload
-- consists of bytes and is not empty.
pub check_corrupted-corrupt :
    (seqnum c : ℕ) (b : Bytes)
    → seqnum ≤ 33700
    → AreBytes (c ∷ b)
    → check_corrupted (corrupt (make_packet seqnum (c ∷ b))) ≡ true
unfolding make_packet corrupt compute_checksum packet_sum sum_bytes word add_byte
check_corrupted-corrupt seqnum c b low (k, ks) =
    let p = plain seqnum (c ∷ b) in
    let bound = add_byte_bound (header p) c (omega arith) k in
    let (fits, r) = sum_bytes_residue (add_byte (header p) c) b bound ks in
    let (fits', r') = sum_bytes_residue 34038 b (omega arith) ks in
    found p (corrupt (make_packet seqnum (c ∷ b))) fits fits'
      (λ same. omega (arith, add_byte_residue (header p) c (omega arith) k, r, r', same)) refl
