-- ===== src/Transport/Damage.antt =====
-- Every packet that a protocol has sent and that the emulator corrupts is found to be corrupted.
use computer_network_lab.Prelude.{
  ℕ, zero, suc, ◌+◌, ◌%◌, ◌^◌, ◌≤◌, ◌≡◌, refl, sym, ap, ◌∙◌, true, List, [], ◌∷◌, arith, Bytes, All,
  replicate, some, get_elem?,
}
use computer_network_lab.Transport.Packet.{
  pos, pred, word, Pkt, add_byte, sum_bytes, packet_sum, compute_checksum, check_corrupted,
  make_packet, make_ack, corrupt,
}
use computer_network_lab.Transport.Checksum.{AreBytes, found, check_corrupted-corrupt}
use computer_network_lab.Transport.Messages.{IsGenuine}

-- A message of at least one byte.
abbrev pub IsMessage : Bytes → Type 0
IsMessage [] = ⊥
IsMessage (c ∷ b) = AreBytes (c ∷ b)

get_elem?-All :
    (xs : List Bytes) (i : ℕ) {v : Bytes} → All IsMessage xs → get_elem? xs i ≡ some v → IsMessage v
get_elem?-All [] i h e = cc
get_elem?-All (x ∷ xs) zero {v = v} (h, k) e = let same : x ≡ v = cc in rw (sym same) h
get_elem?-All (x ∷ xs) (suc i) (h, k) e = get_elem?-All xs i k e

corrupt-message :
    (seqnum : ℕ) (b : Bytes)
    → seqnum ≤ 33700
    → IsMessage b
    → check_corrupted (corrupt (make_packet seqnum b)) ≡ true
corrupt-message seqnum [] low h = absurd h
corrupt-message seqnum (c ∷ b) low h = check_corrupted-corrupt seqnum c b low h

-- The packet of a message.
pub corrupt-genuine :
    (accepted : List Bytes) (next : ℕ) (p : Pkt)
    → IsGenuine accepted next p
    → All IsMessage accepted
    → next ≤ 33701
    → check_corrupted (corrupt p) ≡ true
unfolding make_packet corrupt check_corrupted compute_checksum
corrupt-genuine accepted next p (low, e, c) known few =
    let message : IsMessage p.payload = get_elem?-All accepted p.seqnum known e in
    let damaged : check_corrupted (corrupt (make_packet p.seqnum p.payload)) ≡ true =
      corrupt-message p.seqnum p.payload (omega arith) message in
    ap (λ sum. check_corrupted (corrupt (record p { checksum = sum }))) c ∙ damaged

sum_zeros : (k s : ℕ) → s ≤ 65535 → sum_bytes s (replicate k 0) ≡ s
unfolding sum_bytes add_byte
sum_zeros zero s h = refl
sum_zeros (suc k) s h =
    let same : add_byte s 0 ≡ s = ground arith in
    ap (λ t. sum_bytes t (replicate k 0)) same ∙ sum_zeros k s h

-- An acknowledgement.
pub corrupt-make_ack : (m : ℕ) → m ≤ 33701 → check_corrupted (corrupt (make_ack (pred m))) ≡ true
unfolding pred make_ack corrupt compute_checksum check_corrupted packet_sum sum_bytes word add_byte
corrupt-make_ack zero few = refl
corrupt-make_ack (suc n) few =
    let ack : Pkt = record { seqnum = 0; acknum = pos n; checksum = 0; payload = replicate 20 0 } in
    let start : (0 % 2 ^ 32 + word (pos n)) % 2 ^ 32 ≡ n = omega arith in
    let sum : packet_sum ack ≡ n =
      ap (λ s. sum_bytes s (replicate 20 0)) start ∙ sum_zeros 20 n (omega arith) in
    let damaged : packet_sum (corrupt (make_ack (pos n))) ≡ 34038 = refl in
    found ack (corrupt (make_ack (pos n))) (omega arith) (omega arith) (λ same. omega arith) refl
