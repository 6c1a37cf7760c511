-- ===== src/Transport/Packet.antt =====
-- original-labs/gbn.c, original-labs/stable.c: messages, packets and their checksum, which the two
-- files share, and the calls that a protocol makes into the emulator.
use computer_network_lab.Prelude.{
  ℕ, zero, suc, ◌+◌, ◌-◌, ◌%◌, ◌/◌, ◌^◌, Bool, not, List, [], ◌∷◌, ◌++◌, ◌≡◌, refl, ap, ltb, ◌==◌,
  if◌then◌else◌, Bytes, replicate, drop,
}

-- A C int; -1 is `negsuc 0`. The code writes a negative one into `acknum` only.
pub data ℤ : Type 0 where
  pos negsuc : ℕ → ℤ

-- Its bits, as an unsigned int.
unfoldable pub word : ℤ → ℕ
word (pos n) = n % 2 ^ 32
word (negsuc n) = 2 ^ 32 - 1 - n % 2 ^ 32

-- `n - 1`.
unfoldable pub pred : ℕ → ℤ
pred zero = negsuc 0
pred (suc n) = pos n

-- `struct pkt`; `checksum` is given by its bits. `struct msg_` is its 20 bytes of data.
pub record Pkt : Type 0 where
  pub seqnum : ℕ
  pub acknum : ℤ
  pub checksum : ℕ
  pub payload : Bytes

-- A round of the checksum's loop.
unfoldable pub add_byte : ℕ → ℕ → ℕ
add_byte sum c = let s = (sum + c) % 2 ^ 32 in if ltb 65535 s then s % 65536 + s / 65536 else s

unfoldable pub sum_bytes : ℕ → Bytes → ℕ
sum_bytes sum [] = sum
sum_bytes sum (c ∷ payload) = sum_bytes (add_byte sum c) payload

-- The sum that `ComputeChecksum` and `CheckCorrupted` both form.
unfoldable pub packet_sum : Pkt → ℕ
packet_sum p = sum_bytes ((p.seqnum % 2 ^ 32 + word p.acknum) % 2 ^ 32) p.payload

-- `ComputeChecksum`.
unfoldable pub compute_checksum : Pkt → Pkt
compute_checksum p = record p { checksum = 2 ^ 32 - 1 - packet_sum p % 65536 }

-- `CheckCorrupted`.
unfoldable pub check_corrupted : Pkt → Bool
check_corrupted p = not ((packet_sum p + p.checksum) % 2 ^ 32 % 65536 == 65535)

-- A data packet as `A_output` makes it.
unfoldable pub make_packet : ℕ → Bytes → Pkt
make_packet seqnum message =
    compute_checksum (record { seqnum = seqnum; acknum = pos 0; checksum = 0; payload = message })

-- An acknowledgement as `B_input` makes it.
unfoldable pub make_ack : ℤ → Pkt
make_ack acknum =
    compute_checksum
      (record { seqnum = 0; acknum = acknum; checksum = 0; payload = replicate 20 0 })

-- What the emulator's `tolayer3` does to a packet that it corrupts.
unfoldable pub corrupt : Pkt → Pkt
corrupt p = record p { payload = b'Z' ∷ drop 1 p.payload; seqnum = 999999; acknum = pos 999999 }

-- A protocol's calls into the emulator.
pub data Call : Type 0 where
  to_layer3 : Pkt → Call
  to_layer5 : Bytes → Call
  start_timer stop_timer : ℕ → Call

-- An assignment to an element of an array, which is a function of the index.
unfoldable pub assign {ℓ} : {A : Type ℓ} → ℕ → A → (ℕ → A) → ℕ → A
assign i v array j = if i == j then v else array j

-- What layer 5 has got, in order.
unfoldable pub delivered : List Call → List Bytes
delivered [] = []
delivered (to_layer5 b ∷ calls) = b ∷ delivered calls
delivered (to_layer3 p ∷ calls) = delivered calls
delivered (start_timer n ∷ calls) = delivered calls
delivered (stop_timer n ∷ calls) = delivered calls

pub delivered-append : (xs ys : List Call) → delivered (xs ++ ys) ≡ delivered xs ++ delivered ys
unfolding delivered
delivered-append [] ys = refl
delivered-append (to_layer5 b ∷ xs) ys = ap (λ k. b ∷ k) (delivered-append xs ys)
delivered-append (to_layer3 p ∷ xs) ys = delivered-append xs ys
delivered-append (start_timer n ∷ xs) ys = delivered-append xs ys
delivered-append (stop_timer n ∷ xs) ys = delivered-append xs ys
