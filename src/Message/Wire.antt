-- ===== src/Message/Wire.antt =====
-- The wire format: every message of machine words survives it, in 137 bytes.
use computer_network_lab.Prelude.{
  ℕ, ◌-◌, ◌^◌, ◌<◌, ◌≡◌, sym, ap, ◌∙◌, [], ◌++◌, append-nil, arith, Bytes, length, length-append,
  take, drop, replicate, take-length_append, drop-length_append,
}
use computer_network_lab.Message.{
  CmdMsg, cmd_msg_size, file_name_len, encode, decode, received, receive_cmd, le16, le32, read16,
  read32,
}

-- A `CmdMsg` whose fields fit their types.
pub record IsWord (m : CmdMsg) : Type 0 where
  pub cmd : m.cmd < 2 ^ 8
  pub filename : length m.filename ≡ file_name_len
  pub size : m.size < 2 ^ 32
  pub port : m.port < 2 ^ 16
  pub error : m.error < 2 ^ 16

pub length-encode : (m : CmdMsg) → IsWord m → length (encode m) ≡ cmd_msg_size
unfolding encode le16 le32
length-encode m v =
    omega
      (arith, length-append m.filename (le32 m.size ++ (le16 m.port ++ le16 m.error)), v.filename)

take_at : (n : ℕ) (s t : Bytes) → length s ≡ n → take n (s ++ t) ≡ s
take_at n s t h = rw (sym h) (take-length_append s t)

drop_at : (n : ℕ) (s t : Bytes) → length s ≡ n → drop n (s ++ t) ≡ t
drop_at n s t h = rw (sym h) (drop-length_append s t)

-- The fields behind the filename.
tail_fields : ℕ → ℕ → ℕ → Bytes
tail_fields size port error = le32 size ++ (le16 port ++ le16 error)

read_tail :
    (size port error : ℕ)
    → size < 2 ^ 32
    → port < 2 ^ 16
    → error < 2 ^ 16
    → (read32 (tail_fields size port error) ≡ size)
      × (read16 (drop 4 (tail_fields size port error)) ≡ port)
      × (read16 (drop 6 (tail_fields size port error)) ≡ error)
unfolding tail_fields le32 le16 read32 read16
read_tail size port error h k l = omega arith

pub decode-encode : (m : CmdMsg) → IsWord m → decode (encode m) ≡ m
unfolding decode encode tail_fields
decode-encode m v =
    let t = read_tail m.size m.port m.error v.size v.port v.error in
    let f = take_at file_name_len m.filename (tail_fields m.size m.port m.error) v.filename in
    let d = drop_at file_name_len m.filename (tail_fields m.size m.port m.error) v.filename in
    λ i. record {
      cmd = m.cmd;
      filename = f i;
      size = (ap read32 d ∙ t.0) i;
      port = (ap (λ b. read16 (drop 4 b)) d ∙ t.1) i;
      error = (ap (λ b. read16 (drop 6 b)) d ∙ t.2) i;
    }

-- A datagram of exactly the buffer's size is received as it is.
received-eq : (n : ℕ) (b : Bytes) → length b ≡ n → received n b ≡ b
unfolding received
received-eq n b h =
    let t : take n b ≡ b = ap (take n) (sym (append-nil b)) ∙ take_at n b [] h in
    rw t (rw h (simp_pad n b))
  where
    simp_pad : (k : ℕ) (s : Bytes) → s ++ replicate (k - k) 0 ≡ s
    simp_pad k s = let e : k - k ≡ 0 = omega arith in rw e (append-nil s)

-- A command message whose fields fit their types takes 137 bytes on the wire and is received
-- unchanged.
pub receive_cmd-encode :
    (m : CmdMsg) → IsWord m → (length (encode m) ≡ 137) × (receive_cmd (encode m) ≡ m)
unfolding receive_cmd
receive_cmd-encode m v = (
  length-encode m v,
  rw (received-eq cmd_msg_size (encode m) (length-encode m v)) (decode-encode m v),
)
