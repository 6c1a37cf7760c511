-- ===== src/Message.antt =====
-- include/protocol/message.h: the commands, the two messages and their bytes on the wire. The
-- packed structs are sent as they lie in memory; integers are little endian, as on the hosts that
-- the program is built for (`hostToNetwork` is declared and never defined or called).
pub mod Wire
pub mod Fields
use computer_network_lab.Prelude.{
  ℕ, suc, ◌+◌, ◌-◌, ◌*◌, ◌/◌, ◌%◌, Bool, [], ◌∷◌, ◌++◌, ltb, ◌==◌, if◌then◌else◌, Bytes, codes,
  length, take, drop, replicate, get_or,
}

abbrev pub file_name_len : ℕ
file_name_len = 128

abbrev pub data_buf_len : ℕ
data_buf_len = 3000

-- `Command`; `unknown` is a value of uint8_t that no enumerator names.
pub data Command : Type 0 where
  none ls send get remove rename shutdown ack ack_port file_exists overwrite : Command
  ready_for_new_name : Command
  unknown : ℕ → Command

unfoldable pub command_code : Command → ℕ
command_code Command.none = 0
command_code ls = 1
command_code send = 2
command_code get = 3
command_code remove = 4
command_code rename = 5
command_code shutdown = 6
command_code ack = 7
command_code ack_port = 8
command_code file_exists = 9
command_code overwrite = 10
command_code ready_for_new_name = 11
command_code (unknown n) = n

-- The cast from uint8_t to the enum.
unfoldable pub command_of : ℕ → Command
command_of n =
    if n == 0
    then Command.none
    else if n == 1
    then ls
    else if n == 2
    then send
    else if n == 3
    then get
    else if n == 4
    then remove
    else if n == 5
    then rename
    else if n == 6
    then shutdown
    else if n == 7
    then ack
    else if n == 8
    then ack_port
    else if n == 9
    then file_exists
    else if n == 10
    then overwrite
    else if n == 11
    then ready_for_new_name
    else unknown n

-- `commandToString`.
unfoldable pub command_to_string : Command → Bytes
command_to_string Command.none = codes "NONE"
command_to_string ls = codes "CMD_LS"
command_to_string send = codes "CMD_SEND"
command_to_string get = codes "CMD_GET"
command_to_string remove = codes "CMD_REMOVE"
command_to_string rename = codes "CMD_RENAME"
command_to_string shutdown = codes "CMD_SHUTDOWN"
command_to_string ack = codes "CMD_ACK"
command_to_string ack_port = codes "CMD_ACK_PORT"
command_to_string file_exists = codes "CMD_FILE_EXISTS"
command_to_string overwrite = codes "CMD_OVERWRITE"
command_to_string ready_for_new_name = codes "CMD_READY_FOR_NEW_NAME"
command_to_string (unknown n) = codes "UNKNOWN"

-- The text of a char array up to its first NUL, as a std::string reads it. An array with no NUL
-- (undefined in C++) is read to its end.
unfoldable pub c_string : Bytes → Bytes
c_string [] = []
c_string (c ∷ s) = let rest = c_string s in if c == 0 then [] else c ∷ rest

-- `CmdMsg`.
pub record CmdMsg : Type 0 where
  pub cmd : ℕ
  pub filename : Bytes
  pub size : ℕ
  pub port : ℕ
  pub error : ℕ

-- The constructor.
unfoldable pub new_cmd_msg : CmdMsg
new_cmd_msg = record {
  cmd = 0;
  filename = replicate file_name_len 0;
  size = 0;
  port = 0;
  error = 0;
}

unfoldable pub set_command : Command → CmdMsg → CmdMsg
set_command command m = record m { cmd = command_code command }

unfoldable pub get_command : CmdMsg → Command
get_command m = command_of m.cmd

-- `strncpy` of at most 127 characters, padded with NULs, and a NUL at the end.
unfoldable pub set_filename : Bytes → CmdMsg → CmdMsg
set_filename name m =
    let copied = take (file_name_len - 1) (c_string name) in
    record m { filename = copied ++ replicate (file_name_len - length copied) 0 }

-- The name that a handler reads from a message.
abbrev pub name_of : CmdMsg → Bytes
name_of m = c_string m.filename

-- `DataMsg` is its 3000 bytes, and the constructor fills it with NULs.
abbrev pub new_data_msg : Bytes
new_data_msg = replicate data_buf_len 0

-- `DataMsg::setData` writes the first bytes of `src` and a NUL behind them.
unfoldable pub set_data : Bytes → ℕ → Bytes → Bytes
set_data src len buffer =
    let copy_len = if ltb len data_buf_len then len else data_buf_len - 1 in
    take copy_len src ++ 0 ∷ drop (suc copy_len) buffer

unfoldable pub le16 : ℕ → Bytes
le16 n = n % 256 ∷ n / 256 % 256 ∷ []

unfoldable pub le32 : ℕ → Bytes
le32 n = n % 256 ∷ n / 256 % 256 ∷ n / 65536 % 256 ∷ n / 16777216 % 256 ∷ []

unfoldable pub read16 : Bytes → ℕ
read16 b = get_or b 0 0 + 256 * get_or b 1 0

unfoldable pub read32 : Bytes → ℕ
read32 b = get_or b 0 0 + 256 * get_or b 1 0 + 65536 * get_or b 2 0 + 16777216 * get_or b 3 0

abbrev pub cmd_msg_size : ℕ
cmd_msg_size = 1 + file_name_len + 4 + 2 + 2

-- The bytes that `sendto` sends of a `CmdMsg`.
unfoldable pub encode : CmdMsg → Bytes
encode m = m.cmd ∷ (m.filename ++ (le32 m.size ++ (le16 m.port ++ le16 m.error)))

-- What a buffer of `n` zero bytes holds once a datagram has been received into it: a longer
-- datagram is cut, a shorter one leaves the rest at zero.
unfoldable pub received : ℕ → Bytes → Bytes
received n datagram = take n datagram ++ replicate (n - length (take n datagram)) 0

-- The fields of a `CmdMsg` in memory.
unfoldable pub decode : Bytes → CmdMsg
decode b =
    let behind = drop file_name_len (drop 1 b) in
    record {
      cmd = get_or b 0 0;
      filename = take file_name_len (drop 1 b);
      size = read32 behind;
      port = read16 (drop 4 behind);
      error = read16 (drop 6 behind);
    }

-- A received `CmdMsg`.
unfoldable pub receive_cmd : Bytes → CmdMsg
receive_cmd datagram = decode (received cmd_msg_size datagram)

-- A received `DataMsg`.
unfoldable pub receive_data : Bytes → Bytes
receive_data datagram = received data_buf_len datagram
