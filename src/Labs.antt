-- ===== src/Labs.antt =====
-- original-labs/server.cc and original-labs/client.cc, the first version of the backup program: the
-- messages. Their header message.h is not in the repository, so its sizes and what a receive makes
-- of a message are parameters; the commands have the numbers by which `cmd_string` is indexed.
pub mod Server
pub mod Client
pub mod Dialogue
pub mod Agreement
pub mod Fixture
pub mod Tests
use computer_network_lab.Prelude.{
  ℕ, ◌+◌, ◌-◌, ◌≡◌, ◌≢◌, Option, none, some, List, [], ◌∷◌, ◌++◌, Bytes, codes, length, take,
  replicate,
}
use computer_network_lab.FileSystem.{FileSystem}

-- The fields of `Cmd_Msg_T` that the programs use; `filename` is the whole array.
pub record CmdMsgT : Type 0 where
  pub cmd : ℕ
  pub filename : Bytes
  pub size : ℕ
  pub error : ℕ

-- A datagram is the bytes of a whole `Cmd_Msg_T` or of a whole `Data_Msg_T`.
pub data Datagram : Type 0 where
  command : CmdMsgT → Datagram
  content : Bytes → Datagram

abbrev pub cmd_string : List Bytes
cmd_string =
    codes " "
    ∷ codes "CMD_LS"
    ∷ codes "CMD_SEND"
    ∷ codes "CMD_GET"
    ∷ codes "CMD_REMOVE"
    ∷ codes "CMD_RENAME"
    ∷ codes "CMD_SHUTDOWN"
    ∷ codes "CMD_ACK"
    ∷ codes "CMD_ACK_PORT"
    ∷ codes "CMD_FILE_EXISTS"
    ∷ codes "CMD_OVERWRITE"
    ∷ []

abbrev pub cmd_ls : ℕ
cmd_ls = 1

abbrev pub cmd_send : ℕ
cmd_send = 2

abbrev pub cmd_remove : ℕ
cmd_remove = 4

abbrev pub cmd_rename : ℕ
cmd_rename = 5

abbrev pub cmd_shutdown : ℕ
cmd_shutdown = 6

abbrev pub cmd_ack : ℕ
cmd_ack = 7

abbrev pub cmd_file_exists : ℕ
cmd_file_exists = 9

abbrev pub cmd_overwrite : ℕ
cmd_overwrite = 10

-- What the programs use of message.h and of the C library: the sizes of the arrays, what a received
-- datagram makes of the message it is received into, and `remove`.
pub record Platform (fs : FileSystem) : Type 0 where
  pub data_buf_len : ℕ
  pub file_name_len : ℕ
  pub read_cmd : CmdMsgT → Datagram → CmdMsgT
  pub read_data : Bytes → Datagram → Bytes
  pub remove : fs.Disk → Bytes → Option fs.Disk

-- What is known of them: a datagram of the right kind replaces the message, and `remove` deletes a
-- file as unlink does.
pub record IsPlatform (fs : FileSystem) (p : Platform fs) : Type 0 where
  pub read_cmd_whole : (old m : CmdMsgT) → p.read_cmd old (command m) ≡ m
  pub read_data_whole :
      (old b : Bytes) → length b ≡ p.data_buf_len → p.read_data old (content b) ≡ b
  pub remove_file :
      (d : fs.Disk) (path : Bytes) {c : Bytes}
      → fs.regular d path ≡ some c
      → p.remove d path ≡ fs.unlink d path

-- `strncpy` into an array of `n` bytes, of which the last is set to 0.
unfoldable pub copy_name : ℕ → Bytes → Bytes
copy_name n name = let cut = take (n - 1) name in cut ++ replicate (n - length cut) 0

-- "backup/" in front of a name.
abbrev pub backup_path : Bytes → Bytes
backup_path name = codes "backup/" ++ name
