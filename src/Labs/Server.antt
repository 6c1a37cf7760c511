-- ===== src/Labs/Server.antt =====
-- original-labs/server.cc: the state of `main` with its surroundings, and what the commands share.
pub mod Commands
pub mod Loop
pub mod Frames
pub mod Shrinks
pub mod Lifecycle
pub mod Sends
pub mod Renames
use computer_network_lab.Prelude.{
  ℕ, ◌+◌, ltb, ◌||◌, Bool, true, false, Option, none, some, List, [], ◌∷◌, ◌++◌, if◌then◌else◌,
  Bytes, bytes_eq, codes, length, replicate,
}
use computer_network_lab.FileSystem.{FileSystem, file_exists}
use computer_network_lab.Listing.{write_string}
use computer_network_lab.Server.State.{TcpSession, no_session, ◌>>=◌, ◌>>◌}
use computer_network_lab.Labs.{Platform, CmdMsgT, Datagram, command, content}

-- `Server_State_T`.
pub data Phase : Type 0 where
  waiting process_ls process_send process_get process_remove process_rename shutdown : Phase

-- The variables of `main`, and what it meets: what each receive finds in turn (the socket does not
-- block, so a receive may find nothing), the results of `sendto`, and of the calls for each TCP
-- transfer. `overread` says that `cmd_string` was read past its end, which is undefined in C++;
-- `ended` that `main` has returned.
pub record Lab (fs : FileSystem) : Type 0 where
  pub disk : fs.Disk
  pub inbox : List (Option (ℕ × Datagram))
  pub send_results : List Bool
  pub outbox : List (ℕ × Datagram)
  pub sessions : List TcpSession
  pub client_addr : ℕ
  pub current_tcp_port : ℕ
  pub server_state : Phase
  pub cmd_msg : CmdMsgT
  pub ack_msg : CmdMsgT
  pub data_msg : Bytes
  pub overread : Bool
  pub ended : Bool

-- The loop that packs the names behind one another, each with its NUL; one that does not fit is
-- left out.
unfoldable pub pack_names : ℕ → List Bytes → ℕ → Bytes → Bytes
pack_names data_buf_len [] offset buffer = buffer
pack_names data_buf_len (name ∷ names) offset buffer =
    let fits =
      pack_names data_buf_len names (offset + length name + 1) (write_string buffer offset name) in
    let skips = pack_names data_buf_len names offset buffer in
    if ltb (offset + length name + 1) data_buf_len then fits else skips

-- The entries of a directory without the two that every directory has.
unfoldable pub file_names : List Bytes → List Bytes
file_names [] = []
file_names (name ∷ names) =
    let rest = file_names names in
    if bytes_eq name (codes ".") || bytes_eq name (codes "..") then rest else name ∷ rest

module _ (fs : FileSystem) where
  abbrev pub L : Type 0 → Type 0
  L A = Lab fs → A × Lab fs

  abbrev pub change : (Lab fs → Lab fs) → L (Unit {0})
  change f s = (tt, f s)

  abbrev pub go_to : Phase → L (Unit {0})
  go_to phase = change (λ s. record s { server_state = phase })

  send_with : List Bool → Datagram → L Bool
  send_with [] b s = (true, record s { outbox = s.outbox ++ (s.client_addr, b) ∷ [] })
  send_with (ok ∷ rest) b s =
      if ok
      then (true, record s { send_results = rest; outbox = s.outbox ++ (s.client_addr, b) ∷ [] })
      else (false, record s { send_results = rest })

  -- `sendto` the current client; whether it succeeds.
  unfoldable pub send_to : Datagram → L Bool
  unfolding send_with
  send_to b s = send_with s.send_results b s

  receive_with : List (Option (ℕ × Datagram)) → L (Option Datagram)
  receive_with [] s = (none, s)
  receive_with (none ∷ rest) s = (none, record s { inbox = rest })
  receive_with (some (a, b) ∷ rest) s = (some b, record s { inbox = rest; client_addr = a })

  -- `recvfrom`.
  unfoldable pub receive_from : L (Option Datagram)
  unfolding receive_with
  receive_from s = receive_with s.inbox s

  sessions_with : List TcpSession → L TcpSession
  sessions_with [] s = (no_session, s)
  sessions_with (t ∷ rest) s = (t, record s { sessions = rest })

  unfoldable pub take_session : L TcpSession
  unfolding sessions_with
  take_session s = sessions_with s.sessions s

  -- `ack_msg` gets a command and an error, and is sent; its size stays what it was.
  unfoldable pub acknowledge : ℕ → ℕ → L Bool
  acknowledge cmd error s =
      let m = record s.ack_msg { cmd = cmd; error = error } in
      send_to (command m) (record s { ack_msg = m })

  unfoldable pub acknowledge_size : ℕ → ℕ → ℕ → L Bool
  acknowledge_size cmd error size s =
      let m = record s.ack_msg { cmd = cmd; error = error; size = size } in
      send_to (command m) (record s { ack_msg = m })

  -- `checkFile`: whether the path can be opened for reading, a directory too. What is there can be.
  unfoldable pub check_file : fs.Disk → Bytes → Bool
  check_file d path = file_exists fs d path || fs.is_directory d path

  -- `mkdir` where `opendir` fails.
  unfoldable pub make_directory : fs.Disk → Bytes → fs.Disk
  make_directory d path = elim (fs.mkdir d path) [ none ↦ d | some e ↦ e ]

  -- `checkDirectory`.
  unfoldable pub check_directory : fs.Disk → Bytes → fs.Disk
  check_directory d path = elim (fs.entries d path) [
    | none ↦ make_directory d path
    | some names ↦ d
  ]

  -- `getDirectory`: the files, and the disk.
  unfoldable pub directory_files : fs.Disk → Bytes → List Bytes × fs.Disk
  directory_files d path = elim (fs.entries d path) [
    | none ↦ ([], make_directory d path)
    | some names ↦ (file_names names, d)
  ]

  -- PROCESS_LS.
  unfoldable pub serve_ls : Platform fs → L (Unit {0})
  serve_ls p s =
      let (files, d) = directory_files s.disk (codes "backup") in
      let reply = pack_names p.data_buf_len files 0 (replicate p.data_buf_len 0) in
      (do send_to (content reply); go_to waiting) (record s { disk = d; data_msg = reply })
