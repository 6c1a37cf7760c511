-- ===== src/Client.antt =====
-- src/client/client.cpp: the client's state with its surroundings, and its exchanges with the server.
pub mod Transfer
pub mod Commands
pub mod Input
pub mod Rounds
pub mod Sending
pub mod Delivery
pub mod Dialogue
pub mod Tests
use computer_network_lab.Prelude.{
  ℕ, ◌+◌, ◌*◌, ◌%◌, ◌-◌, Bool, true, false, Option, none, some, List, [], ◌∷◌, ◌++◌, if◌then◌else◌,
  Bytes, codes, length, take, drop, ◌==◌,
}
use computer_network_lab.Errors.{ErrorCode, success, timeout, socket_send_error, is_success}
use computer_network_lab.Message.{
  CmdMsg, Command, new_cmd_msg, new_data_msg, encode, decode, cmd_msg_size, data_buf_len,
}
use computer_network_lab.FileSystem.{FileSystem}
use computer_network_lab.Server.State.{◌>>=◌, ◌>>◌, pure}

-- `ClientState`.
pub data ClientState : Type 0 where
  waiting process_ls process_send process_get process_remove process_rename shutdown quit :
      ClientState

-- `ClientConfig`.
pub record ClientConfig : Type 0 where
  pub server_host : Bytes
  pub server_port : ℕ
  pub recv_timeout_ms : ℕ
  pub enable_handshake : Bool

abbrev pub default_config : ClientConfig
default_config = record {
  server_host = codes "127.0.0.1";
  server_port = 0;
  recv_timeout_ms = 5000;
  enable_handshake = true;
}

-- What the calls for one TCP transfer give: `socket`, `connect`, and each `send`, the number of
-- bytes that it would take or an error; later ones take everything. `junk` is what the buffer, which
-- is not initialised, holds.
pub record Connection : Type 0 where
  pub created : Bool
  pub connected : Bool
  pub sends : List (Option ℕ)
  pub junk : Bytes

-- A receive meets a datagram of some sender, or none within the timeout. `answers` is what the user
-- types when asked, `streams` what the connections took, with their ports. `overrun` says that more
-- was read into a DataMsg than it holds, which is undefined in C++.
pub record Client (fs : FileSystem) : Type 0 where
  pub disk : fs.Disk
  pub inbox : List (Option (ℕ × Bytes))
  pub send_results : List Bool
  pub outbox : List (ℕ × Bytes)
  pub answers : List Bytes
  pub connections : List Connection
  pub streams : List (ℕ × Bytes)
  pub overrun : Bool
  pub server_addr : ℕ
  pub state : ClientState
  pub running : Bool

-- What a message holds once a datagram is received into it: a shorter datagram leaves the rest.
unfoldable pub receive_into : CmdMsg → Bytes → CmdMsg
receive_into m datagram =
    let cut = take cmd_msg_size datagram in decode (cut ++ drop (length cut) (encode m))

module _ (fs : FileSystem) where
  abbrev pub C : Type 0 → Type 0
  C A = Client fs → A × Client fs

  send_with : List Bool → Bytes → C ErrorCode
  send_with [] b s = (success, record s { outbox = s.outbox ++ (s.server_addr, b) ∷ [] })
  send_with (ok ∷ rest) b s =
      if ok
      then (success, record s { send_results = rest; outbox = s.outbox ++ (s.server_addr, b) ∷ [] })
      else (socket_send_error, record s { send_results = rest })

  unfoldable pub send_datagram : Bytes → C ErrorCode
  unfolding send_with
  send_datagram b s = send_with s.send_results b s

  -- `sendCommand`.
  unfoldable pub send_command : CmdMsg → C ErrorCode
  send_command m = send_datagram (encode m)

  -- `sendData`.
  unfoldable pub send_data : Bytes → C ErrorCode
  send_data b = send_datagram b

  -- An empty datagram counts as a timeout too (`recvLen <= 0`).
  receive_with : List (Option (ℕ × Bytes)) → C (Option Bytes)
  receive_with [] s = (none, s)
  receive_with (none ∷ rest) s = (none, record s { inbox = rest })
  receive_with (some (a, []) ∷ rest) s = (none, record s { inbox = rest; server_addr = a })
  receive_with (some (a, c ∷ b) ∷ rest) s =
      (some (c ∷ b), record s { inbox = rest; server_addr = a })

  unfoldable pub receive_datagram : C (Option Bytes)
  unfolding receive_with
  receive_datagram s = receive_with s.inbox s

  -- The next step if the one before succeeded, and its error otherwise.
  unfoldable pub when_sent : C ErrorCode → ErrorCode → C ErrorCode
  when_sent next result = if is_success result then next else pure result

  unfoldable pub sending : C ErrorCode → C ErrorCode → C ErrorCode
  sending send next = do result ← send; when_sent next result

  unfoldable pub when_received : (Bytes → C ErrorCode) → Option Bytes → C ErrorCode
  when_received next none = pure timeout
  when_received next (some b) = next b

  -- `receiveResponse` into `m`, and its use.
  unfoldable pub receive_response : CmdMsg → (CmdMsg → C ErrorCode) → C ErrorCode
  receive_response m next = do b ← receive_datagram; when_received (λ d. next (receive_into m d)) b

  answer_with : List Bytes → C Bytes
  answer_with [] s = ([], s)
  answer_with (a ∷ rest) s = (a, record s { answers = rest })

  -- The user's answer to a question; an empty text at the end of the input.
  unfoldable pub read_answer : C Bytes
  unfolding answer_with
  read_answer s = answer_with s.answers s
