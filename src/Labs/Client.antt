-- ===== src/Labs/Client.antt =====
-- original-labs/client.cc: the state of `main` with its surroundings, and what the commands share.
pub mod Sending
pub mod Commands
pub mod Loop
pub mod Sends
use computer_network_lab.Prelude.{
  ℕ, ◌&&◌, ◌==◌, Bool, true, false, Option, none, some, List, [], ◌∷◌, ◌++◌, if◌then◌else◌, Bytes,
}
use computer_network_lab.FileSystem.{FileSystem}
use computer_network_lab.Client.{Connection}
use computer_network_lab.Labs.{CmdMsgT, Datagram, cmd_ack}

-- `Client_State_T`.
pub data Stage : Type 0 where
  waiting process_ls process_send process_get process_remove process_rename shutdown quit : Stage

-- What is printed; the errors of calls on sockets are one.
pub data Report : Type 0 where
  wrong_command socket_error no_answer : Report
  folder_empty : Report
  file_list : List Bytes → Report
  file_not_found : Report
  cancelled unexpected_response server_ready : Report
  completed not_completed file_sent file_not_sent : Report
  removed not_on_server not_removed : Report
  no_source rename_cancelled renamed : Report
  server_shutdown : Report

-- The variables of `main`, and what it meets: the words that the user types, what each receive finds
-- in turn (nothing at a timeout), the results of `sendto`, and of the calls for each TCP transfer.
-- `streams` is what the connections took, with their ports. `junk` is what a local message holds
-- that is not initialised.
pub record LabClient (fs : FileSystem) : Type 0 where
  pub disk : fs.Disk
  pub words : List Bytes
  pub inbox : List (Option Datagram)
  pub send_results : List Bool
  pub outbox : List Datagram
  pub connections : List Connection
  pub streams : List (ℕ × Bytes)
  pub reports : List Report
  pub client_state : Stage
  pub in_cmd : Bytes
  pub filename : Bytes
  pub new_filename : Bytes
  pub cmd_msg : CmdMsgT
  pub data_msg : Bytes
  pub port_msg : CmdMsgT
  pub junk : CmdMsgT
  pub ended : Bool

-- An acknowledgement without error.
unfoldable pub is_done : CmdMsgT → Bool
is_done m = (m.cmd == cmd_ack) && (m.error == 0)

module _ (fs : FileSystem) where
  abbrev pub K : Type 0 → Type 0
  K A = LabClient fs → A × LabClient fs

  abbrev pub print : Report → K (Unit {0})
  print r s = (tt, record s { reports = s.reports ++ r ∷ [] })

  -- `cin >>` of a word: where no word is left, the variable keeps its value.
  word_or : Bytes → List Bytes → K Bytes
  word_or old [] s = (old, s)
  word_or old (w ∷ rest) s = (w, record s { words = rest })

  unfoldable pub read_word : Bytes → K Bytes
  unfolding word_or
  read_word old s = word_or old s.words s

  letter_of : List Bytes → K ℕ
  letter_of [] s = (0, s)
  letter_of ([] ∷ rest) s = (0, record s { words = rest })
  letter_of ((c ∷ []) ∷ rest) s = (c, record s { words = rest })
  letter_of ((c ∷ d ∷ w) ∷ rest) s = (c, record s { words = (d ∷ w) ∷ rest })

  -- `cin >>` of a character: the rest of its word stays.
  unfoldable pub read_letter : K ℕ
  unfolding letter_of
  read_letter s = letter_of s.words s

  send_with : List Bool → Datagram → K Bool
  send_with [] b s = (true, record s { outbox = s.outbox ++ b ∷ [] })
  send_with (ok ∷ rest) b s =
      if ok
      then (true, record s { send_results = rest; outbox = s.outbox ++ b ∷ [] })
      else (false, record s { send_results = rest })

  -- `sendto` the server; whether it succeeds.
  unfoldable pub send_server : Datagram → K Bool
  unfolding send_with
  send_server b s = send_with s.send_results b s

  receive_with : List (Option Datagram) → K (Option Datagram)
  receive_with [] s = (none, s)
  receive_with (b ∷ rest) s = (b, record s { inbox = rest })

  -- `recvfrom`, up to the timeout.
  unfoldable pub receive_server : K (Option Datagram)
  unfolding receive_with
  receive_server s = receive_with s.inbox s

  take_with : List Connection → K Connection
  take_with [] s = (record { created = false; connected = false; sends = []; junk = [] }, s)
  take_with (c ∷ rest) s = (c, record s { connections = rest })

  unfoldable pub take_connection : K Connection
  unfolding take_with
  take_connection s = take_with s.connections s

  -- The next step if the message was sent, and the error otherwise.
  unfoldable pub if_sent : K (Unit {0}) → Bool → K (Unit {0})
  if_sent next sent = if sent then next else print socket_error

  -- The use of a received datagram, and the error if none came.
  unfoldable pub if_received : (Datagram → K (Unit {0})) → Option Datagram → K (Unit {0})
  if_received next none = print no_answer
  if_received next (some b) = next b
