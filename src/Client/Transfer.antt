-- ===== src/Client/Transfer.antt =====
-- `sendSmallFile` and `sendLargeFile`.
use computer_network_lab.Prelude.{
  ℕ, zero, suc, ◌+◌, ◌-◌, Bool, false, not, ◌&&◌, ◌||◌, Option, none, some, List, [], ◌∷◌, ◌++◌,
  if◌then◌else◌, Bytes, length, take, drop, ltb, ◌==◌, min,
}
use computer_network_lab.Errors.{
  ErrorCode, success, file_open_error, file_write_error, socket_create_error, socket_connect_error,
  socket_send_error,
}
use computer_network_lab.Message.{
  CmdMsg, Command, command_code, get_command, new_cmd_msg, new_data_msg, data_buf_len,
}
use computer_network_lab.FileSystem.{FileSystem}
use computer_network_lab.Server.State.{◌>>=◌, pure}
use computer_network_lab.Client.{Connection, C, send_data, sending, receive_response}

-- `file.read(buffer, n)`: the file's next bytes over what the buffer holds.
unfoldable pub read_over : ℕ → Bytes → Bytes → Bytes
read_over n content buffer = let chunk = take n content in chunk ++ drop (length chunk) buffer

-- How the loop that sends a file ends; `still_sending` where the fuel does not suffice.
pub data SendOutcome : Type 0 where
  all_sent send_failed still_sending : SendOutcome

abbrev pub buffer_size : ℕ
buffer_size = 3000

-- What `send` makes of `size` bytes: how many it takes, or an error.
unfoldable pub next_send : List (Option ℕ) → ℕ → Option ℕ
next_send [] size = some size
next_send (none ∷ results) size = none
next_send (some n ∷ results) size = some (min n size)

-- The bytes that a `send` took, in front of those that the later ones take.
unfoldable pub after_send : Option ℕ → Bytes → SendOutcome × Bytes → SendOutcome × Bytes
after_send none filled later = (send_failed, [])
after_send (some n) filled later = (later.0, take n filled ++ later.1)

-- `bytesSent += sent`.
unfoldable pub count_sent : ℕ → Option ℕ → ℕ
count_sent bytes_sent none = bytes_sent
count_sent bytes_sent (some n) = bytes_sent + n

-- The loop of `sendLargeFile`: the next bytes are read whether or not the last `send` took all of
-- its own. It gives the bytes that the connection took.
unfoldable pub send_loop : ℕ → List (Option ℕ) → ℕ → Bytes → ℕ → Bytes → SendOutcome × Bytes
send_loop zero results filesize content bytes_sent buffer =
    if ltb bytes_sent filesize then (still_sending, []) else (all_sent, [])
send_loop (suc fuel) results filesize content bytes_sent buffer =
    let size = min buffer_size (filesize - bytes_sent) in
    let filled = read_over size content buffer in
    let result = next_send results size in
    let later =
      send_loop fuel (drop 1 results) filesize (drop size content) (count_sent bytes_sent result)
        filled in
    if ltb bytes_sent filesize then after_send result filled later else (all_sent, [])

-- Enough fuel: every round uses a given result or takes a byte at least.
unfoldable pub send_file : List (Option ℕ) → ℕ → Bytes → Bytes → SendOutcome × Bytes
send_file results filesize content buffer =
    send_loop (length results + filesize) results filesize content 0 buffer

-- An acknowledgement without error.
unfoldable pub is_ack_ok : CmdMsg → Bool
is_ack_ok m = command_code (get_command m) == command_code Command.ack && (m.error == 0)

module _ (fs : FileSystem) where
  -- The end of both transfers: the server's acknowledgement.
  unfoldable pub await_ack : C fs ErrorCode
  await_ack =
      receive_response fs new_cmd_msg
        (λ m. if is_ack_ok m then pure success else pure file_write_error)

  unfoldable pub send_small_file : Bytes → ℕ → C fs ErrorCode
  send_small_file filepath filesize s = elim (fs.regular s.disk filepath) [
    | none ↦ (file_open_error, s)
    | some content ↦
        sending fs (send_data fs (take data_buf_len (read_over filesize content new_data_msg)))
          (await_ack)
          (record s { overrun = s.overrun || ltb data_buf_len (min filesize (length content)) })
  ]

  -- What follows the loop. `still_sending` has no counterpart in the code.
  unfoldable pub finish_large : SendOutcome → C fs ErrorCode
  finish_large all_sent = await_ack
  finish_large send_failed = pure socket_send_error
  finish_large still_sending = pure socket_send_error

  connection_with : List Connection → C fs Connection
  connection_with [] s = (record { created = false; connected = false; sends = []; junk = [] }, s)
  connection_with (c ∷ rest) s = (c, record s { connections = rest })

  unfoldable pub next_connection : C fs Connection
  unfolding connection_with
  next_connection s = connection_with s.connections s

  -- What follows `connect`.
  unfoldable pub send_over : Bytes → ℕ → ℕ → Connection → C fs ErrorCode
  send_over filepath filesize tcp_port connection s = elim (fs.regular s.disk filepath) [
    | none ↦ (file_open_error, s)
    | some content ↦
        let (outcome, sent) = send_file connection.sends filesize content connection.junk in
        finish_large outcome (record s { streams = s.streams ++ (tcp_port, sent) ∷ [] })
  ]

  unfoldable pub send_connected : Bytes → ℕ → ℕ → Connection → C fs ErrorCode
  send_connected filepath filesize tcp_port connection =
      if not connection.created
      then pure socket_create_error
      else if not connection.connected
      then pure socket_connect_error
      else send_over filepath filesize tcp_port connection

  unfoldable pub send_large_file : Bytes → ℕ → ℕ → C fs ErrorCode
  send_large_file filepath filesize tcp_port = do
    connection ← next_connection
    send_connected filepath filesize tcp_port connection
