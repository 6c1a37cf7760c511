-- ===== src/Labs/Client/Sending.antt =====
-- original-labs/client.cc: PROCESS_SEND.
use computer_network_lab.Prelude.{
  ℕ, Bool, not, ◌&&◌, ◌||◌, ◌+◌, ltb, ◌==◌, if◌then◌else◌, Option, none, some, [], ◌∷◌, ◌++◌, Bytes,
  length, replicate,
}
use computer_network_lab.FileSystem.{FileSystem}
use computer_network_lab.Server.State.{◌>>=◌, ◌>>◌}
use computer_network_lab.Client.{Connection}
use computer_network_lab.Client.Transfer.{read_over, send_file}
use computer_network_lab.Labs.{
  Platform, CmdMsgT, Datagram, command, content, copy_name, cmd_send, cmd_ack, cmd_file_exists,
  cmd_overwrite,
}
use computer_network_lab.Labs.Client.{
  LabClient, K, take_connection, print, read_word, read_letter, send_server, receive_server,
  if_sent, if_received, is_done, socket_error, file_not_found, cancelled, unexpected_response,
  server_ready, completed, not_completed, file_sent, file_not_sent, no_answer,
}

-- `tolower(answer) == 'y'`.
unfoldable pub is_yes : ℕ → Bool
is_yes c = (c == b'y') || (c == b'Y')

module _ (fs : FileSystem) where
  -- The loop that sends the file, which is read on from its start.
  unfoldable pub stream_file : ℕ → ℕ → Bytes → Connection → K fs (Unit {0})
  stream_file tcp_port filesize text connection s =
      let taken = (send_file connection.sends filesize text connection.junk).1 in
      (tt, record s { streams = s.streams ++ (tcp_port, taken) ∷ [] })

-- The command that offers a file.
unfoldable pub send_request : {fs : FileSystem} → Platform fs → Bytes → ℕ → CmdMsgT
send_request p name filesize = record {
  cmd = cmd_send;
  filename = copy_name p.file_name_len name;
  size = filesize;
  error = 0;
}

module _ (fs : FileSystem) (p : Platform fs) where
  -- The last acknowledgement of a transfer over TCP, received into `port_msg`.
  unfoldable pub take_completion : Datagram → K fs (Unit {0})
  take_completion b s =
      let m = p.read_cmd s.port_msg b in
      print fs (if is_done m then completed else not_completed) (record s { port_msg = m })

  unfoldable pub await_completion : K fs (Unit {0})
  await_completion = do b ← receive_server fs; if_received fs take_completion b

  unfoldable pub stream_over : ℕ → ℕ → Bytes → Connection → K fs (Unit {0})
  stream_over tcp_port filesize text connection =
      if connection.created && connection.connected
      then (do stream_file fs tcp_port filesize text connection; await_completion)
      else print fs socket_error

  -- The transfer over TCP, to the port that the server gave.
  unfoldable pub send_stream : ℕ → ℕ → Bytes → K fs (Unit {0})
  send_stream tcp_port filesize text = do
    connection ← take_connection fs
    stream_over tcp_port filesize text connection

  -- The last acknowledgement of a transfer in one message, received into a new `ack_msg`.
  unfoldable pub take_ack : Datagram → K fs (Unit {0})
  take_ack b s = print fs (if is_done (p.read_cmd s.junk b) then file_sent else file_not_sent) s

  unfoldable pub await_sent : K fs (Unit {0})
  await_sent = do b ← receive_server fs; if_received fs take_ack b

  -- A file that fits into one message.
  unfoldable pub send_message : ℕ → Bytes → K fs (Unit {0})
  send_message filesize text s =
      let buffer = read_over filesize text (replicate p.data_buf_len 0) in
      (do ok ← send_server fs (content buffer); if_sent fs await_sent ok)
        (record s { data_msg = buffer })

  -- CMD_ACK as the first response: the error is not looked at.
  unfoldable pub send_accepted : ℕ → Bytes → CmdMsgT → K fs (Unit {0})
  send_accepted filesize text response =
      if ltb p.data_buf_len filesize
      then send_stream response.size filesize text
      else send_message filesize text

  -- The port is that of the acknowledgement, or of a message that follows.
  unfoldable pub stream_to_port : ℕ → Bytes → CmdMsgT → K fs (Unit {0})
  stream_to_port filesize text response =
      if (response.cmd == cmd_ack) && ltb 0 response.size
      then send_stream response.size filesize text
      else (do
        b ← receive_server fs
        if_received fs (λ d. send_stream (p.read_cmd response d).size filesize text) b)

  -- The server's response to the confirmation. A small file is not sent.
  unfoldable pub take_ready : ℕ → Bytes → CmdMsgT → Datagram → K fs (Unit {0})
  take_ready filesize text old b =
      let response = p.read_cmd old b in
      if not (response.cmd == cmd_ack) && not (response.cmd == cmd_ack + 10)
      then print fs unexpected_response
      else if ltb p.data_buf_len filesize
      then (do print fs server_ready; stream_to_port filesize text response)
      else print fs server_ready

  -- The message that overwrites, or the one that does not, which is not filled in further.
  unfoldable pub confirmation : ℕ → Bool → LabClient fs → CmdMsgT
  confirmation filesize overwrite s =
      if overwrite
      then record {
        cmd = cmd_overwrite;
        filename = copy_name p.file_name_len s.filename;
        size = filesize;
        error = 0;
      }
      else record s.junk { cmd = cmd_overwrite; error = 1 }

  -- The response to a refusal is only waited for.
  unfoldable pub report_cancelled : Option Datagram → K fs (Unit {0})
  report_cancelled none = do print fs no_answer; print fs cancelled
  report_cancelled (some b) = print fs cancelled

  unfoldable pub await_ready : ℕ → Bytes → CmdMsgT → Bool → K fs (Unit {0})
  await_ready filesize text response overwrite =
      if overwrite
      then (do b ← receive_server fs; if_received fs (take_ready filesize text response) b)
      else (do b ← receive_server fs; report_cancelled b)

  -- CMD_FILE_EXISTS as the first response.
  unfoldable pub ask_overwrite : ℕ → Bytes → CmdMsgT → K fs (Unit {0})
  ask_overwrite filesize text response s =
      let (letter, t) = read_letter fs s in
      (do
        ok ← send_server fs (command (confirmation filesize (is_yes letter) t))
        if_sent fs (await_ready filesize text response (is_yes letter)) ok)
        t

  -- The first response, received into a new `resp_msg`; others than the two are passed over.
  unfoldable pub take_response : ℕ → Bytes → Datagram → K fs (Unit {0})
  take_response filesize text b s =
      let response = p.read_cmd s.junk b in
      if response.cmd == cmd_file_exists
      then ask_overwrite filesize text response s
      else if response.cmd == cmd_ack
      then send_accepted filesize text response s
      else (tt, s)

  unfoldable pub await_response : ℕ → Bytes → K fs (Unit {0})
  await_response filesize text = do
    b ← receive_server fs
    if_received fs (take_response filesize text) b

  -- The command, once the file is open.
  unfoldable pub send_opened : Bytes → K fs (Unit {0})
  send_opened text s =
      let m = send_request p s.filename (length text) in
      (do ok ← send_server fs (command m); if_sent fs (await_response (length text) text) ok)
        (record s { cmd_msg = m })

  unfoldable pub send_named : K fs (Unit {0})
  send_named s = elim (fs.regular s.disk s.filename) [
    | none ↦ print fs file_not_found s
    | some text ↦ send_opened text s
  ]

  -- PROCESS_SEND, up to the return to WAITING.
  unfoldable pub request_send : K fs (Unit {0})
  request_send s =
      let (name, t) = read_word fs s.filename s in send_named (record t { filename = name })
