-- ===== src/Labs/Dialogue.antt =====
-- original-labs: uploads with the client and the server together. Each receives what the other
-- sends; the server's socket does not block, so what the client sends only after an answer is not
-- there before the next round.
use computer_network_lab.Prelude.{
  ℕ, ◌+◌, ◌≤◌, ◌<◌, ◌≡◌, ◌∙◌, ap, refl, true, false, Option, none, some, List, [], ◌∷◌, ◌++◌,
  append_assoc, length, Bytes, replicate,
}
use computer_network_lab.FileSystem.{FileSystem, IsPosix}
use computer_network_lab.Server.State.{TcpSession}
use computer_network_lab.Server.Streams.{stream}
use computer_network_lab.Client.{Connection}
use computer_network_lab.Client.Sending.{AllTaken}
use computer_network_lab.Client.Delivery.{received_whole}
use computer_network_lab.Filename.{is_empty}
use computer_network_lab.Message.{c_string}
use computer_network_lab.Client.Transfer.{read_over}
use computer_network_lab.Labs.{
  Platform, IsPlatform, CmdMsgT, Datagram, command, content, copy_name, backup_path, cmd_ack,
  cmd_file_exists, cmd_overwrite,
}
use computer_network_lab.Labs.Server.{Lab, waiting, check_file}
use computer_network_lab.Labs.Server.Loop.{lab_round}
use computer_network_lab.Labs.Server.Sends.{
  waits_for, serving, round_send_early, round_send_taken, round_overwrite_small, round_send_large,
  IsOpen,
}
use computer_network_lab.Labs.Client.{LabClient, server_ready, completed}
use computer_network_lab.Labs.Client.Sending.{send_request, request_send}
use computer_network_lab.Labs.Client.Sends.{
  types, request_send_small, request_send_overwrites, request_send_large,
}

-- The path under which the server keeps a file of the client.
abbrev pub kept_as : {fs : FileSystem} → Platform fs → Bytes → Bytes
kept_as p name = backup_path (c_string (copy_name p.file_name_len name))

module _ (fs : FileSystem) (p : Platform fs) (laws : IsPlatform fs p) (junk : CmdMsgT) where
  -- A file that fits into one message is offered under a name that is free, and nothing else is
  -- queued yet: the server answers with error 1 and stores nothing; the client sends the data all
  -- the same, after that answer.
  pub small_file_refused :
      (name text : Bytes) (a : ℕ) (rest : List (Option (ℕ × Datagram))) (s : Lab fs)
      (words : List Bytes) (later : List (Option Datagram)) (c : LabClient fs)
      → fs.regular c.disk name ≡ some text
      → length text ≤ p.data_buf_len
      → check_file fs s.disk (kept_as p name) ≡ false
      → let request = command (send_request p name (length text)) in
        let refusal = command (record s.ack_msg { cmd = cmd_ack; error = 1 }) in
        let t = lab_round fs p junk (waits_for (some (a, request) ∷ none ∷ rest) s) in
        let u = (request_send fs p (types (name ∷ words) (some refusal ∷ later) c)).1 in
        (t.disk ≡ s.disk)
        × (t.outbox ≡ s.outbox ++ (a, refusal) ∷ [])
        × (u.outbox
            ≡ c.outbox
              ++ request ∷ content (read_over (length text) text (replicate p.data_buf_len 0)) ∷ [])
  unfolding send_request
  small_file_refused name text a rest s words later c h small free =
      let (kept, answer) =
        round_send_early fs p laws junk a (copy_name p.file_name_len name) (length text) rest s free
          small in
      (
        kept,
        answer,
        request_send_small fs p laws name text words (record s.ack_msg { cmd = 7; error = 1 }) later
            c h small refl,
      )

  -- A file that fits into one message is offered under a name that is taken, and the user wants to
  -- overwrite it: both sides go through the dialogue without an error, the client reports that the
  -- server is ready, and nothing of the file is sent or stored.
  pub overwrite_lost :
      (name text : Bytes) (a : ℕ) (rest : List (Option (ℕ × Datagram))) (s : Lab fs)
      (words : List Bytes) (later : List (Option Datagram)) (c : LabClient fs)
      → fs.regular c.disk name ≡ some text
      → length text ≤ p.data_buf_len
      → check_file fs s.disk (kept_as p name) ≡ true
      → is_empty (c_string (copy_name p.file_name_len name)) ≡ false
      → let request = command (send_request p name (length text)) in
        let question : Datagram =
          command (record s.ack_msg { cmd = cmd_file_exists; error = 0; size = length text }) in
        let confirmed : Datagram = command (record {
          cmd = cmd_overwrite;
          filename = copy_name p.file_name_len name;
          size = length text;
          error = 0;
        }) in
        let ready : Datagram =
          command (record s.ack_msg { cmd = cmd_ack; error = 0; size = length text }) in
        let inbox = some (a, request) ∷ some (a, confirmed) ∷ rest in
        let t = lab_round fs p junk (lab_round fs p junk (waits_for inbox s)) in
        let answers = some question ∷ some ready ∷ later in
        let u = (request_send fs p (types (name ∷ (b'y' ∷ []) ∷ words) answers c)).1 in
        (t.disk ≡ s.disk)
        × (t.outbox ≡ s.outbox ++ (a, question) ∷ (a, ready) ∷ [])
        × (u.outbox ≡ c.outbox ++ request ∷ confirmed ∷ [])
        × (u.streams ≡ c.streams)
        × (u.reports ≡ c.reports ++ server_ready ∷ [])
  unfolding send_request
  overwrite_lost name text a rest s words later c h small taken named =
      let stored = copy_name p.file_name_len name in
      let reply : CmdMsgT = record s.ack_msg { cmd = 9; error = 0; size = length text } in
      let confirm : CmdMsgT = record {
        cmd = 10;
        filename = stored;
        size = length text;
        error = 0;
      } in
      let asked =
        round_send_taken fs p laws junk a stored (length text) (some (a, command confirm) ∷ rest) s
          taken in
      let between : Lab fs =
        record (serving a (send_request p name (length text)) waiting
          (some (a, command confirm) ∷ rest) s) {
            ack_msg = reply;
            outbox = s.outbox ++ (a, command reply) ∷ [];
          } in
      let done =
        ap (lab_round fs p junk) asked
        ∙ round_overwrite_small fs p laws junk a stored (length text) rest between named small in
      let (sent, streamed, printed) =
        request_send_overwrites fs p laws name text words reply
          (record reply { cmd = 7; error = 0 }) later c h small refl refl in
      (
        ap (λ (x : Lab fs). x.disk) done,
        ap (λ (x : Lab fs). x.outbox) done
            ∙ append_assoc s.outbox ((a, command reply) ∷ [])
                ((a, command (record reply { cmd = 7; error = 0 })) ∷ []),
        sent,
        streamed,
        printed,
      )

  -- A file of more than one message arrives whole, under a name that is free: the server listens on
  -- its next port and sends it, the client streams the file to that port, and over a connection that
  -- takes all that it is given and brings it in any pieces the server writes exactly the file; the
  -- client reports that the transmission is completed, and the server moves on to the next port.
  pub large_file_arrives :
      (posix : IsPosix fs) (name text : Bytes) (a : ℕ) (rest : List (Option (ℕ × Datagram)))
      (session : TcpSession) (chunks : List Bytes) (sessions : List TcpSession) (d : fs.Disk)
      (s : Lab fs) (words : List Bytes) (later : List (Option Datagram)) (connection : Connection)
      (connections : List Connection) (c : LabClient fs)
      → fs.regular c.disk name ≡ some text
      → p.data_buf_len < length text
      → check_file fs s.disk (kept_as p name) ≡ false
      → fs.create s.disk (kept_as p name) ≡ some d
      → IsOpen session chunks
      → (connection.created ≡ true) × (connection.connected ≡ true)
      → AllTaken connection.sends
      → stream chunks ≡ text
      → let request : Datagram = command (send_request p name (length text)) in
        let ack : Datagram =
          command (record s.ack_msg { cmd = cmd_ack; error = 0; size = s.current_tcp_port }) in
        let t =
          lab_round fs p junk
            (waits_for (some (a, request) ∷ rest) (record s { sessions = session ∷ sessions })) in
        let u = request_send fs p (
          types
            (name ∷ words)
            (some ack ∷ some ack ∷ later)
            (record c { connections = connection ∷ connections })) in
        (fs.regular t.disk (kept_as p name) ≡ some text)
        × (t.outbox ≡ s.outbox ++ (a, ack) ∷ (a, ack) ∷ [])
        × (t.current_tcp_port ≡ s.current_tcp_port + 1)
        × (u.1.outbox ≡ c.outbox ++ request ∷ [])
        × (u.1.streams ≡ c.streams ++ (s.current_tcp_port, text) ∷ [])
        × (u.1.reports ≡ c.reports ++ completed ∷ [])
  unfolding send_request
  large_file_arrives posix name text a rest session chunks sessions d s words later connection
        connections c h large free created opened connected taken brought =
      let (stored, answers, port) =
        round_send_large fs p laws junk a (copy_name p.file_name_len name) (length text) rest
          session chunks sessions d s free large opened created in
      let (sent, streamed, printed) =
        request_send_large fs p laws name text words s.ack_msg.filename s.current_tcp_port
          connection connections later c h large connected taken in
      let path = kept_as p name in
      let whole =
        received_whole fs posix path text chunks d (posix.create_self s.disk path created)
          brought in
      (
        ap (λ (e : fs.Disk). fs.regular e path) stored ∙ whole.0,
        answers,
        port,
        sent,
        streamed,
        printed,
      )
