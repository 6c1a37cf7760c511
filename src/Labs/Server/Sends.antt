-- ===== src/Labs/Server/Sends.antt =====
-- original-labs/server.cc: what the loop does with the commands of an upload.
use computer_network_lab.Prelude.{
  ℕ, ◌≤◌, ◌<◌, ◌≡◌, ap, refl, true, false, Option, none, some, List, [], ◌∷◌, ◌++◌, Bytes, le→leb,
  ltb, ltb-false, suc, ◌||◌, ◌+◌, lt→leb_false, append_assoc,
}
use computer_network_lab.FileSystem.{FileSystem}
use computer_network_lab.Message.{c_string}
use computer_network_lab.Filename.{is_empty}
use computer_network_lab.Server.State.{TcpSession}
use computer_network_lab.Server.Transfer.{receive_loop}
use computer_network_lab.Labs.{
  Platform, IsPlatform, CmdMsgT, Datagram, command, backup_path, cmd_ack, cmd_file_exists,
}
use computer_network_lab.Labs.Server.{
  Lab, Phase, waiting, acknowledge, acknowledge_size, check_file, receive_from, send_to,
  take_session,
}
use computer_network_lab.Labs.Server.Commands.{
  store_file, serve_send, receive_small, save_received, serve_overwrite, receive_large,
  receive_session, save_accepted, save_large,
}
use computer_network_lab.Labs.Server.Loop.{
  select_command, take_datagram, serve_phase, serve_current, lab_round,
}

-- The server in WAITING, for which these receives are to come; every `sendto` succeeds.
abbrev pub waits_for : {fs : FileSystem} → List (Option (ℕ × Datagram)) → Lab fs → Lab fs
waits_for inbox s = record s { inbox = inbox; send_results = []; server_state = waiting }

-- The state in which the command is served.
abbrev pub serving :
    {fs : FileSystem} → ℕ → CmdMsgT → Phase → List (Option (ℕ × Datagram)) → Lab fs → Lab fs
serving a m phase rest s = record s {
  inbox = rest;
  send_results = [];
  client_addr = a;
  server_state = phase;
  cmd_msg = m;
  overread = s.overread || ltb 11 (suc m.cmd);
}

-- The calls for the transfer succeed, and the connection brings these pieces.
pub record IsOpen (session : TcpSession) (chunks : List Bytes) : Type 0 where
  pub created : session.created ≡ true
  pub bound : session.bound ≡ true
  pub listening : session.listening ≡ true
  pub accepted : session.accepted ≡ some chunks

module _ (fs : FileSystem) (p : Platform fs) (laws : IsPlatform fs p) (junk : CmdMsgT) where
  -- A round that finds a command message.
  pub round_command :
      (a : ℕ) (m : CmdMsgT) (rest : List (Option (ℕ × Datagram))) (s : Lab fs)
      → lab_round fs p junk (waits_for (some (a, command m) ∷ rest) s)
        ≡ (serve_current fs p junk (select_command fs p (serving a m waiting rest s)).1).1
  unfolding lab_round take_datagram receive_from
  round_command a m rest s =
      ap
        (λ (x : CmdMsgT).
          (serve_current fs p junk (select_command fs p (serving a x waiting rest s)).1).1)
        (laws.read_cmd_whole s.cmd_msg m)

  -- An upload is offered, the name is free, and its data is not there yet.
  pub round_send_early :
      (a : ℕ) (name : Bytes) (size : ℕ) (rest : List (Option (ℕ × Datagram))) (s : Lab fs)
      → check_file fs s.disk (backup_path (c_string name)) ≡ false
      → size ≤ p.data_buf_len
      → let m : CmdMsgT = record { cmd = 2; filename = name; size = size; error = 0 } in
        let ack : CmdMsgT = record s.ack_msg { cmd = cmd_ack; error = 1 } in
        let t = lab_round fs p junk (waits_for (some (a, command m) ∷ none ∷ rest) s) in
        (t.disk ≡ s.disk) × (t.outbox ≡ s.outbox ++ (a, command ack) ∷ [])
  unfolding select_command serve_current serve_phase serve_send store_file receive_small
      save_received receive_from acknowledge send_to
  round_send_early a name size rest s free small =
      let m : CmdMsgT = record { cmd = 2; filename = name; size = size; error = 0 } in
      rw (round_command a m (none ∷ rest) s, free, le→leb size p.data_buf_len small) (refl, refl)

  -- An upload is offered of a name that is taken.
  pub round_send_taken :
      (a : ℕ) (name : Bytes) (size : ℕ) (rest : List (Option (ℕ × Datagram))) (s : Lab fs)
      → check_file fs s.disk (backup_path (c_string name)) ≡ true
      → let m : CmdMsgT = record { cmd = 2; filename = name; size = size; error = 0 } in
        let reply : CmdMsgT = record s.ack_msg { cmd = cmd_file_exists; error = 0; size = size } in
        lab_round fs p junk (waits_for (some (a, command m) ∷ rest) s)
        ≡ record (serving a m waiting rest s) {
          ack_msg = reply;
          outbox = s.outbox ++ (a, command reply) ∷ [];
        }
  unfolding select_command serve_current serve_phase serve_send store_file acknowledge_size send_to
  round_send_taken a name size rest s taken =
      let m : CmdMsgT = record { cmd = 2; filename = name; size = size; error = 0 } in
      rw (round_command a m rest s, taken)

  -- The confirmation for a file that fits into one message.
  pub round_overwrite_small :
      (a : ℕ) (name : Bytes) (size : ℕ) (rest : List (Option (ℕ × Datagram))) (s : Lab fs)
      → is_empty (c_string name) ≡ false
      → size ≤ p.data_buf_len
      → let m : CmdMsgT = record { cmd = 10; filename = name; size = size; error = 0 } in
        let ack : CmdMsgT = record s.ack_msg { cmd = cmd_ack; error = 0 } in
        lab_round fs p junk (waits_for (some (a, command m) ∷ rest) s)
        ≡ record (serving a m waiting rest s) {
          ack_msg = ack;
          outbox = s.outbox ++ (a, command ack) ∷ [];
        }
  unfolding select_command serve_current serve_phase serve_overwrite acknowledge send_to
  round_overwrite_small a name size rest s named small =
      let m : CmdMsgT = record { cmd = 10; filename = name; size = size; error = 0 } in
      rw (round_command a m rest s, named, ltb-false size p.data_buf_len small)

  -- An upload over TCP of a name that is free, over a connection that opens: the port, what the
  -- loop writes, and the last acknowledgement.
  pub round_send_large :
      (a : ℕ) (name : Bytes) (size : ℕ) (rest : List (Option (ℕ × Datagram))) (session : TcpSession)
      (chunks : List Bytes) (later : List TcpSession) (d : fs.Disk) (s : Lab fs)
      → let path = backup_path (c_string name) in
        let m : CmdMsgT = record { cmd = 2; filename = name; size = size; error = 0 } in
        let offer : CmdMsgT = record s.ack_msg {
          cmd = cmd_ack;
          error = 0;
          size = s.current_tcp_port;
        } in
        let t =
          lab_round fs p junk
            (waits_for (some (a, command m) ∷ rest) (record s { sessions = session ∷ later })) in
        check_file fs s.disk path ≡ false
        → p.data_buf_len < size
        → IsOpen session chunks
        → fs.create s.disk path ≡ some d
        → (t.disk ≡ (receive_loop fs path size chunks 0 d).1)
          × (t.outbox ≡ s.outbox ++ (a, command offer) ∷ (a, command offer) ∷ [])
          × (t.current_tcp_port ≡ s.current_tcp_port + 1)
  unfolding select_command serve_current serve_phase serve_send store_file receive_large
      take_session receive_session acknowledge_size save_accepted save_large acknowledge send_to
  round_send_large a name size rest session chunks later d s free large opened created =
      let m : CmdMsgT = record { cmd = 2; filename = name; size = size; error = 0 } in
      let offer : CmdMsgT = record s.ack_msg { cmd = 7; error = 0; size = s.current_tcp_port } in
      simp
        (
          round_command a m rest (record s { sessions = session ∷ later }),
          free,
          lt→leb_false p.data_buf_len size large,
          opened.created,
          opened.bound,
          opened.listening,
          opened.accepted,
        )
        (rw (created, save_large)
          (refl, append_assoc s.outbox ((a, command offer) ∷ []) ((a, command offer) ∷ []), refl))
