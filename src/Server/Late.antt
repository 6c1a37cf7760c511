-- ===== src/Server/Late.antt =====
-- The main loop of server/server.cpp with a client that sends its data after the acknowledgement.
use computer_network_lab.Prelude.{ℕ, ◌≤◌, ◌≡◌, refl, true, false, List, [], ◌∷◌, Bytes}
use computer_network_lab.FileSystem.{FileSystem, file_exists, create_directory}
use computer_network_lab.Filename.{is_valid_filename}
use computer_network_lab.Errors.{is_success, socket_recv_error}
use computer_network_lab.Message.{
  CmdMsg, Command, command_code, command_to_string, encode, get_command, name_of, receive_cmd,
  data_buf_len,
}
use computer_network_lab.Metrics.{record_request}
use computer_network_lab.Server.State.{
  State, ServerConfig, Arrival, TcpSession, queued, later, reply, process_send, waiting,
}
use computer_network_lab.Server.Handlers.{path_of, handle_send, process_command, dispatch}
use computer_network_lab.Server.Uploads.{ack_ok, handle_send_later}
use computer_network_lab.Server.Loop.{
  UdpSetup, new_server, initialize, round, take_arrival, handle_datagram, handle_message,
  count_failure, end_round,
}

module _ (fs : FileSystem) (config : ServerConfig) where
  end_send :
      (cmd : CmdMsg) (s : State fs)
      → get_command cmd ≡ Command.send
      → s.state ≡ process_send
      → let t = (end_round fs config (count_failure fs config cmd socket_recv_error s).1).1 in
        (t.disk ≡ s.disk) × (t.inbox ≡ s.inbox) × (t.outbox ≡ s.outbox) × (t.state ≡ waiting)
  unfolding count_failure end_round command_code is_success
  end_send cmd s h k = rw (h, k) (refl, refl, refl, refl)

  process_send-eq :
      (cmd : CmdMsg) (s : State fs)
      → get_command cmd ≡ Command.send
      → process_command fs config cmd s
        ≡ handle_send fs config cmd (record s { state = process_send })
  unfolding process_command dispatch
  process_send-eq cmd s kind = rw kind refl

  -- The state in which SEND is handled.
  abbrev entered : CmdMsg → State fs → State fs
  entered cmd s = record s {
    metrics = record_request (command_to_string (get_command cmd)) s.metrics;
    state = process_send;
  }

  -- A SEND that finds no data.
  send_fails :
      (cmd : CmdMsg) (s v : State fs)
      → get_command cmd ≡ Command.send
      → handle_send fs config cmd (entered cmd s) ≡ (socket_recv_error, v)
      → v.state ≡ process_send
      → let t = (handle_message fs config cmd s).1 in
        (t.disk ≡ v.disk) × (t.inbox ≡ v.inbox) × (t.outbox ≡ v.outbox) × (t.state ≡ waiting)
  unfolding handle_message
  send_fails cmd s v kind e k = rw (process_send-eq cmd _ kind, e) (end_send cmd v kind k)

  -- A server that was made, with both calls for its socket, by the constructor and `initialize`, and on
  -- which no `sendto` fails, takes a SEND of a new file with a valid name and at most 3000 bytes, and
  -- the client sends the data only after the first acknowledgement. Then the first round of the main
  -- loop does not wait for it: it answers without an error and then with error 1, no file is changed,
  -- and the data is left in the queue for the next round.
  pub late_data_left :
      (setup : UdpSetup) (disk : fs.Disk) (sessions : List TcpSession) (c : ℕ) (m : Bytes)
      {client sender : ℕ} {b : Bytes} {rest : List Arrival}
      → setup.created ≡ true
      → setup.bound ≡ true
      → get_command (receive_cmd (c ∷ m)) ≡ Command.send
      → is_valid_filename (name_of (receive_cmd (c ∷ m))) ≡ true
      → file_exists fs
          (create_directory fs disk config.backup_dir).1
          (path_of fs config (name_of (receive_cmd (c ∷ m))))
        ≡ false
      → (receive_cmd (c ∷ m)).size ≤ data_buf_len
      → let s =
          (initialize fs config setup (
            new_server fs config disk
              (queued client (c ∷ m) ∷ later sender b ∷ rest)
              []
              sessions)).1 in
        let t = round fs config s in
        (t.disk ≡ s.disk)
        × (t.inbox ≡ queued sender b ∷ rest)
        × (t.outbox ≡ (client, encode ack_ok) ∷ (client, encode (reply Command.ack 1 0)) ∷ [])
        × (t.state ≡ waiting)
  unfolding initialize new_server round take_arrival handle_datagram
  late_data_left setup disk sessions c m {client} {sender} {b} {rest} created bound kind valid fresh
        small =
      let cmd = receive_cmd (c ∷ m) in
      let u : State fs = record (new_server fs config disk (later sender b ∷ rest) [] sessions) {
        nonblocking = true;
        disk = (create_directory fs disk config.backup_dir).1;
        client_addr = client;
      } in
      rw (created, bound)
        (send_fails cmd u _ kind
          (handle_send_later fs config cmd (entered cmd u) valid fresh small refl refl refl) refl)
