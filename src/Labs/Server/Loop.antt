-- ===== src/Labs/Server/Loop.antt =====
-- original-labs/server.cc: the start of `main`, and its loop.
use computer_network_lab.Prelude.{
  ℕ, zero, suc, Bool, true, false, ltb, ◌||◌, ◌==◌, if◌then◌else◌, Option, none, some, List, [],
  Bytes, codes, length,
}
use computer_network_lab.FileSystem.{FileSystem}
use computer_network_lab.Server.State.{TcpSession}
use computer_network_lab.Labs.{
  Platform, CmdMsgT, Datagram, cmd_string, cmd_ls, cmd_send, cmd_remove, cmd_rename, cmd_shutdown,
  cmd_overwrite,
}
use computer_network_lab.Labs.Server.{
  Lab, Phase, waiting, process_ls, process_send, process_get, process_remove, process_rename,
  shutdown, L, go_to, receive_from, check_directory, serve_ls,
}
use computer_network_lab.Labs.Server.Commands.{
  serve_send, serve_remove, serve_rename, serve_overwrite,
}

module _ (fs : FileSystem) where
  -- The state before the loop, with what the messages hold that are not initialised.
  unfoldable pub lab_start :
      fs.Disk
      → List (Option (ℕ × Datagram))
      → List Bool
      → List TcpSession
      → CmdMsgT
      → Bytes
      → Lab fs
  lab_start disk inbox send_results sessions junk junk_data = record {
    disk = check_directory fs disk (codes "backup");
    inbox = inbox;
    send_results = send_results;
    outbox = [];
    sessions = sessions;
    client_addr = 0;
    current_tcp_port = 40000;
    server_state = waiting;
    cmd_msg = junk;
    ack_msg = junk;
    data_msg = junk_data;
    overread = false;
    ended = false;
  }

module _ (fs : FileSystem) (p : Platform fs) where
  -- The `switch` over the command.
  unfoldable pub select_command : L fs (Unit {0})
  select_command s =
      let cmd = s.cmd_msg.cmd in
      if cmd == cmd_ls
      then go_to fs process_ls s
      else if cmd == cmd_send
      then go_to fs process_send s
      else if cmd == cmd_remove
      then go_to fs process_remove s
      else if cmd == cmd_rename
      then go_to fs process_rename s
      else if cmd == cmd_shutdown
      then go_to fs shutdown s
      else if cmd == cmd_overwrite
      then (tt, (serve_overwrite fs p s).1)
      else go_to fs waiting s

  -- The first half of a round: a datagram is received into `cmd_msg`, and its name printed.
  unfoldable pub take_datagram : Option Datagram → L fs (Unit {0})
  take_datagram none s = (tt, s)
  take_datagram (some b) s =
      let m = p.read_cmd s.cmd_msg b in
      select_command
        (record s { cmd_msg = m; overread = s.overread || ltb (length cmd_string) (suc m.cmd) })

  -- The `switch` over the state; `junk` is what `confirm_msg` holds before it is received.
  unfoldable pub serve_phase : CmdMsgT → Phase → L fs (Unit {0})
  serve_phase junk waiting s = (tt, s)
  serve_phase junk process_ls s = serve_ls fs p s
  serve_phase junk process_send s = serve_send fs p s
  serve_phase junk process_get s = go_to fs waiting s
  serve_phase junk process_remove s = serve_remove fs p s
  serve_phase junk process_rename s = serve_rename fs p junk s
  serve_phase junk shutdown s = (tt, record s { ended = true })

  unfoldable pub serve_current : CmdMsgT → L fs (Unit {0})
  serve_current junk s = serve_phase junk s.server_state s

  -- A round of the loop.
  unfoldable pub lab_round : CmdMsgT → Lab fs → Lab fs
  lab_round junk s =
      let (b, t) = receive_from fs s in
      let (done, u) = take_datagram b t in (serve_current junk u).1

  -- The loop, as long as something is to be received; each round takes a receive at least, so their
  -- number is enough fuel.
  unfoldable pub lab_rounds : CmdMsgT → ℕ → Lab fs → Lab fs
  lab_rounds junk zero s = s
  lab_rounds junk (suc fuel) s =
      let next = lab_rounds junk fuel (lab_round junk s) in if s.ended then s else next

  unfoldable pub lab_run : CmdMsgT → Lab fs → Lab fs
  lab_run junk s = lab_rounds junk (length s.inbox) s
