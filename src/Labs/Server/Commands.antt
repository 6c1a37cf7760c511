-- ===== src/Labs/Server/Commands.antt =====
-- original-labs/server.cc: the cases of the two `switch` statements that change files. A received
-- name is read up to its first NUL, and nothing else is asked of it.
use computer_network_lab.Prelude.{
  ℕ, ◌+◌, Bool, true, false, not, ◌&&◌, ◌||◌, leb, ltb, ◌==◌, if◌then◌else◌, Option, none, some,
  List, Bytes, take,
}
use computer_network_lab.FileSystem.{FileSystem}
use computer_network_lab.Filename.{is_empty}
use computer_network_lab.Message.{c_string}
use computer_network_lab.Server.State.{TcpSession, ◌>>=◌, ◌>>◌}
use computer_network_lab.Server.Transfer.{receive_loop}
use computer_network_lab.Labs.{
  Platform, CmdMsgT, Datagram, backup_path, cmd_ack, cmd_file_exists, cmd_overwrite,
}
use computer_network_lab.Labs.Server.{
  Lab, waiting, L, go_to, receive_from, acknowledge, acknowledge_size, check_file, take_session,
}

-- The path of the name in `cmd_msg`.
abbrev pub requested : {fs : FileSystem} → Lab fs → Bytes
requested s = backup_path (c_string s.cmd_msg.filename)

module _ (fs : FileSystem) where
  -- What follows `accept`: the file is opened and the loop runs; the acknowledgement does not
  -- depend on how much came.
  unfoldable pub save_large : Bytes → ℕ → List Bytes → L fs Bool
  save_large filepath filesize chunks s = elim (fs.create s.disk filepath) [
    | none ↦ (false, s)
    | some d ↦ acknowledge fs cmd_ack 0 (record s {
      disk = (receive_loop fs filepath filesize chunks 0 d).1;
      current_tcp_port = s.current_tcp_port + 1;
    })
  ]

  unfoldable pub save_accepted : Bytes → ℕ → Option (List Bytes) → Bool → L fs Bool
  save_accepted filepath filesize accepted false s = (false, s)
  save_accepted filepath filesize none true s = (false, s)
  save_accepted filepath filesize (some chunks) true s = save_large filepath filesize chunks s

  unfoldable pub receive_session : Bytes → ℕ → TcpSession → L fs Bool
  receive_session filepath filesize session s =
      if session.created && session.bound && session.listening
      then (do
        sent ← acknowledge_size fs cmd_ack 0 s.current_tcp_port
        save_accepted filepath filesize session.accepted sent)
          s
      else (false, s)

  -- The transfer over TCP; whether it came to the last acknowledgement.
  unfoldable pub receive_large : Bytes → ℕ → L fs Bool
  receive_large filepath filesize = do
    session ← take_session fs
    receive_session filepath filesize session

  -- `rename` and the acknowledgement.
  unfoldable pub move_file : Bytes → Bytes → L fs Bool
  move_file old new s = elim (fs.rename s.disk old new) [
    | none ↦ acknowledge fs cmd_ack 1 s
    | some d ↦ acknowledge fs cmd_ack 0 (record s { disk = d })
  ]

  -- The data that came is written to the file.
  unfoldable pub save_small : Bytes → ℕ → L fs Bool
  save_small filepath filesize s = elim (fs.create s.disk filepath) [
    | none ↦ acknowledge fs cmd_ack 1 s
    | some d ↦
        acknowledge fs cmd_ack 0
          (record s { disk = fs.append d filepath (take filesize s.data_msg) })
  ]

module _ (fs : FileSystem) (p : Platform fs) where
  unfoldable pub save_received : Bytes → ℕ → Option Datagram → L fs Bool
  save_received filepath filesize none s = acknowledge fs cmd_ack 1 s
  save_received filepath filesize (some b) s =
      save_small fs filepath filesize (record s { data_msg = p.read_data s.data_msg b })

  unfoldable pub receive_small : Bytes → ℕ → L fs Bool
  receive_small filepath filesize = do b ← receive_from fs; save_received filepath filesize b

  -- CMD_OVERWRITE, in the `switch` over the command.
  unfoldable pub serve_overwrite : L fs Bool
  serve_overwrite s =
      if not (s.cmd_msg.error == 0)
      then acknowledge fs cmd_ack 2 s
      else if is_empty (c_string s.cmd_msg.filename)
      then (false, record s { server_state = waiting })
      else if ltb p.data_buf_len s.cmd_msg.size
      then receive_large fs (requested s) s.cmd_msg.size s
      else acknowledge fs cmd_ack 0 s

  unfoldable pub store_file : L fs Bool
  store_file s =
      if check_file fs s.disk (requested s)
      then acknowledge_size fs cmd_file_exists 0 s.cmd_msg.size s
      else if leb s.cmd_msg.size p.data_buf_len
      then receive_small (requested s) s.cmd_msg.size s
      else receive_large fs (requested s) s.cmd_msg.size s

  -- PROCESS_SEND.
  unfoldable pub serve_send : L fs (Unit {0})
  serve_send = do store_file; go_to fs waiting

  unfoldable pub remove_file : L fs Bool
  remove_file s =
      if not (check_file fs s.disk (requested s))
      then acknowledge fs cmd_ack 1 s
      else elim (p.remove s.disk (requested s)) [
        | none ↦ acknowledge fs cmd_ack 1 s
        | some d ↦ acknowledge fs cmd_ack 0 (record s { disk = d })
      ]

  -- PROCESS_REMOVE.
  unfoldable pub serve_remove : L fs (Unit {0})
  serve_remove = do remove_file; go_to fs waiting

  -- The target is removed; what `remove` gives is not looked at.
  unfoldable pub discard : Bytes → fs.Disk → fs.Disk
  discard path d = elim (p.remove d path) [ none ↦ d | some e ↦ e ]

  -- The answer to FILE_EXISTS, received into `confirm_msg`, which holds `junk` before.
  unfoldable pub take_confirmation : CmdMsgT → Bytes → Bytes → Option Datagram → L fs Bool
  take_confirmation junk old new none s = (false, s)
  take_confirmation junk old new (some b) s =
      let m = p.read_cmd junk b in
      if not (m.cmd == cmd_overwrite) || not (m.error == 0)
      then acknowledge fs cmd_ack 2 s
      else move_file fs old new (record s { disk = discard new s.disk })

  unfoldable pub ask_confirmation : CmdMsgT → Bytes → Bytes → L fs Bool
  ask_confirmation junk old new = do
    acknowledge fs cmd_file_exists 0
    b ← receive_from fs
    take_confirmation junk old new b

  unfoldable pub move_to : CmdMsgT → Bytes → Bytes → L fs Bool
  move_to junk old new s =
      if check_file fs s.disk new then ask_confirmation junk old new s else move_file fs old new s

  -- The new name, received into `data_msg`.
  unfoldable pub take_new_name : CmdMsgT → Bytes → Option Datagram → L fs Bool
  take_new_name junk old none s = (false, s)
  take_new_name junk old (some b) s =
      let name = p.read_data s.data_msg b in
      move_to junk old (backup_path (c_string name)) (record s { data_msg = name })

  unfoldable pub rename_requested : CmdMsgT → L fs Bool
  rename_requested junk s =
      if not (check_file fs s.disk (requested s))
      then acknowledge fs cmd_ack 1 s
      else (do b ← receive_from fs; take_new_name junk (requested s) b) s

  -- PROCESS_RENAME.
  unfoldable pub serve_rename : CmdMsgT → L fs (Unit {0})
  serve_rename junk = do rename_requested junk; go_to fs waiting
