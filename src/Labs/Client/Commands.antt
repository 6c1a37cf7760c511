-- ===== src/Labs/Client/Commands.antt =====
-- original-labs/client.cc: the other commands.
use computer_network_lab.Prelude.{
  ℕ, Bool, false, not, ◌&&◌, ◌||◌, ◌==◌, if◌then◌else◌, Option, none, some, replicate, get_or,
}
use computer_network_lab.FileSystem.{FileSystem}
use computer_network_lab.Listing.{unpack}
use computer_network_lab.Server.State.{◌>>=◌, ◌>>◌}
use computer_network_lab.Labs.{
  Platform, CmdMsgT, Datagram, command, content, copy_name, cmd_ls, cmd_remove, cmd_rename,
  cmd_shutdown, cmd_ack, cmd_file_exists, cmd_overwrite,
}
use computer_network_lab.Labs.Client.{
  LabClient, K, print, read_word, read_letter, send_server, receive_server, if_sent, if_received,
  is_done, socket_error, no_answer, folder_empty, file_list, removed, not_on_server, not_removed,
  no_source, rename_cancelled, renamed, server_shutdown,
}
use computer_network_lab.Labs.Client.Sending.{is_yes}

module _ (fs : FileSystem) (p : Platform fs) where
  -- A command about the file `filename`.
  unfoldable pub name_request : ℕ → LabClient fs → CmdMsgT
  name_request cmd s = record {
    cmd = cmd;
    filename = copy_name p.file_name_len s.filename;
    size = 0;
    error = 0;
  }

  -- The names in the reply, up to an empty one.
  unfoldable pub take_listing : Datagram → K fs (Unit {0})
  take_listing b s =
      let text = p.read_data s.data_msg b in
      print fs (if get_or text 0 0 == 0 then folder_empty else file_list (unpack text))
        (record s { data_msg = text })

  unfoldable pub await_listing : K fs (Unit {0})
  await_listing = do b ← receive_server fs; if_received fs take_listing b

  -- PROCESS_LS.
  unfoldable pub request_ls : K fs (Unit {0})
  request_ls s =
      let m : CmdMsgT = record {
        cmd = cmd_ls;
        filename = replicate p.file_name_len 0;
        size = 0;
        error = 0;
      } in
      (do ok ← send_server fs (command m); if_sent fs await_listing ok) (record s { cmd_msg = m })

  -- What is printed of the answer to a removal; nothing, if it is no acknowledgement.
  unfoldable pub take_removed : Datagram → K fs (Unit {0})
  take_removed b s =
      let m = p.read_cmd s.junk b in
      if not (m.cmd == cmd_ack)
      then (tt, s)
      else if m.error == 0
      then print fs removed s
      else if m.error == 1
      then print fs not_on_server s
      else print fs not_removed s

  unfoldable pub await_removed : K fs (Unit {0})
  await_removed = do b ← receive_server fs; if_received fs take_removed b

  unfoldable pub remove_named : K fs (Unit {0})
  remove_named s =
      let m = name_request cmd_remove s in
      (do ok ← send_server fs (command m); if_sent fs await_removed ok) (record s { cmd_msg = m })

  -- PROCESS_REMOVE.
  unfoldable pub request_remove : K fs (Unit {0})
  request_remove s =
      let (name, t) = read_word fs s.filename s in remove_named (record t { filename = name })

  -- The last test of PROCESS_RENAME, on what `ack_msg` holds.
  unfoldable pub report_renamed : Bool → CmdMsgT → K fs (Unit {0})
  report_renamed rename_success ack s =
      if rename_success || (ack.cmd == cmd_ack) then print fs renamed s else (tt, s)

  -- The receive with the timeout of one second.
  unfoldable pub take_late : CmdMsgT → Option Datagram → K fs (Unit {0})
  take_late ack none = report_renamed false ack
  take_late ack (some b) = report_renamed (is_done (p.read_cmd ack b)) (p.read_cmd ack b)

  unfoldable pub wait_again : Bool → CmdMsgT → K fs (Unit {0})
  wait_again rename_success ack =
      if not rename_success && not (ack.cmd == cmd_ack)
      then (do b ← receive_server fs; take_late ack b)
      else report_renamed rename_success ack

  -- The answer to the confirmation.
  unfoldable pub take_replaced : CmdMsgT → Datagram → K fs (Unit {0})
  take_replaced ack b =
      let m = p.read_cmd ack b in
      if m.error == 2 then print fs rename_cancelled else wait_again false m

  unfoldable pub await_replaced : CmdMsgT → K fs (Unit {0})
  await_replaced ack = do b ← receive_server fs; if_received fs (take_replaced ack) b

  -- CMD_FILE_EXISTS: the confirmation has no name and no size.
  unfoldable pub ask_replace : CmdMsgT → K fs (Unit {0})
  ask_replace ack s =
      let (letter, t) = read_letter fs s in
      let m : CmdMsgT = record t.junk {
        cmd = cmd_overwrite;
        error = if is_yes letter then 0 else 1;
      } in
      (do ok ← send_server fs (command m); if_sent fs (await_replaced ack) ok) t

  unfoldable pub take_renamed : CmdMsgT → K fs (Unit {0})
  take_renamed ack =
      if (ack.cmd == cmd_ack) && (ack.error == 1)
      then print fs no_source
      else if ack.cmd == cmd_file_exists
      then ask_replace ack
      else wait_again (is_done ack) ack

  -- The first answer, received into a new `ack_msg`. If none comes, the last test reads what the
  -- message held before.
  unfoldable pub take_rename_answer : Option Datagram → K fs (Unit {0})
  take_rename_answer none s = (do print fs no_answer; report_renamed false s.junk) s
  take_rename_answer (some b) s = take_renamed (p.read_cmd s.junk b) s

  unfoldable pub await_renamed : K fs (Unit {0})
  await_renamed = do b ← receive_server fs; take_rename_answer b

  unfoldable pub send_new_name : Bool → K fs (Unit {0})
  send_new_name ok s =
      if ok
      then (do sent ← send_server fs (content s.data_msg); if_sent fs await_renamed sent) s
      else print fs socket_error s

  unfoldable pub rename_named : K fs (Unit {0})
  rename_named s =
      let m = name_request cmd_rename s in
      (do ok ← send_server fs (command m); send_new_name ok)
        (record s { cmd_msg = m; data_msg = copy_name p.data_buf_len s.new_filename })

  -- PROCESS_RENAME.
  unfoldable pub request_rename : K fs (Unit {0})
  request_rename s =
      let (name, t) = read_word fs s.filename s in
      let (new_name, u) = read_word fs t.new_filename t in
      rename_named (record u { filename = name; new_filename = new_name })

  -- SHUTDOWN.
  unfoldable pub request_shutdown : K fs (Unit {0})
  request_shutdown s =
      let m = record s.cmd_msg { cmd = cmd_shutdown; size = 0; error = 0 } in
      (do ok ← send_server fs (command m); if_sent fs (print fs server_shutdown) ok)
        (record s { cmd_msg = m })
