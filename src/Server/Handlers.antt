-- ===== src/Server/Handlers.antt =====
-- The command handlers and `processCommand`. A received file name is read up to its first NUL.
use computer_network_lab.Prelude.{ℕ, Bool, true, not, ◌&&◌, leb, ◌==◌, if◌then◌else◌, Bytes}
use computer_network_lab.Errors.{
  ErrorCode, success, timeout, invalid_filename, invalid_command, to_network_error, is_success,
}
use computer_network_lab.Message.{
  CmdMsg, Command, command_code, get_command, name_of, receive_cmd, receive_data, c_string,
  data_buf_len,
}
use computer_network_lab.Filename.{is_valid_filename}
use computer_network_lab.Paths.{join_path}
use computer_network_lab.Listing.{pack}
use computer_network_lab.FileSystem.{
  FileSystem, file_exists, list_directory, delete_file, rename_file,
}
use computer_network_lab.Server.State.{
  ServerConfig, ServerState, process_ls, process_send, process_remove, process_rename, M, ◌>>=◌,
  ◌>>◌, pure, modify, send_response, send_data_response, receive_or, reply,
}
use computer_network_lab.Server.Transfer.{receive_small_file, receive_large_file}

-- The client confirmed: the message is OVERWRITE with error 0.
unfoldable pub confirms : CmdMsg → Bool
confirms m = command_code (get_command m) == command_code Command.overwrite && (m.error == 0)

module _ (fs : FileSystem) (config : ServerConfig) where
  -- The path of a name in the backup directory.
  abbrev pub path_of : Bytes → Bytes
  path_of name = join_path config.backup_dir name

  -- The reply to a name that `isValidFilename` refuses.
  abbrev pub reject_name : M fs ErrorCode
  reject_name = send_response fs (reply Command.ack (to_network_error invalid_filename) 0)

  unfoldable pub handle_ls : M fs ErrorCode
  handle_ls s = send_data_response fs (pack (list_directory fs s.disk config.backup_dir)) s

  -- The end of `handleSend`: the size decides between UDP and TCP.
  unfoldable pub receive_file : Bytes → ℕ → M fs ErrorCode
  receive_file filepath filesize =
      if leb filesize data_buf_len
      then receive_small_file fs filepath filesize
      else receive_large_file fs filepath filesize

  -- The answer to FILE_EXISTS in `handleSend`. The name and the size are then the answer's.
  unfoldable pub overwrite_with : CmdMsg → M fs ErrorCode
  overwrite_with confirm =
      if confirms confirm
      then receive_file (path_of (name_of confirm)) confirm.size
      else send_response fs (reply Command.ack 2 0)

  -- The wait for the answer, if FILE_EXISTS could be sent.
  unfoldable pub await_overwrite : ErrorCode → M fs ErrorCode
  await_overwrite sent =
      if is_success sent
      then receive_or fs (pure timeout) (λ b. overwrite_with (receive_cmd b))
      else pure sent

  unfoldable pub ask_overwrite : ℕ → M fs ErrorCode
  ask_overwrite filesize = do
    sent ← send_response fs (reply Command.file_exists 0 filesize)
    await_overwrite sent

  unfoldable pub handle_send : CmdMsg → M fs ErrorCode
  handle_send cmd s =
      if not (is_valid_filename (name_of cmd))
      then reject_name s
      else if file_exists fs s.disk (path_of (name_of cmd))
      then ask_overwrite cmd.size s
      else receive_file (path_of (name_of cmd)) cmd.size s

  -- `deleteFile` and the reply.
  unfoldable pub delete_and_reply : Bytes → M fs ErrorCode
  delete_and_reply filepath s =
      let (deleted, d) = delete_file fs s.disk filepath in
      send_response fs (reply Command.ack (if deleted then 0 else 1) 0) (record s { disk = d })

  unfoldable pub handle_remove : CmdMsg → M fs ErrorCode
  handle_remove cmd s =
      if not (is_valid_filename (name_of cmd))
      then reject_name s
      else if not (file_exists fs s.disk (path_of (name_of cmd)))
      then send_response fs (reply Command.ack 1 0) s
      else delete_and_reply (path_of (name_of cmd)) s

  -- `renameFile` and the reply.
  unfoldable pub rename_and_reply : Bytes → Bytes → M fs ErrorCode
  rename_and_reply old new s =
      let (renamed, d) = rename_file fs s.disk old new in
      send_response fs (reply Command.ack (if renamed then 0 else 1) 0) (record s { disk = d })

  -- The answer to FILE_EXISTS in `handleRename`: the target is deleted before the rename.
  unfoldable pub replace_target : Bytes → Bytes → CmdMsg → M fs ErrorCode
  replace_target old new confirm =
      if confirms confirm
      then (do
        modify fs (λ s. record s { disk = (delete_file fs s.disk new).1 })
        rename_and_reply old new)
      else send_response fs (reply Command.ack 2 0)

  unfoldable pub ask_replace : Bytes → Bytes → M fs ErrorCode
  ask_replace old new = do
    send_response fs (reply Command.file_exists 0 0)
    receive_or fs (pure timeout) (λ b. replace_target old new (receive_cmd b))

  -- `handleRename` once the new name has come.
  unfoldable pub rename_to : Bytes → Bytes → M fs ErrorCode
  rename_to old new_name s =
      if not (is_valid_filename new_name)
      then reject_name s
      else if file_exists fs s.disk (path_of new_name)
      then ask_replace old (path_of new_name) s
      else rename_and_reply old (path_of new_name) s

  -- The handshake: READY_FOR_NEW_NAME, if it is enabled.
  unfoldable pub send_ready : M fs (Unit {0})
  send_ready s =
      if config.enable_handshake
      then (do send_response fs (reply Command.ready_for_new_name 0 0); pure tt) s
      else (tt, s)

  unfoldable pub receive_new_name : Bytes → M fs ErrorCode
  receive_new_name old = do
    send_ready
    receive_or fs (pure timeout) (λ b. rename_to old (c_string (receive_data b)))

  unfoldable pub handle_rename : CmdMsg → M fs ErrorCode
  handle_rename cmd s =
      if not (is_valid_filename (name_of cmd))
      then reject_name s
      else if not (file_exists fs s.disk (path_of (name_of cmd)))
      then send_response fs (reply Command.ack 1 0) s
      else receive_new_name (path_of (name_of cmd)) s

  unfoldable pub handle_shutdown : M fs ErrorCode
  handle_shutdown = do
    send_response fs (reply Command.ack 0 0)
    modify fs (λ s. record s { shutdown_requested = true })
    pure success

  abbrev pub enter : ServerState → M fs (Unit {0})
  enter phase = modify fs (λ s. record s { state = phase })

  unfoldable pub dispatch : Command → CmdMsg → M fs ErrorCode
  dispatch Command.ls cmd = do enter process_ls; handle_ls
  dispatch Command.send cmd = do enter process_send; handle_send cmd
  dispatch Command.remove cmd = do enter process_remove; handle_remove cmd
  dispatch Command.rename cmd = do enter process_rename; handle_rename cmd
  dispatch Command.shutdown cmd = do enter ServerState.shutdown; handle_shutdown
  dispatch Command.overwrite cmd = pure success
  dispatch _ cmd = pure invalid_command

  unfoldable pub process_command : CmdMsg → M fs ErrorCode
  unfolding dispatch
  process_command cmd = dispatch (get_command cmd) cmd
