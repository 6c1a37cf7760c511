-- ===== src/Client/Commands.antt =====
-- The client's command handlers.
use computer_network_lab.Prelude.{
  ℕ, ◌%◌, ◌^◌, Bool, false, not, ◌&&◌, Option, none, some, List, [], ◌∷◌, if◌then◌else◌, Bytes,
  length, ltb, ◌==◌,
}
use computer_network_lab.Errors.{
  ErrorCode, success, is_success, timeout, cancelled, file_not_found, invalid_filename,
  unexpected_response, file_delete_error, file_rename_error,
}
use computer_network_lab.Filename.{is_valid_filename, to_lower_char}
use computer_network_lab.Paths.{get_filename}
use computer_network_lab.Listing.{unpack}
use computer_network_lab.Message.{
  CmdMsg, Command, command_code, get_command, new_cmd_msg, set_command, set_filename, set_data,
  new_data_msg, data_buf_len, receive_data,
}
use computer_network_lab.FileSystem.{FileSystem, file_exists, get_file_size}
use computer_network_lab.Server.State.{◌>>=◌, ◌>>◌, pure}
use computer_network_lab.Client.{
  ClientConfig, C, send_command, send_data, sending, receive_datagram, receive_response,
  read_answer,
}
use computer_network_lab.Client.Transfer.{send_small_file, send_large_file}

-- `tolower(answer[0]) == 'y'`; the first character of an empty std::string is NUL.
unfoldable pub says_yes : Bytes → Bool
says_yes [] = false
says_yes (c ∷ s) = to_lower_char c == b'y'

-- A message of this command, size 0.
abbrev pub command_message : Command → Bytes → CmdMsg
command_message command name = set_filename name (set_command command new_cmd_msg)

unfoldable pub is_command : Command → CmdMsg → Bool
is_command command m = command_code (get_command m) == command_code command

unfoldable pub confirm_message : Bytes → ℕ → Bool → CmdMsg
confirm_message base_name filesize confirmed =
    record (command_message Command.overwrite base_name) {
      size = filesize % 2 ^ 32;
      error = if confirmed then 0 else 1;
    }

-- What the acknowledgement of a REMOVE means.
unfoldable pub removed : CmdMsg → ErrorCode
removed m =
    if is_command Command.ack m && (m.error == 0)
    then success
    else if is_command Command.ack m && (m.error == 1)
    then file_not_found
    else file_delete_error

-- The end of a RENAME.
unfoldable pub renamed : CmdMsg → ErrorCode
renamed m = if is_command Command.ack m && (m.error == 0) then success else file_rename_error

unfoldable pub rename_confirmed : CmdMsg → ErrorCode
rename_confirmed m = if m.error == 2 then cancelled else renamed m

module _ (fs : FileSystem) where
  -- The data message of a listing, and the names that are printed of it.
  unfoldable pub print_listing : Option Bytes → C fs (ErrorCode × List Bytes)
  print_listing none = pure (timeout, [])
  print_listing (some b) = pure (success, unpack (receive_data b))

  unfoldable pub receive_listing : ErrorCode → C fs (ErrorCode × List Bytes)
  receive_listing result =
      if is_success result then receive_datagram fs >>= print_listing else pure (result, [])

  unfoldable pub handle_ls : C fs (ErrorCode × List Bytes)
  handle_ls = do
    result ← send_command fs (set_command Command.ls new_cmd_msg)
    receive_listing result

  -- The transfer once the server is ready.
  unfoldable pub transfer : Bytes → ℕ → CmdMsg → C fs ErrorCode
  transfer filename filesize response =
      if ltb data_buf_len filesize
      then send_large_file fs filename filesize (response.size % 2 ^ 16)
      else send_small_file fs filename filesize

  -- The answer to FILE_EXISTS. A refusal waits for the acknowledgement, whatever that is.
  unfoldable pub consume_ack : CmdMsg → C fs ErrorCode
  consume_ack response = do receive_datagram fs; pure cancelled

  unfoldable pub start_overwrite : Bytes → ℕ → CmdMsg → C fs ErrorCode
  start_overwrite filename filesize response =
      if not (is_command Command.ack response)
      then pure unexpected_response
      else transfer filename filesize response

  unfoldable pub confirm_overwrite : Bytes → ℕ → CmdMsg → Bytes → C fs ErrorCode
  confirm_overwrite filename filesize response answer =
      sending fs
        (send_command fs (confirm_message (get_filename filename) filesize (says_yes answer)))
        (if not (says_yes answer)
          then consume_ack response
          else receive_response fs response (start_overwrite filename filesize))

  -- The three ways on from the server's response: a response that is neither FILE_EXISTS nor ACK
  -- leads to the UDP transfer, whatever the size.
  unfoldable pub after_response : Bytes → ℕ → CmdMsg → C fs ErrorCode
  after_response filename filesize response =
      if is_command Command.file_exists response
      then (do answer ← read_answer fs; confirm_overwrite filename filesize response answer)
      else if is_command Command.ack response
      then transfer filename filesize response
      else send_small_file fs filename filesize

  unfoldable pub send_file_command : Bytes → ℕ → C fs ErrorCode
  send_file_command filename filesize =
      sending fs
        (send_command fs (record (command_message Command.send (get_filename filename)) {
          size = filesize % 2 ^ 32;
        }))
        (receive_response fs new_cmd_msg (after_response filename filesize))

  unfoldable pub handle_send : Bytes → C fs ErrorCode
  handle_send filename s =
      if not (file_exists fs s.disk filename)
      then (file_not_found, s)
      else if not (is_valid_filename (get_filename filename))
      then (invalid_filename, s)
      else send_file_command filename (get_file_size fs s.disk filename) s

  unfoldable pub handle_remove : Bytes → C fs ErrorCode
  handle_remove filename =
      sending fs (send_command fs (command_message Command.remove filename))
        (receive_response fs new_cmd_msg (λ m. pure (removed m)))

  unfoldable pub confirm_rename : CmdMsg → Bytes → C fs ErrorCode
  confirm_rename m answer =
      sending fs
        (send_command fs (record (set_command Command.overwrite new_cmd_msg) {
          error = if says_yes answer then 0 else 1;
        }))
        (receive_response fs m (λ n. pure (rename_confirmed n)))

  -- The response to the new name.
  unfoldable pub rename_answered : CmdMsg → C fs ErrorCode
  rename_answered m =
      if is_command Command.ack m && (m.error == 1)
      then pure file_not_found
      else if is_command Command.file_exists m
      then (do answer ← read_answer fs; confirm_rename m answer)
      else pure (renamed m)

  unfoldable pub send_new_name : Bytes → C fs ErrorCode
  send_new_name new_name =
      sending fs (send_data fs (set_data new_name (length new_name) new_data_msg))
        (receive_response fs new_cmd_msg rename_answered)

  -- The handshake's message: an ACK ends the command, another message does not.
  unfoldable pub rename_ready : Bytes → CmdMsg → C fs ErrorCode
  rename_ready new_name m =
      if is_command Command.ack m
      then pure (if m.error == 0 then success else file_not_found)
      else send_new_name new_name

  unfoldable pub handle_rename : ClientConfig → Bytes → Bytes → C fs ErrorCode
  handle_rename config old_name new_name =
      sending fs (send_command fs (command_message Command.rename old_name)) (
        if config.enable_handshake
        then receive_response fs new_cmd_msg (rename_ready new_name)
        else send_new_name new_name)

  unfoldable pub handle_shutdown : C fs ErrorCode
  handle_shutdown =
      sending fs (send_command fs (set_command Command.shutdown new_cmd_msg)) (pure success)
