-- ===== src/Client/Input.antt =====
-- The client's command line: `parseCommand`, `executeCommand` and the loop of `run`.
use computer_network_lab.Prelude.{
  Bool, true, false, ◌||◌, List, [], ◌∷◌, ◌++◌, if◌then◌else◌, Bytes, codes, bytes_eq, contains,
}
use mathlib.Core.List.{reverse}
use computer_network_lab.Errors.{ErrorCode, success, invalid_argument, invalid_command}
use computer_network_lab.Filename.{is_empty, to_lower}
use computer_network_lab.FileSystem.{FileSystem}
use computer_network_lab.Server.State.{◌>>=◌, ◌>>◌, pure}
use computer_network_lab.Client.{
  Client, ClientConfig, ClientState, waiting, process_ls, process_send, process_remove,
  process_rename, quit, C,
}
use computer_network_lab.Client.Commands.{
  handle_ls, handle_send, handle_remove, handle_rename, handle_shutdown,
}

-- `isspace` in the "C" locale.
abbrev pub spaces : Bytes
spaces = codes " \t\n\r" ++ 12 ∷ 11 ∷ []

unfoldable pub skip_spaces : Bytes → Bytes
skip_spaces [] = []
skip_spaces (c ∷ s) = let rest = skip_spaces s in if contains c spaces then rest else c ∷ s

-- `trim`; the search from the end is the same search on the reversed text.
unfoldable pub trim : Bytes → Bytes
trim s = reverse (skip_spaces (reverse (skip_spaces s)))

-- The characters up to the next space, and the rest.
unfoldable pub break_space : Bytes → Bytes × Bytes
break_space [] = ([], [])
break_space (c ∷ s) =
    let (token, rest) = break_space s in
    if contains c spaces then ([], c ∷ s) else (c ∷ token, rest)

-- `iss >> token`; the token stays empty at the end of the line.
unfoldable pub next_token : Bytes → Bytes × Bytes
next_token s = break_space (skip_spaces s)

-- `ParsedCommand`.
pub record ParsedCommand : Type 0 where
  pub command : Bytes
  pub arg1 : Bytes
  pub arg2 : Bytes

-- `parseCommand`.
unfoldable pub parse_command : Bytes → ParsedCommand
parse_command input =
    let (command, rest) = next_token input in
    let (arg1, rest2) = next_token rest in
    let (arg2, rest3) = next_token rest2 in
    record { command = to_lower command; arg1 = arg1; arg2 = arg2 }

-- What the line asks for, with the errors of `executeCommand`.
pub data Request : Type 0 where
  list_files shut_down quit_client : Request
  send_file remove_file : Bytes → Request
  rename_file : Bytes → Bytes → Request
  refused : ErrorCode → Request

-- The branches of `executeCommand`.
unfoldable pub request_of : ParsedCommand → Request
request_of p =
    if bytes_eq p.command (codes "ls")
    then list_files
    else if bytes_eq p.command (codes "send")
    then (if is_empty p.arg1 then refused invalid_argument else send_file p.arg1)
    else if bytes_eq p.command (codes "remove")
    then (if is_empty p.arg1 then refused invalid_argument else remove_file p.arg1)
    else if bytes_eq p.command (codes "rename")
    then (if is_empty p.arg1 || is_empty p.arg2
        then refused invalid_argument
        else rename_file p.arg1 p.arg2)
    else if bytes_eq p.command (codes "shutdown")
    then shut_down
    else if bytes_eq p.command (codes "quit") || bytes_eq p.command (codes "exit")
    then quit_client
    else refused invalid_command

module _ (fs : FileSystem) (config : ClientConfig) where
  abbrev enter : ClientState → C fs (Unit {0})
  enter phase s = (tt, record s { state = phase })

  unfoldable pub perform : Request → C fs ErrorCode
  perform list_files = do enter process_ls; listing ← handle_ls fs; pure (listing.0)
  perform (send_file name) = do enter process_send; handle_send fs name
  perform (remove_file name) = do enter process_remove; handle_remove fs name
  perform (rename_file old new) = do enter process_rename; handle_rename fs config old new
  perform shut_down = do enter ClientState.shutdown; handle_shutdown fs
  perform quit_client = do enter quit; pure success
  perform (refused e) = pure e

  -- `executeCommand`.
  unfoldable pub execute_command : Bytes → C fs ErrorCode
  execute_command input = perform (request_of (parse_command input))

  -- Whether the client was told to quit.
  unfoldable pub has_quit : ClientState → Bool
  has_quit quit = true
  has_quit _ = false

  -- A line of the loop; an empty one is passed over.
  unfoldable pub take_line : Bytes → Client fs → Client fs
  take_line line s =
      let t = (execute_command (trim line) s).1 in
      if is_empty (trim line)
      then s
      else if has_quit t.state
      then t
      else record t { state = waiting }

  unfoldable pub read_lines : List Bytes → Client fs → Client fs
  read_lines [] s = s
  read_lines (line ∷ lines) s =
      let t = take_line line s in
      let rest = read_lines lines t in if has_quit t.state then t else rest

  -- `run` on the lines that the user types. An answer to a question is a line too; it is in
  -- `answers`.
  unfoldable pub run : List Bytes → Client fs → Client fs
  run lines s = record (read_lines lines (record s { running = true; state = waiting })) {
    running = false;
  }
