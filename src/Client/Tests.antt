-- ===== src/Client/Tests.antt =====
-- The client's functions and theorems at concrete values.
use computer_network_lab.Prelude.{
  ◌≡◌, ◌⊎◌, refl, true, false, none, some, [], ◌∷◌, ◌++◌, arith, Bytes, codes, length, replicate,
  bytes_eq, contains,
}
use computer_network_lab.Errors.{success, file_not_found}
use computer_network_lab.Filename.{
  is_valid_filename, get_filename_validation_error, contains_dots, check_chars, check_reserved,
  to_lower_char, to_lower,
}
use computer_network_lab.Paths.{join_path}
use computer_network_lab.Message.{
  Command, command_code, c_string, encode, receive_cmd, set_filename, set_command, new_cmd_msg,
  decode, received, read16, read32, le16, le32,
}
use computer_network_lab.FileSystem.{file_exists, delete_file}
use computer_network_lab.FileSystem.Memory.{
  MemoryDisk, memory, memory-IsPosix, update, memory_unlink,
}
use computer_network_lab.Metrics.{new_metrics}
use computer_network_lab.Server.State.{
  State, ServerState, default_config, reply, send_response, send_bytes,
}
use computer_network_lab.Server.Handlers
use computer_network_lab.Server.Handlers.{path_of, delete_and_reply}
use computer_network_lab.Server.Transfer.{receive_loop}
use computer_network_lab.Server.Streams.{stream}
use computer_network_lab.Client.{Client, waiting}
use computer_network_lab.Client.Transfer.{
  all_sent, send_file, send_loop, next_send, after_send, count_sent, read_over,
}
use computer_network_lab.Client.Commands.{command_message, handle_remove}
use computer_network_lab.Client.Input.{parse_command, next_token, skip_spaces, break_space}
use computer_network_lab.Client.Sending.{length-send_file}
use computer_network_lab.Client.Delivery.{send_file-receive_loop}
use computer_network_lab.Client.Dialogue.{handle_remove_agrees}

-- A short `send` loses bytes: the next read goes on behind what was read before.
short_send :
    send_file (some 1 ∷ []) 4 (codes "abcd") (replicate 3000 b'?') ≡ (all_sent, codes "aabc")
unfolding send_file send_loop next_send after_send count_sent read_over
short_send = refl

parsed :
    parse_command (codes " Rename  a b ")
    ≡ record { command = codes "rename"; arg1 = codes "a"; arg2 = codes "b" }
unfolding parse_command next_token skip_spaces break_space contains to_lower to_lower_char
parsed = refl

-- A connection whose calls of `send` take one byte, and then whatever they are given.
length-send_file_example :
    length (send_file (some 1 ∷ []) 4 (codes "abcd") (replicate 3000 b'?')).1 ≡ 4
unfolding send_file send_loop next_send after_send count_sent read_over
length-send_file_example =
    length-send_file (some 1 ∷ []) 4 (codes "abcd") (replicate 3000 b'?') refl refl

-- A disk with one empty file, and one with the file `a` in the backup directory.
abbrev one_empty : MemoryDisk
one_empty = record { content = (λ p. some []); names = [] }

abbrev one_file : MemoryDisk
one_file = record {
  content = update (λ p. none) (codes "backup/a") (some (codes "first"));
  names = codes "a" ∷ [];
}

delivered : stream (codes "ab" ∷ codes "cd" ∷ []) ≡ (send_file [] 4 (codes "abcd") []).1
unfolding stream send_file send_loop next_send after_send count_sent read_over
delivered = refl

send_file-receive_loop_example :
    let r = receive_loop memory (codes "x") 4 (codes "ab" ∷ codes "cd" ∷ []) 0 one_empty in
    ((send_file [] 4 (codes "abcd") []).0 ≡ all_sent)
    × (memory.regular r.1 (codes "x") ≡ some (codes "abcd"))
    × (r.0 ≡ 4)
send_file-receive_loop_example =
    send_file-receive_loop memory memory-IsPosix (codes "x") (codes "abcd") [] []
      (codes "ab" ∷ codes "cd" ∷ []) one_empty tt refl delivered

abbrev server : State memory
server = record {
  disk = one_file;
  inbox = [];
  send_results = [];
  outbox = [];
  sessions = [];
  nonblocking = true;
  client_addr = 7;
  current_tcp_port = 40000;
  state = ServerState.waiting;
  running = true;
  shutdown_requested = false;
  metrics = new_metrics;
}

abbrev acknowledgement : Bytes
acknowledgement = encode (reply Command.ack 0 0)

-- A client whom this acknowledgement reaches.
abbrev client : Client memory
client = record {
  disk = one_empty;
  inbox = some (9, acknowledgement) ∷ [];
  send_results = [];
  outbox = [];
  answers = [];
  connections = [];
  streams = [];
  overrun = false;
  server_addr = 9;
  state = waiting;
  running = true;
}

abbrev request : Bytes
request = encode (command_message Command.remove (codes "a"))

valid_a : is_valid_filename (codes "a") ≡ true
unfolding is_valid_filename get_filename_validation_error contains_dots check_chars contains
    check_reserved bytes_eq to_lower_char
valid_a = refl

acknowledged :
    (Handlers.handle_remove memory default_config (receive_cmd request) server).1.outbox
    ≡ [] ++ (7, acknowledgement) ∷ []
unfolding Handlers.handle_remove is_valid_filename get_filename_validation_error contains_dots
    check_chars contains check_reserved bytes_eq to_lower_char c_string receive_cmd decode received
    encode set_filename set_command new_cmd_msg read16 read32 le16 le32 command_code file_exists
    join_path update delete_and_reply delete_file memory_unlink send_response send_bytes
acknowledged = refl

handle_remove_agrees_example :
    let t = Handlers.handle_remove memory default_config (receive_cmd request) server in
    let result = (handle_remove memory (codes "a") client).0 in
    ((result ≡ success)
      × (file_exists memory one_file (path_of memory default_config (codes "a")) ≡ true)
      × (memory.regular t.1.disk (path_of memory default_config (codes "a")) ≡ none))
    ⊎ ((result ≡ file_not_found) × (t.1.disk ≡ one_file))
handle_remove_agrees_example =
    handle_remove_agrees memory memory memory-IsPosix default_config (codes "a") client server
      valid_a (omega arith) refl refl acknowledged refl
