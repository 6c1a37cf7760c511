-- ===== src/Server/Fixture.antt =====
-- A server's state and the messages that reach it, for the tests.
use computer_network_lab.Prelude.{
  ℕ, ◌≡◌, refl, Bool, true, false, Option, none, some, List, [], ◌∷◌, ◌++◌, Bytes, codes, bytes_eq,
  contains, replicate, ◌-◌, length, inr, arith,
}
use computer_network_lab.Filename.{
  is_valid_filename, get_filename_validation_error, contains_dots, check_chars, check_reserved,
  to_lower_char,
}
use computer_network_lab.Paths.{join_path}
use computer_network_lab.Message.{
  CmdMsg, command_of, get_command, c_string, name_of, decode, received, receive_cmd, receive_data,
  read16, read32, command_code,
}
use computer_network_lab.FileSystem.{file_exists}
use computer_network_lab.FileSystem.Memory.{
  MemoryDisk, memory, update, memory_unlink, memory_rename,
}
use computer_network_lab.Server.State.{State, Arrival, TcpSession, default_config, waiting}
use computer_network_lab.Server.Answers.{IsRefusal}
use computer_network_lab.Server.Handlers.{path_of, confirms}
use computer_network_lab.Metrics.{new_metrics}

-- A disk with the two files `a` and `b` in the backup directory.
abbrev pub stored_files : Bytes → Option Bytes
stored_files =
    update (update (λ p. none) (codes "backup/a") (some (codes "first"))) (codes "backup/b")
      (some (codes "second"))

abbrev pub disk : MemoryDisk
disk = record { content = stored_files; names = codes "a" ∷ codes "b" ∷ [] }

-- A running server to which this has come.
abbrev pub server : List Arrival → List TcpSession → State memory
server inbox sessions = record {
  disk = disk;
  inbox = inbox;
  send_results = [];
  outbox = [];
  sessions = sessions;
  nonblocking = true;
  client_addr = 7;
  current_tcp_port = 40000;
  state = waiting;
  running = true;
  shutdown_requested = false;
  metrics = new_metrics;
}

-- The array of a short name.
abbrev pub name_array : Bytes → Bytes
name_array name = name ++ replicate (128 - length name) 0

abbrev pub message : ℕ → Bytes → ℕ → CmdMsg
message n name size = record {
  cmd = n;
  filename = name_array name;
  size = size;
  port = 0;
  error = 0;
}

-- SEND of five bytes and of 4000 bytes as `c`, which is new, and SEND and RENAME of `a`.
abbrev pub send_c : CmdMsg
send_c = message 2 (codes "c") 5

abbrev pub send_large_c : CmdMsg
send_large_c = message 2 (codes "c") 4000

abbrev pub send_a : CmdMsg
send_a = message 2 (codes "a") 5

abbrev pub rename_a : CmdMsg
rename_a = message 5 (codes "a") 0

abbrev pub remove_a : CmdMsg
remove_a = message 4 (codes "a") 0

-- What the client sends next: data, OVERWRITE of `../x` with five bytes, and OVERWRITE with error 1.
abbrev pub hello : Bytes
hello = codes "hello"

abbrev pub yes : Bytes
yes = 10 ∷ codes "../x" ++ replicate 124 0 ++ 5 ∷ []

abbrev pub no : Bytes
no = 10 ∷ replicate 134 0 ++ 1 ∷ 0 ∷ []

pub valid_names :
    (is_valid_filename (name_of send_a) ≡ true)
    × (is_valid_filename (name_of send_c) ≡ true)
    × (is_valid_filename (name_of send_large_c) ≡ true)
    × (is_valid_filename (name_of rename_a) ≡ true)
    × (is_valid_filename (c_string (receive_data (codes "c"))) ≡ true)
    × (is_valid_filename (c_string (receive_data (codes "b"))) ≡ true)
unfolding is_valid_filename get_filename_validation_error contains_dots contains check_chars
    check_reserved bytes_eq to_lower_char c_string receive_data received
valid_names = (refl, refl, refl, refl, refl, refl)

-- Whether the file of this name exists.
abbrev pub there : Bytes → Bool
there name = file_exists memory disk (path_of memory default_config name)

pub existing_names :
    (there (name_of send_a) ≡ true)
    × (there (name_of send_c) ≡ false)
    × (there (name_of send_large_c) ≡ false)
    × (there (name_of rename_a) ≡ true)
    × (there (c_string (receive_data (codes "c"))) ≡ false)
    × (there (c_string (receive_data (codes "b"))) ≡ true)
unfolding file_exists join_path update bytes_eq c_string receive_data received
existing_names = (refl, refl, refl, refl, refl, refl)

pub answers :
    (confirms (receive_cmd yes) ≡ true)
    × ((receive_cmd yes).size ≡ 5)
    × IsRefusal (receive_cmd no)
    × (c_string (receive_data (codes "a")) ≡ name_of rename_a)
unfolding confirms receive_cmd received decode command_code get_command command_of read32 read16
    c_string receive_data
answers = (refl, refl, inr (λ e. omega (arith, e)), refl)

pub renamed :
    (d : MemoryDisk) × (memory.rename disk
        (path_of memory default_config (name_of rename_a))
        (path_of memory default_config (c_string (receive_data (codes "c"))))
      ≡ some d)
unfolding memory_rename join_path update bytes_eq c_string receive_data received
renamed = (_, refl)

pub unlinked :
    (d : MemoryDisk) × (memory.unlink disk (path_of memory default_config (name_of rename_a))
      ≡ some d)
unfolding memory_unlink join_path update bytes_eq c_string
unlinked = (_, refl)

abbrev pub path : CmdMsg → Bytes
path cmd = path_of memory default_config (name_of cmd)
