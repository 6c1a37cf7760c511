-- ===== src/Server/UploadTests.antt =====
-- The theorems on SEND at concrete states, on the disk that is kept in memory.
use computer_network_lab.Prelude.{
  ℕ, ◌≡◌, refl, true, false, some, [], ◌∷◌, ◌++◌, arith, ◌+◌, ◌%◌, ◌^◌, take, Bytes, codes,
  replicate, bytes_eq, contains,
}
use computer_network_lab.Errors.{success}
use computer_network_lab.Filename.{
  is_valid_filename, get_filename_validation_error, contains_dots, check_chars, check_reserved,
  to_lower_char,
}
use computer_network_lab.Paths.{join_path}
use computer_network_lab.Message.{
  Command, encode, command_of, get_command, c_string, name_of, decode, received, receive_cmd,
  receive_data, read16, read32,
}
use computer_network_lab.FileSystem.{file_exists, create_directory}
use computer_network_lab.FileSystem.Memory.{memory, memory-IsPosix, update}
use computer_network_lab.Server.State.{queued, later, TcpSession, default_config, reply, waiting}
use computer_network_lab.Server.Handlers.{path_of, handle_send}
use computer_network_lab.Server.Loop.{new_server, initialize, round}
use computer_network_lab.Metrics.{new_metrics, record_bytes_received, record_send_session}
use computer_network_lab.Server.Uploads.{ack_ok, counted, handle_send_small}
use computer_network_lab.Server.Late.{late_data_left}
use computer_network_lab.Server.Streams.{IsReceived, handle_send_large}
use computer_network_lab.Server.Overwrites.{handle_send_declined, handle_send_overwrites}
use computer_network_lab.Server.Fixture.{
  disk, server, send_c, send_large_c, send_a, hello, yes, no, valid_names, existing_names, answers,
  path,
}

handle_send_small_example :
    let s = server (queued 8 hello ∷ []) [] in
    let t = handle_send memory default_config send_c s in
    (t.0 ≡ success)
    × (memory.regular t.1.disk (path send_c) ≡ some (take 5 (receive_data hello)))
    × (t.1.outbox ≡ ([] ++ (7, encode ack_ok) ∷ []) ++ (8, encode ack_ok) ∷ [])
    × (t.1.metrics ≡ counted 5 new_metrics)
handle_send_small_example =
    handle_send_small memory memory-IsPosix default_config send_c (server (queued 8 hello ∷ []) [])
      valid_names.1 existing_names.1 (omega arith) refl refl refl

-- What follows the command number in a SEND of five bytes as `c`.
abbrev send_new : Bytes
send_new = codes "c" ++ replicate 127 0 ++ 5 ∷ []

send_new_facts :
    (get_command (receive_cmd (2 ∷ send_new)) ≡ Command.send)
    × (is_valid_filename (name_of (receive_cmd (2 ∷ send_new))) ≡ true)
    × (file_exists memory
          (create_directory memory disk (codes "backup")).1
          (path_of memory default_config (name_of (receive_cmd (2 ∷ send_new))))
        ≡ false)
    × ((receive_cmd (2 ∷ send_new)).size ≡ 5)
unfolding get_command command_of receive_cmd received decode read32 read16 is_valid_filename
    get_filename_validation_error contains_dots contains check_chars check_reserved bytes_eq
    to_lower_char c_string file_exists create_directory join_path update
send_new_facts = (refl, refl, refl, refl)

late_data_left_example :
    let s =
      (initialize memory default_config
        (record { created = true; bound = true })
        (new_server memory default_config disk
          (queued 7 (2 ∷ send_new) ∷ later 8 hello ∷ [])
          []
          [])).1 in
    let t = round memory default_config s in
    (t.disk ≡ s.disk)
    × (t.inbox ≡ queued 8 hello ∷ [])
    × (t.outbox ≡ (7, encode ack_ok) ∷ (7, encode (reply Command.ack 1 0)) ∷ [])
    × (t.state ≡ waiting)
late_data_left_example =
    let f = send_new_facts in
    late_data_left memory default_config (record { created = true; bound = true }) disk [] 2
      send_new refl refl f.0 f.1 f.2 (omega (arith, f.3))

-- A connection that ends after five bytes.
abbrev short_session : TcpSession
short_session = record {
  created = true;
  bound = true;
  listening = true;
  accepted = some (hello ∷ []);
}

handle_send_large_example :
    let s = server [] (short_session ∷ []) in
    let t = handle_send memory default_config send_large_c s in
    let port = encode (reply Command.ack 0 40000) in
    (t.0 ≡ success)
    × ((total : ℕ) × IsReceived memory (path send_large_c) [] 4000 (hello ∷ []) 0 (total, t.1.disk)
        × (t.1.metrics ≡ record_send_session (record_bytes_received total new_metrics)))
    × (t.1.current_tcp_port ≡ (40000 + 1) % 2 ^ 16)
    × (t.1.outbox ≡ ([] ++ (7, port) ∷ []) ++ (7, port) ∷ [])
handle_send_large_example =
    handle_send_large memory memory-IsPosix default_config send_large_c
      (server [] (short_session ∷ [])) (hello ∷ []) short_session valid_names.2 existing_names.2
      (omega arith) (record { created = refl; bound = refl; listening = refl; accepted = refl })
      refl refl refl

handle_send_declined_example :
    let s = server (queued 8 no ∷ []) [] in
    let t = handle_send memory default_config send_a s in
    (t.0 ≡ success)
    × (t.1.disk ≡ disk)
    × (t.1.outbox
        ≡ ([] ++ (7, encode (reply Command.file_exists 0 5)) ∷ [])
          ++ (8, encode (reply Command.ack 2 0)) ∷ [])
handle_send_declined_example =
    handle_send_declined memory default_config send_a (server (queued 8 no ∷ []) []) valid_names.0
      existing_names.0 refl refl answers.2

handle_send_overwrites_example :
    let s = server (queued 8 yes ∷ queued 9 hello ∷ []) [] in
    let t = handle_send memory default_config send_a s in
    let confirm = receive_cmd yes in
    (t.0 ≡ success)
    × (memory.regular t.1.disk (path confirm) ≡ some (take confirm.size (receive_data hello)))
handle_send_overwrites_example =
    handle_send_overwrites memory memory-IsPosix default_config send_a
      (server (queued 8 yes ∷ queued 9 hello ∷ []) []) valid_names.0 existing_names.0 refl refl
      answers.0 (omega (arith, answers.1)) refl
