-- ===== src/Server/Tests.antt =====
-- The theorems on removal, renaming and the main loop at concrete states, on the disk that is kept in
-- memory.
use computer_network_lab.Prelude.{
  ◌≡◌, refl, ◌≢◌, ◌⊎◌, ◌∙◌, ap, true, false, none, [], ◌∷◌, ◌++◌, codes,
}
use computer_network_lab.Errors.{success}
use computer_network_lab.Filename.{is_valid_filename}
use computer_network_lab.Paths.{get_directory, find_last_separator}
use computer_network_lab.Paths.Laws.{join_path_split, base_directory}
use computer_network_lab.Message.{
  Command, command_of, get_command, c_string, name_of, encode, receive_data, command_to_string,
}
use computer_network_lab.FileSystem.{file_exists}
use computer_network_lab.FileSystem.Memory.{memory, memory-IsPosix}
use computer_network_lab.Server.State.{queued, default_config, reply}
use computer_network_lab.Server.Handlers.{
  path_of, handle_send, handle_remove, handle_rename, process_command,
}
use computer_network_lab.Server.Loop.{run, stops}
use computer_network_lab.Metrics.{new_metrics, get_request_count}
use computer_network_lab.Server.Confinement.{
  IsOutside, process_command_confined, handle_send_confined,
}
use computer_network_lab.Server.Removal.{Acked, handle_remove_cases}
use computer_network_lab.Server.Renaming.{
  handle_rename_moves, handle_rename_declined, handle_rename_to_self,
}
use computer_network_lab.Server.Lifecycle.{run_ends}
use computer_network_lab.Server.Dashboard.{run_request_count}
use computer_network_lab.Server.Fixture.{
  disk, server, send_c, rename_a, remove_a, hello, yes, no, valid_names, existing_names, answers,
  renamed, unlinked, path,
}

-- A path whose directory is not the backup directory is none of its files.
outside : IsOutside default_config (codes "etc/passwd")
unfolding get_directory find_last_separator base_directory
outside name v e =
    let (h, k) = join_path_split (codes "backup") name (λ x. cc) v in
    let m : codes "etc" ≡ codes "backup" = ap get_directory e ∙ k in cc

remove_is_not_send : get_command remove_a ≢ Command.send
unfolding get_command command_of
remove_is_not_send e = cc

process_command_confined_example :
    memory.regular
      (process_command memory default_config remove_a (server [] [])).1.disk
      (codes "etc/passwd")
    ≡ memory.regular disk (codes "etc/passwd")
process_command_confined_example =
    process_command_confined memory memory-IsPosix default_config (codes "etc/passwd") outside
      remove_a remove_is_not_send (server [] [])

handle_send_confined_example :
    memory.regular
      (handle_send memory default_config send_c (server [] [])).1.disk
      (codes "etc/passwd")
    ≡ memory.regular disk (codes "etc/passwd")
handle_send_confined_example =
    handle_send_confined memory memory-IsPosix default_config (codes "etc/passwd") outside send_c
      (server [] []) existing_names.1

handle_remove_cases_example :
    let s = server [] [] in
    let t = handle_remove memory default_config remove_a s in
    (t.0 ≡ success)
    × (((is_valid_filename (name_of remove_a) ≡ false)
          × Acked memory 107 s t.1
          × (t.1.disk ≡ s.disk))
        ⊎ ((is_valid_filename (name_of remove_a) ≡ true)
            × (((file_exists memory s.disk (path remove_a) ≡ true)
                  × Acked memory 0 s t.1
                  × (memory.regular t.1.disk (path remove_a) ≡ none))
                ⊎ (Acked memory 1 s t.1 × (t.1.disk ≡ s.disk)))))
handle_remove_cases_example =
    handle_remove_cases memory memory-IsPosix default_config remove_a (server [] []) refl

handle_rename_moves_example :
    let s = server (queued 8 (codes "c") ∷ []) [] in
    let t = handle_rename memory default_config rename_a s in
    let new = path_of memory default_config (c_string (receive_data (codes "c"))) in
    (t.0 ≡ success)
    × (memory.regular t.1.disk new ≡ memory.regular disk (path rename_a))
    × (memory.regular t.1.disk (path rename_a) ≡ none)
    × (t.1.outbox
        ≡ ([] ++ (7, encode (reply Command.ready_for_new_name 0 0)) ∷ [])
          ++ (8, encode (reply Command.ack 0 0)) ∷ [])
handle_rename_moves_example =
    handle_rename_moves memory memory-IsPosix default_config rename_a
      (server (queued 8 (codes "c") ∷ []) []) refl valid_names.3 existing_names.3 refl refl
      valid_names.4 existing_names.4 renamed.1

handle_rename_declined_example :
    let s = server (queued 8 (codes "b") ∷ queued 9 no ∷ []) [] in
    let t = handle_rename memory default_config rename_a s in
    (t.0 ≡ success)
    × (t.1.disk ≡ disk)
    × (t.1.outbox
        ≡ (([] ++ (7, encode (reply Command.ready_for_new_name 0 0)) ∷ [])
            ++ (8, encode (reply Command.file_exists 0 0)) ∷ [])
          ++ (9, encode (reply Command.ack 2 0)) ∷ [])
handle_rename_declined_example =
    handle_rename_declined memory default_config rename_a
      (server (queued 8 (codes "b") ∷ queued 9 no ∷ []) []) refl valid_names.3 existing_names.3 refl
      refl valid_names.5 existing_names.5 answers.2

handle_rename_to_self_example :
    let s = server (queued 8 (codes "a") ∷ queued 9 yes ∷ []) [] in
    let t = handle_rename memory default_config rename_a s in
    (t.0 ≡ success)
    × (memory.regular t.1.disk (path rename_a) ≡ none)
    × (t.1.outbox
        ≡ (([] ++ (7, encode (reply Command.ready_for_new_name 0 0)) ∷ [])
            ++ (8, encode (reply Command.file_exists 0 0)) ∷ [])
          ++ (9, encode (reply Command.ack 1 0)) ∷ [])
handle_rename_to_self_example =
    handle_rename_to_self memory memory-IsPosix default_config rename_a
      (server (queued 8 (codes "a") ∷ queued 9 yes ∷ []) []) refl valid_names.3 existing_names.3
      refl refl answers.3 answers.0 unlinked.1

run_ends_example :
    let t = run memory default_config (server (queued 8 hello ∷ []) []) in
    ((stops memory default_config t ≡ true) × (t.running ≡ false)) ⊎ (t.inbox ≡ [])
run_ends_example = run_ends memory default_config (server (queued 8 hello ∷ []) [])

no_command_ls : (c : Command) → command_to_string c ≢ codes "ls"
unfolding command_to_string
no_command_ls Command.none e = cc
no_command_ls Command.ls e = cc
no_command_ls Command.send e = cc
no_command_ls Command.get e = cc
no_command_ls Command.remove e = cc
no_command_ls Command.rename e = cc
no_command_ls Command.shutdown e = cc
no_command_ls Command.ack e = cc
no_command_ls Command.ack_port e = cc
no_command_ls Command.file_exists e = cc
no_command_ls Command.overwrite e = cc
no_command_ls Command.ready_for_new_name e = cc
no_command_ls (Command.unknown n) e = cc

run_request_count_example :
    get_request_count
      (codes "ls")
      (run memory default_config (server (queued 8 (1 ∷ []) ∷ []) [])).metrics
    ≡ get_request_count (codes "ls") new_metrics
run_request_count_example =
    run_request_count memory default_config (codes "ls") (server (queued 8 (1 ∷ []) ∷ []) [])
      no_command_ls
