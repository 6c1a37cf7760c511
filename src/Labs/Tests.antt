-- ===== src/Labs/Tests.antt =====
-- The theorems on the first version at concrete states.
use computer_network_lab.Prelude.{
  ◌+◌, ◌≡◌, ◌⊎◌, refl, true, none, some, [], ◌∷◌, ◌++◌, arith, codes, replicate, bytes_eq, Option,
  List, Bytes, ℕ,
}
use computer_network_lab.FileSystem.{file_exists}
use computer_network_lab.FileSystem.Memory.{memory, memory-IsPosix, update}
use computer_network_lab.Message.{c_string}
use computer_network_lab.Server.Streams.{stream}
use computer_network_lab.Client.Transfer.{read_over}
use computer_network_lab.Labs.{
  CmdMsgT, Datagram, command, content, copy_name, cmd_ack, cmd_file_exists, cmd_overwrite,
}
use computer_network_lab.Labs.Server.{check_file, waiting, receive_from}
use computer_network_lab.Labs.Server.Loop.{
  lab_round, lab_run, take_datagram, select_command, serve_current, serve_phase,
}
use computer_network_lab.Labs.Server.Lifecycle.{lab_run_ends}
use computer_network_lab.Labs.Server.Sends.{waits_for}
use computer_network_lab.Labs.Server.Renames.{rename_unconfirmed, from_client, refusal}
use computer_network_lab.Labs.Client.{
  server_ready, completed, no_answer, renamed, read_word, send_server, receive_server, if_sent,
}
use computer_network_lab.Labs.Client.Commands.{
  request_rename, rename_named, send_new_name, await_renamed, take_rename_answer, report_renamed,
}
use computer_network_lab.Labs.Client.Sending.{send_request, request_send}
use computer_network_lab.Labs.Client.Sends.{types}
use computer_network_lab.Labs.Dialogue.{
  kept_as, small_file_refused, overwrite_lost, large_file_arrives,
}
use computer_network_lab.Labs.Agreement.{remove_agrees}
use computer_network_lab.Server.State.{default_config}
use computer_network_lab.Server.Handlers.{handle_remove}
use computer_network_lab.Server.Removal.{Acked}
use computer_network_lab.Server.Fixture.{disk, server, remove_a, valid_names}
use computer_network_lab.Labs.Fixture.{
  platform, platform-IsPlatform, blank, lab, lab_client, session, connection,
}

lab_run_ends_example :
    let s = record lab {
      inbox = some (1, content (codes "junk")) ∷ some (1, command (record blank { cmd = 6 })) ∷ [];
    } in
    let t = lab_run memory platform blank s in
    (t.ended ≡ true) ⊎ ((t.inbox ≡ []) × (t.server_state ≡ waiting))
lab_run_ends_example =
    lab_run_ends memory platform blank
      (record lab {
        inbox =
            some (1, content (codes "junk")) ∷ some (1, command (record blank { cmd = 6 })) ∷ [];
      })
      refl

small_file_refused_example :
    let request = command (send_request platform (codes "b") 2) in
    let refused = command (record blank { cmd = cmd_ack; error = 1 }) in
    let t = lab_round memory platform blank (waits_for (some (1, request) ∷ none ∷ []) lab) in
    let c = lab_client (codes "b") (codes "hi") in
    let u = (request_send memory platform (types (codes "b" ∷ []) (some refused ∷ []) c)).1 in
    (t.disk ≡ lab.disk)
    × (t.outbox ≡ [] ++ (1, refused) ∷ [])
    × (u.outbox ≡ [] ++ request ∷ content (read_over 2 (codes "hi") (replicate 4 0)) ∷ [])
unfolding check_file file_exists copy_name c_string bytes_eq
small_file_refused_example =
    small_file_refused memory platform platform-IsPlatform blank (codes "b") (codes "hi") 1 [] lab
      [] [] (lab_client (codes "b") (codes "hi")) refl (omega arith) refl

overwrite_lost_example :
    let stored = copy_name 6 (codes "a") in
    let request : Datagram = command (send_request platform (codes "a") 2) in
    let question : Datagram =
      command (record { cmd = cmd_file_exists; filename = []; size = 2; error = 0 }) in
    let confirmed : Datagram =
      command (record { cmd = cmd_overwrite; filename = stored; size = 2; error = 0 }) in
    let ready : Datagram = command (record { cmd = cmd_ack; filename = []; size = 2; error = 0 }) in
    let inbox : List (Option (ℕ × Datagram)) = some (1, request) ∷ some (1, confirmed) ∷ [] in
    let t =
      lab_round memory platform blank (lab_round memory platform blank (waits_for inbox lab)) in
    let c = lab_client (codes "a") (codes "hi") in
    let words = codes "a" ∷ (b'y' ∷ []) ∷ [] in
    let u = (request_send memory platform (types words (some question ∷ some ready ∷ []) c)).1 in
    (t.disk ≡ lab.disk)
    × (t.outbox ≡ [] ++ (1, question) ∷ (1, ready) ∷ [])
    × (u.outbox ≡ [] ++ request ∷ confirmed ∷ [])
    × (u.streams ≡ [])
    × (u.reports ≡ [] ++ server_ready ∷ [])
unfolding check_file file_exists copy_name c_string bytes_eq
overwrite_lost_example =
    overwrite_lost memory platform platform-IsPlatform blank (codes "a") (codes "hi") 1 [] lab [] []
      (lab_client (codes "a") (codes "hi")) refl (omega arith) refl refl

large_file_arrives_example :
    let request : Datagram = command (send_request platform (codes "b") 5) in
    let ack : Datagram =
      command (record { cmd = cmd_ack; filename = []; size = 40000; error = 0 }) in
    let s = record lab { sessions = session ∷ [] } in
    let t = lab_round memory platform blank (waits_for (some (1, request) ∷ []) s) in
    let c = record (lab_client (codes "b") (codes "hello")) { connections = connection ∷ [] } in
    let u = request_send memory platform (types (codes "b" ∷ []) (some ack ∷ some ack ∷ []) c) in
    (memory.regular t.disk (kept_as platform (codes "b")) ≡ some (codes "hello"))
    × (t.outbox ≡ [] ++ (1, ack) ∷ (1, ack) ∷ [])
    × (t.current_tcp_port ≡ 40000 + 1)
    × (u.1.outbox ≡ [] ++ request ∷ [])
    × (u.1.streams ≡ [] ++ (40000, codes "hello") ∷ [])
    × (u.1.reports ≡ [] ++ completed ∷ [])
unfolding check_file file_exists copy_name c_string bytes_eq stream
large_file_arrives_example =
    large_file_arrives memory platform platform-IsPlatform blank memory-IsPosix (codes "b")
      (codes "hello") 1 [] session (codes "hel" ∷ codes "lo" ∷ []) []
      (record lab.disk {
        content = update lab.disk.content (kept_as platform (codes "b")) (some []);
      })
      lab [] [] connection [] (lab_client (codes "b") (codes "hello")) refl (omega arith) refl refl
      (record { created = refl; bound = refl; listening = refl; accepted = refl }) (refl, refl) tt
      refl

-- The confirmation is there, but it says no.
rename_unconfirmed_example :
    let m : CmdMsgT = record { cmd = 5; filename = codes "a"; size = 0; error = 0 } in
    let question : CmdMsgT = record blank { cmd = cmd_file_exists; error = 0 } in
    let answer : Option Datagram =
      some (command (record blank { cmd = cmd_overwrite; error = 1 })) in
    let new_name : Bytes = 97 ∷ 0 ∷ 0 ∷ 0 ∷ [] in
    let inbox : List (Option (ℕ × Datagram)) =
      some (1, command m) ∷ some (1, content new_name) ∷ from_client 1 answer ∷ [] in
    let t = lab_round memory platform blank (waits_for inbox lab) in
    (t.disk ≡ lab.disk)
    × (t.outbox ≡ [] ++ (1, command question) ∷ refusal 1 question answer)
    × (t.inbox ≡ [])
unfolding check_file file_exists c_string bytes_eq
rename_unconfirmed_example =
    rename_unconfirmed memory platform platform-IsPlatform blank 1 (codes "a") (97 ∷ 0 ∷ 0 ∷ 0 ∷ [])
      (some (command (record blank { cmd = cmd_overwrite; error = 1 }))) [] lab refl refl refl refl

remove_agrees_example :
    let m : CmdMsgT = record { cmd = 4; filename = remove_a.filename; size = 0; error = 0 } in
    let s = record lab { disk = disk } in
    let first = lab_round memory platform blank (waits_for (some (1, command m) ∷ []) s) in
    let second = (handle_remove memory default_config remove_a (server [] [])).1 in
    (first.disk ≡ second.disk)
    × ((error : ℕ) × (first.outbox
          ≡ [] ++ (1, command (record blank { cmd = cmd_ack; error = error })) ∷ [])
        × Acked memory error (server [] []) second)
unfolding c_string bytes_eq
remove_agrees_example =
    remove_agrees memory platform platform-IsPlatform blank default_config remove_a (server [] []) 1
      remove_a.filename [] (record lab { disk = disk }) refl valid_names.3 refl refl refl refl

-- A command above 10 reads past `cmd_string`.
reads_past :
    let inbox : List (Option (ℕ × Datagram)) = some (1, command (record blank { cmd = 11 })) ∷ [] in
    let t = lab_round memory platform blank (record lab { inbox = inbox }) in t.overread ≡ true
unfolding lab_round take_datagram select_command serve_current serve_phase receive_from
reads_past = refl

-- No answer to RENAME comes, and what `ack_msg` held before is an acknowledgement.
renamed_without_answer :
    let c = record (lab_client [] []) {
      words = codes "a" ∷ codes "b" ∷ [];
      junk = record blank { cmd = 7 };
    } in
    let t = request_rename memory platform c in t.1.reports ≡ no_answer ∷ renamed ∷ []
unfolding request_rename rename_named read_word send_server receive_server send_new_name if_sent
    await_renamed take_rename_answer report_renamed
renamed_without_answer = refl
