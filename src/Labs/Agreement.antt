-- ===== src/Labs/Agreement.antt =====
-- original-labs/server.cc beside server/server.cpp: REMOVE in the first server and in the later one.
use computer_network_lab.Prelude.{
  ℕ, ◌≡◌, ◌∙◌, sym, ap, refl, true, false, Option, none, some, List, [], ◌∷◌, ◌++◌, Bytes, codes,
  Option-cases, inl, inr,
}
use computer_network_lab.FileSystem.{FileSystem, file_exists, delete_file}
use computer_network_lab.Filename.{is_valid_filename}
use computer_network_lab.Paths.{join_path}
use computer_network_lab.Paths.Laws.{join_path_cases, is_valid_filename-IsComponent}
use computer_network_lab.Message.{CmdMsg, Command, name_of, c_string}
use computer_network_lab.Server.State.{State, ServerConfig, reply}
use computer_network_lab.Server.Frames.{send_ok}
use computer_network_lab.Server.Removal.{Acked}
use computer_network_lab.Server.Handlers.{path_of, delete_and_reply, handle_remove}
use computer_network_lab.Labs.{
  Platform, IsPlatform, CmdMsgT, Datagram, command, backup_path, cmd_ack,
}
use computer_network_lab.Labs.Server.{Lab, check_file, acknowledge, send_to}
use computer_network_lab.Labs.Server.Commands.{serve_remove, remove_file}
use computer_network_lab.Labs.Server.Loop.{select_command, serve_phase, serve_current, lab_round}
use computer_network_lab.Labs.Server.Sends.{waits_for, round_command}

module _ (fs : FileSystem) where
  -- The disk that a removal leaves, and the error of its answer.
  unfoldable pub removal : fs.Disk → Bytes → ℕ × fs.Disk
  removal d path = elim (fs.regular d path) [
    | none ↦ (1, d)
    | some c ↦ elim (fs.unlink d path) [ none ↦ (1, d) | some e ↦ (0, e) ]
  ]

  file_exists-none :
      (d : fs.Disk) (path : Bytes) → fs.regular d path ≡ none → file_exists fs d path ≡ false
  unfolding file_exists
  file_exists-none d path e = rw (e, file_exists)

  file_exists-some :
      (d : fs.Disk) (path : Bytes) {c : Bytes}
      → fs.regular d path ≡ some c
      → file_exists fs d path ≡ true
  unfolding file_exists
  file_exists-some d path e = rw (e, file_exists)

  handle_remove-removal :
      (config : ServerConfig) (cmd : CmdMsg) (s : State fs)
      → s.send_results ≡ []
      → is_valid_filename (name_of cmd) ≡ true
      → let r = removal s.disk (path_of fs config (name_of cmd)) in
        let t = handle_remove fs config cmd s in (t.1.disk ≡ r.1) × Acked fs r.0 s t.1
  unfolding removal handle_remove delete_and_reply delete_file
  handle_remove-removal config cmd s sends valid =
      let path = path_of fs config (name_of cmd) in
      elim (Option-cases (fs.regular s.disk path)) [
        | inl e ↦
            rw
              (
                valid,
                file_exists-none s.disk path e,
                e,
                removal,
                send_ok fs (reply Command.ack 1 0) s sends,
              )
              (refl, refl)
        | inr (c, e) ↦ elim (Option-cases (fs.unlink s.disk path)) [
          | inl u ↦
              rw
                (
                  valid,
                  file_exists-some s.disk path e,
                  e,
                  u,
                  removal,
                  delete_and_reply,
                  delete_file,
                  send_ok fs (reply Command.ack 1 0) s sends,
                )
                (refl, refl)
          | inr (d, u) ↦
              rw
                (
                  valid,
                  file_exists-some s.disk path e,
                  e,
                  u,
                  removal,
                  delete_and_reply,
                  delete_file,
                  send_ok fs (reply Command.ack 0 0) (record s { disk = d }) sends,
                )
                (refl, refl)
        ]
      ]

  module _ (p : Platform fs) (laws : IsPlatform fs p) (junk : CmdMsgT) where
    round_remove-removal :
        (a : ℕ) (name : Bytes) (rest : List (Option (ℕ × Datagram))) (s : Lab fs)
        → let path = backup_path (c_string name) in
          let m : CmdMsgT = record { cmd = 4; filename = name; size = 0; error = 0 } in
          let r = removal s.disk path in
          let t = lab_round fs p junk (waits_for (some (a, command m) ∷ rest) s) in
          let ack : CmdMsgT = record s.ack_msg { cmd = cmd_ack; error = r.0 } in
          fs.is_directory s.disk path ≡ false
          → (t.disk ≡ r.1) × (t.outbox ≡ s.outbox ++ (a, command ack) ∷ [])
    unfolding removal select_command serve_current serve_phase serve_remove remove_file check_file
        acknowledge send_to
    round_remove-removal a name rest s no_directory =
        let path = backup_path (c_string name) in
        let m : CmdMsgT = record { cmd = 4; filename = name; size = 0; error = 0 } in
        elim (Option-cases (fs.regular s.disk path)) [
          | inl e ↦
              rw
                (
                  round_command fs p laws junk a m rest s,
                  file_exists-none s.disk path e,
                  no_directory,
                  e,
                  removal,
                )
                (refl, refl)
          | inr (c, e) ↦ elim (Option-cases (fs.unlink s.disk path)) [
            | inl u ↦
                rw
                  (
                    round_command fs p laws junk a m rest s,
                    file_exists-some s.disk path e,
                    laws.remove_file s.disk path e,
                    e,
                    u,
                    removal,
                  )
                  (refl, refl)
            | inr (d, u) ↦
                rw
                  (
                    round_command fs p laws junk a m rest s,
                    file_exists-some s.disk path e,
                    laws.remove_file s.disk path e,
                    e,
                    u,
                    removal,
                  )
                  (refl, refl)
          ]
        ]

    -- REMOVE of a valid name that is no directory's, with the same disk under "backup": the first
    -- server and the later one leave the same disk, and answer once, with an acknowledgement that
    -- has the same error.
    pub remove_agrees :
        (config : ServerConfig) (cmd : CmdMsg) (t : State fs) (a : ℕ) (name : Bytes)
        (rest : List (Option (ℕ × Datagram))) (s : Lab fs)
        → config.backup_dir ≡ codes "backup"
        → is_valid_filename (name_of cmd) ≡ true
        → c_string name ≡ name_of cmd
        → t.send_results ≡ []
        → t.disk ≡ s.disk
        → fs.is_directory s.disk (backup_path (name_of cmd)) ≡ false
        → let m : CmdMsgT = record { cmd = 4; filename = name; size = 0; error = 0 } in
          let first = lab_round fs p junk (waits_for (some (a, command m) ∷ rest) s) in
          let second = (handle_remove fs config cmd t).1 in
          (first.disk ≡ second.disk)
          × ((error : ℕ) × (first.outbox
                ≡ s.outbox ++ (a, command (record s.ack_msg { cmd = cmd_ack; error = error })) ∷ [])
              × Acked fs error t second)
    remove_agrees config cmd t a name rest s directory valid same_name sends same_disk
          no_directory =
        let part = is_valid_filename-IsComponent (name_of cmd) valid in
        let path : path_of fs config (name_of cmd) ≡ backup_path (name_of cmd) =
          ap (λ b. join_path b (name_of cmd)) directory
          ∙ join_path_cases (codes "backup") (name_of cmd) (λ x. cc) part in
        let (d1, o1) =
          round_remove-removal a name rest s
            (ap (λ n. fs.is_directory s.disk (backup_path n)) same_name ∙ no_directory) in
        let (d2, o2) = handle_remove-removal config cmd t sends valid in
        let same : removal s.disk (backup_path (c_string name))
            ≡ removal t.disk (path_of fs config (name_of cmd)) =
          ap (λ n. removal s.disk (backup_path n)) same_name
          ∙ ap (λ q. removal s.disk q) (sym path)
          ∙ ap (λ d. removal d (path_of fs config (name_of cmd))) (sym same_disk) in
        (
          d1 ∙ ap (λ (x : ℕ × fs.Disk). x.1) same ∙ sym d2,
          (
            (removal t.disk (path_of fs config (name_of cmd))).0,
            o1
                ∙ ap
                    (λ (x : ℕ × fs.Disk).
                      s.outbox ++ (a, command (record s.ack_msg { cmd = 7; error = x.0 })) ∷ [])
                    same,
            o2,
          ),
        )
