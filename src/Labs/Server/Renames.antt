-- ===== src/Labs/Server/Renames.antt =====
-- original-labs/server.cc: RENAME to a name that is taken. The confirmation is received at once, on
-- a socket that does not block.
use computer_network_lab.Prelude.{
  ℕ, ◌≡◌, refl, Bool, true, false, not, ◌||◌, ◌==◌, Option, none, some, List, [], ◌∷◌, ◌++◌, Bytes,
  length, append_assoc, arith,
}
use computer_network_lab.FileSystem.{FileSystem}
use computer_network_lab.Message.{c_string}
use computer_network_lab.Labs.{
  Platform, IsPlatform, CmdMsgT, Datagram, command, content, backup_path, cmd_ack, cmd_file_exists,
  cmd_overwrite,
}
use computer_network_lab.Labs.Server.{Lab, check_file, receive_from, acknowledge, send_to}
use computer_network_lab.Labs.Server.Commands.{
  serve_rename, rename_requested, take_new_name, move_to, ask_confirmation, take_confirmation,
}
use computer_network_lab.Labs.Server.Loop.{select_command, serve_phase, serve_current, lab_round}
use computer_network_lab.Labs.Server.Sends.{waits_for, round_command}

-- What the receive of the answer finds: nothing, or a message of the same client.
abbrev pub from_client : ℕ → Option Datagram → Option (ℕ × Datagram)
from_client a none = none
from_client a (some b) = some (a, b)

-- What is answered to an answer that does not confirm; nothing, if there was none.
abbrev pub refusal : ℕ → CmdMsgT → Option Datagram → List (ℕ × Datagram)
refusal a ack none = []
refusal a ack (some b) = (a, command (record ack { cmd = cmd_ack; error = 2 })) ∷ []

module _ (fs : FileSystem) (p : Platform fs) (laws : IsPlatform fs p) (junk : CmdMsgT) where
  -- The answer is a confirmation.
  abbrev pub confirmed : Option Datagram → Bool
  confirmed none = false
  confirmed (some b) =
      not (not ((p.read_cmd junk b).cmd == cmd_overwrite) || not ((p.read_cmd junk b).error == 0))

  confirmed-false :
      (b : Datagram)
      → confirmed (some b) ≡ false
      → (not ((p.read_cmd junk b).cmd == cmd_overwrite) || not ((p.read_cmd junk b).error == 0))
        ≡ true
  confirmed-false b h = ground arith

  -- RENAME to a name that is taken, where no confirmation is there when the question has gone out:
  -- no file is touched. FILE_EXISTS is answered, and error 2 behind it if another message came.
  pub rename_unconfirmed :
      (a : ℕ) (name new_name : Bytes) (answer : Option Datagram)
      (rest : List (Option (ℕ × Datagram))) (s : Lab fs)
      → check_file fs s.disk (backup_path (c_string name)) ≡ true
      → check_file fs s.disk (backup_path (c_string new_name)) ≡ true
      → length new_name ≡ p.data_buf_len
      → confirmed answer ≡ false
      → let m : CmdMsgT = record { cmd = 5; filename = name; size = 0; error = 0 } in
        let question : CmdMsgT = record s.ack_msg { cmd = cmd_file_exists; error = 0 } in
        let inbox =
          some (a, command m) ∷ some (a, content new_name) ∷ from_client a answer ∷ rest in
        let t = lab_round fs p junk (waits_for inbox s) in
        (t.disk ≡ s.disk)
        × (t.outbox ≡ s.outbox ++ (a, command question) ∷ refusal a question answer)
        × (t.inbox ≡ rest)
  unfolding select_command serve_current serve_phase serve_rename rename_requested receive_from
      take_new_name move_to ask_confirmation take_confirmation acknowledge send_to
  rename_unconfirmed a name new_name none rest s source target whole refused =
      let m : CmdMsgT = record { cmd = 5; filename = name; size = 0; error = 0 } in
      simp
        (
          round_command fs p laws junk a m (some (a, content new_name) ∷ none ∷ rest) s,
          source,
          laws.read_data_whole s.data_msg new_name whole,
          target,
        )
        (refl, refl, refl)
  rename_unconfirmed a name new_name (some b) rest s source target whole refused =
      let m : CmdMsgT = record { cmd = 5; filename = name; size = 0; error = 0 } in
      let question : CmdMsgT = record s.ack_msg { cmd = 9; error = 0 } in
      simp
        (
          round_command fs p laws junk a m (some (a, content new_name) ∷ some (a, b) ∷ rest) s,
          source,
          laws.read_data_whole s.data_msg new_name whole,
          target,
          confirmed-false b refused,
        )
        (
          refl,
          append_assoc s.outbox ((a, command question) ∷ [])
              ((a, command (record question { cmd = 7; error = 2 })) ∷ []),
          refl,
        )
