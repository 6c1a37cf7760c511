-- ===== src/Server/Walk/Commands.antt =====
-- The handlers of REMOVE, RENAME, LS and SHUTDOWN, and the dispatch over all commands.
use computer_network_lab.Prelude.{
  ◌≡◌, refl, true, not, Bytes, if◌then◌else◌, Bool-cases, inl, inr, ◌≢◌,
}
use computer_network_lab.Errors.{ErrorCode, success, timeout, invalid_command}
use computer_network_lab.FileSystem.{
  FileSystem, delete_file, rename_file, file_exists, list_directory,
}
use computer_network_lab.Filename.{is_valid_filename}
use computer_network_lab.Listing.{pack}
use computer_network_lab.Message.{
  CmdMsg, Command, name_of, get_command, receive_cmd, receive_data, c_string,
}
use computer_network_lab.Server.State.{
  State, ServerConfig, ServerState, process_ls, process_send, process_remove, process_rename, M,
  send_response, reply,
}
use computer_network_lab.Server.Keeps.{Keeps, pure-Keeps, then-Keeps, receive_or-Keeps, if-Keeps}
use computer_network_lab.Server.Handlers.{
  path_of, handle_ls, delete_and_reply, handle_remove, rename_and_reply, replace_target,
  ask_replace, rename_to, send_ready, receive_new_name, handle_rename, handle_shutdown,
  process_command, confirms, reject_name, dispatch,
}
use computer_network_lab.Server.Walk.{KeepsCalls, TouchesValid, handle_send-Keeps}

module _ {fs : FileSystem} {R : State fs → State fs → Type 0} {Touches : Bytes → Type 0}
    (calls : KeepsCalls R Touches) (config : ServerConfig) where
  handle_ls-Keeps : Keeps R (handle_ls fs config)
  unfolding handle_ls
  handle_ls-Keeps = record {
    at = λ s. (calls.send_data (pack (list_directory fs s.disk config.backup_dir))).at s;
  }

  delete_and_reply-Keeps : (q : Bytes) → Touches q → Keeps R (delete_and_reply fs config q)
  unfolding delete_and_reply
  delete_and_reply-Keeps q ok = record {
    at = λ s.
        let d = delete_file fs s.disk q in
        calls.order.then_also s (record s { disk = d.1 }) _ ((calls.delete q ok).at s)
          ((calls.send (reply Command.ack (if d.0 then 0 else 1) 0)).at (record s { disk = d.1 }));
  }

  -- The checks at the head of REMOVE and RENAME: the name is refused or unknown, or the rest runs.
  checked_name-Keeps :
      (cmd : CmdMsg) (s : State fs) (rest : M fs ErrorCode)
      → (is_valid_filename (name_of cmd) ≡ true → Keeps R rest)
      → R s
          (if not (is_valid_filename (name_of cmd))
            then reject_name fs config s
            else if not (file_exists fs s.disk (path_of fs config (name_of cmd)))
            then send_response fs (reply Command.ack 1 0) s
            else rest s).1
  checked_name-Keeps cmd s rest k = elim (Bool-cases (is_valid_filename (name_of cmd))) [
    | inr v ↦ rw v ((calls.send _).at s)
    | inl v ↦ rw v (elim (Bool-cases (file_exists fs s.disk (path_of fs config (name_of cmd)))) [
      | inl e ↦ rw e ((k v).at s)
      | inr e ↦ rw e ((calls.send _).at s)
    ])
  ]

  pub handle_remove-Keeps :
      TouchesValid calls config → (cmd : CmdMsg) → Keeps R (handle_remove fs config cmd)
  unfolding handle_remove
  handle_remove-Keeps ok cmd = record {
    at = λ s.
        checked_name-Keeps cmd s (delete_and_reply fs config (path_of fs config (name_of cmd)))
          (λ v. delete_and_reply-Keeps _ (ok _ v));
  }

  rename_and_reply-Keeps :
      (q r : Bytes) → Touches q → Touches r → Keeps R (rename_and_reply fs config q r)
  unfolding rename_and_reply
  rename_and_reply-Keeps q r ok ok' = record {
    at = λ s.
        let d = rename_file fs s.disk q r in
        calls.order.then_also s (record s { disk = d.1 }) _ ((calls.rename q r ok ok').at s)
          ((calls.send (reply Command.ack (if d.0 then 0 else 1) 0)).at (record s { disk = d.1 }));
  }

  replace_target-Keeps :
      (q r : Bytes) (confirm : CmdMsg)
      → Touches q
      → Touches r
      → Keeps R (replace_target fs config q r confirm)
  unfolding replace_target
  replace_target-Keeps q r confirm ok ok' =
      if-Keeps (confirms confirm)
        (then-Keeps calls.order (calls.delete r ok') (rename_and_reply-Keeps q r ok ok'))
        (calls.send _)

  ask_replace-Keeps : (q r : Bytes) → Touches q → Touches r → Keeps R (ask_replace fs config q r)
  unfolding ask_replace
  ask_replace-Keeps q r ok ok' = then-Keeps calls.order (calls.send _) (
      receive_or-Keeps calls.order calls.recv (pure-Keeps calls.order timeout)
        (λ b. replace_target-Keeps q r (receive_cmd b) ok ok'))

  rename_to-Keeps :
      TouchesValid calls config
      → (q : Bytes) (new_name : Bytes) → Touches q
      → Keeps R (rename_to fs config q new_name)
  unfolding rename_to
  rename_to-Keeps ok q new_name touch = record {
    at = λ s. elim (Bool-cases (is_valid_filename new_name)) [
      | inr v ↦ rw v ((calls.send _).at s)
      | inl v ↦ rw v (elim (Bool-cases (file_exists fs s.disk (path_of fs config new_name))) [
        | inl e ↦ rw e ((ask_replace-Keeps q _ touch (ok _ v)).at s)
        | inr e ↦ rw e ((rename_and_reply-Keeps q _ touch (ok _ v)).at s)
      ])
    ];
  }

  send_ready-Keeps : Keeps R (send_ready fs config)
  unfolding send_ready
  send_ready-Keeps = record {
    at = λ s. elim (Bool-cases config.enable_handshake) [
      | inl h ↦ rw h ((calls.send (reply Command.ready_for_new_name 0 0)).at s)
      | inr h ↦ rw h (calls.order.same s)
    ];
  }

  pub handle_rename-Keeps :
      TouchesValid calls config → (cmd : CmdMsg) → Keeps R (handle_rename fs config cmd)
  unfolding handle_rename receive_new_name
  handle_rename-Keeps ok cmd = record {
    at = λ s.
        checked_name-Keeps cmd s (receive_new_name fs config (path_of fs config (name_of cmd)))
          (λ v. then-Keeps calls.order send_ready-Keeps (
            receive_or-Keeps calls.order calls.recv (pure-Keeps calls.order timeout)
              (λ b. rename_to-Keeps ok _ (c_string (receive_data b)) (ok _ v))));
  }

  handle_shutdown-Keeps : Keeps R (handle_shutdown fs config)
  unfolding handle_shutdown
  handle_shutdown-Keeps =
      then-Keeps calls.order (calls.send (reply Command.ack 0 0))
        (then-Keeps calls.order calls.stop (pure-Keeps calls.order success))

  -- Every command other than SEND.
  process-Keeps_not_send :
      TouchesValid calls config
      → (c : Command) (cmd : CmdMsg) → c ≢ Command.send
      → Keeps R (dispatch fs config c cmd)
  unfolding dispatch
  process-Keeps_not_send ok Command.ls cmd h =
      then-Keeps calls.order (calls.phase process_ls) handle_ls-Keeps
  process-Keeps_not_send ok Command.send cmd h = absurd (h refl)
  process-Keeps_not_send ok Command.remove cmd h =
      then-Keeps calls.order (calls.phase process_remove) (handle_remove-Keeps ok cmd)
  process-Keeps_not_send ok Command.rename cmd h =
      then-Keeps calls.order (calls.phase process_rename) (handle_rename-Keeps ok cmd)
  process-Keeps_not_send ok Command.shutdown cmd h =
      then-Keeps calls.order (calls.phase ServerState.shutdown) handle_shutdown-Keeps
  process-Keeps_not_send ok Command.overwrite cmd h = pure-Keeps calls.order success
  process-Keeps_not_send ok _ cmd h = pure-Keeps calls.order invalid_command

  pub process_command-Keeps_not_send :
      TouchesValid calls config
      → (cmd : CmdMsg) → get_command cmd ≢ Command.send
      → Keeps R (process_command fs config cmd)
  unfolding process_command
  process_command-Keeps_not_send ok cmd h = process-Keeps_not_send ok (get_command cmd) cmd h

  -- With every path allowed, all commands.
  dispatch-Keeps :
      ((q : Bytes) → Touches q) → (c : Command) (cmd : CmdMsg) → Keeps R (dispatch fs config c cmd)
  unfolding dispatch
  dispatch-Keeps any Command.send cmd =
      then-Keeps calls.order (calls.phase process_send) (handle_send-Keeps calls config any cmd)
  dispatch-Keeps any c cmd = process-Keeps_not_send (λ n _. any _) c cmd (cc)

  pub process_command-Keeps :
      ((q : Bytes) → Touches q) → (cmd : CmdMsg) → Keeps R (process_command fs config cmd)
  unfolding process_command
  process_command-Keeps any cmd = dispatch-Keeps any (get_command cmd) cmd
