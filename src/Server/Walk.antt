-- ===== src/Server/Walk.antt =====
-- A relation that the socket calls and the allowed disk changes keep is kept by every handler.
pub mod Commands
use computer_network_lab.Prelude.{
  ℕ, ◌+◌, ◌%◌, ◌^◌, ◌≡◌, refl, ap, ◌≢◌, Bool, true, false, not, Option, none, some, List, Bytes,
  if◌then◌else◌, leb, Bool-cases, inl, inr, arith,
}
use computer_network_lab.Errors.{
  ErrorCode, success, is_success, timeout, socket_create_error, socket_bind_error,
  socket_listen_error, invalid_command,
}
use computer_network_lab.FileSystem.{FileSystem, delete_file, rename_file, file_exists}
use computer_network_lab.Filename.{is_valid_filename}
use computer_network_lab.Message.{
  CmdMsg, Command, name_of, get_command, receive_cmd, receive_data, c_string, data_buf_len,
}
use computer_network_lab.Server.State.{
  State, ServerConfig, ServerState, TcpSession, M, modify, pure, send_response, send_data_response,
  receive, next_session, reply,
}
use computer_network_lab.Server.Keeps.{
  IsPreorder, Keeps, pure-Keeps, bind-Keeps, then-Keeps, receive_or-Keeps, if-Keeps, if_at,
}
use computer_network_lab.Server.Transfer.{
  store_small, receive_small_file, report_no_data, store_large, accept_large, accept_if_sent,
  offer_port, check_session, receive_large_file,
}
use computer_network_lab.Server.Handlers.{
  path_of, handle_ls, receive_file, overwrite_with, await_overwrite, ask_overwrite, reject_name,
  handle_send, delete_and_reply, handle_remove, rename_and_reply, replace_target, ask_replace,
  rename_to, send_ready, receive_new_name, handle_rename, handle_shutdown, process_command,
  confirms,
}

-- What is asked of the relation; `Touches` are the paths that may be written.
pub record KeepsCalls {fs : FileSystem} (R : State fs → State fs → Type 0)
    (Touches : Bytes → Type 0) : Type 0 where
  pub order : IsPreorder R
  pub send : (m : CmdMsg) → Keeps R (send_response fs m)
  pub send_data : (b : Bytes) → Keeps R (send_data_response fs b)
  pub recv : Keeps R (receive fs)
  pub session : Keeps R (next_session fs)
  pub phase : (x : ServerState) → Keeps R (modify fs (λ s. record s { state = x }))
  pub stop : Keeps R (modify fs (λ s. record s { shutdown_requested = true }))
  pub delete :
      (q : Bytes)
      → Touches q
      → Keeps R (modify fs (λ s. record s { disk = (delete_file fs s.disk q).1 }))
  pub rename :
      (q r : Bytes)
      → Touches q
      → Touches r
      → Keeps R (modify fs (λ s. record s { disk = (rename_file fs s.disk q r).1 }))
  pub small :
      (q : Bytes) (size : ℕ) (content : Bytes) → Touches q → Keeps R (store_small fs q size content)
  pub large :
      (q : Bytes) (size : ℕ) (chunks : List Bytes)
      → Touches q
      → Keeps R (store_large fs q size chunks)

module _ {fs : FileSystem} {R : State fs → State fs → Type 0} {Touches : Bytes → Type 0}
    (calls : KeepsCalls R Touches) where
  receive_small_file-Keeps :
      (q : Bytes) (size : ℕ) → Touches q → Keeps R (receive_small_file fs q size)
  unfolding receive_small_file report_no_data
  receive_small_file-Keeps q size ok = then-Keeps calls.order (calls.send _) (
      receive_or-Keeps calls.order calls.recv
        (then-Keeps calls.order (calls.send _) (pure-Keeps calls.order _))
        (λ b. calls.small q size (receive_data b) ok))

  accept_large-Keeps :
      (q : Bytes) (size : ℕ) (accepted : Option (List Bytes))
      → Touches q
      → Keeps R (accept_large fs q size accepted)
  unfolding accept_large
  accept_large-Keeps q size none ok = pure-Keeps calls.order _
  accept_large-Keeps q size (some chunks) ok = calls.large q size chunks ok

  offer_port-Keeps :
      (q : Bytes) (size : ℕ) (session : TcpSession)
      → Touches q
      → Keeps R (offer_port fs q size session)
  unfolding offer_port accept_if_sent
  offer_port-Keeps q size session ok = record {
    at = λ s.
        (bind-Keeps calls.order {f = accept_if_sent fs q size session}
            (calls.send (reply Command.ack 0 s.current_tcp_port))
            (λ sent.
              if-Keeps (is_success sent) (accept_large-Keeps q size session.accepted ok)
                (pure-Keeps calls.order sent))).at
          s;
  }

  check_session-Keeps :
      (q : Bytes) (size : ℕ) (session : TcpSession)
      → Touches q
      → Keeps R (check_session fs q size session)
  unfolding check_session
  check_session-Keeps q size session ok =
      if-Keeps (not session.created) (pure-Keeps calls.order socket_create_error) (
        if-Keeps (not session.bound) (pure-Keeps calls.order socket_bind_error) (
          if-Keeps (not session.listening) (pure-Keeps calls.order socket_listen_error)
            (offer_port-Keeps q size session ok)))

  receive_large_file-Keeps :
      (q : Bytes) (size : ℕ) → Touches q → Keeps R (receive_large_file fs q size)
  unfolding receive_large_file
  receive_large_file-Keeps q size ok =
      bind-Keeps calls.order {f = check_session fs q size} calls.session
        (λ session. check_session-Keeps q size session ok)

  module _ (config : ServerConfig) where
    -- Every valid name's path may be written.
    abbrev pub TouchesValid : Type 0
    TouchesValid = (name : Bytes) → is_valid_filename name ≡ true → Touches (path_of fs config name)

    reject_name-Keeps : Keeps R (reject_name fs config)
    reject_name-Keeps = calls.send _

    receive_file-Keeps :
        (q : Bytes) (size : ℕ) → Touches q → Keeps R (receive_file fs config q size)
    unfolding receive_file
    receive_file-Keeps q size ok =
        if-Keeps (leb size data_buf_len) (receive_small_file-Keeps q size ok)
          (receive_large_file-Keeps q size ok)

    -- A new file: the transfer is the only change.
    pub handle_send-Keeps_new :
        (cmd : CmdMsg) (s : State fs)
        → file_exists fs s.disk (path_of fs config (name_of cmd)) ≡ false
        → TouchesValid
        → R s (handle_send fs config cmd s).1
    unfolding handle_send
    handle_send-Keeps_new cmd s fresh ok = elim (Bool-cases (is_valid_filename (name_of cmd))) [
      | inl v ↦ rw (v, fresh) ((receive_file-Keeps _ cmd.size (ok _ v)).at s)
      | inr v ↦ rw v (reject_name-Keeps.at s)
    ]

    -- With every path allowed, the answer's name is no matter.
    ask_overwrite-Keeps :
        ((q : Bytes) → Touches q) → (size : ℕ) → Keeps R (ask_overwrite fs config size)
    unfolding ask_overwrite await_overwrite overwrite_with
    ask_overwrite-Keeps any size =
        bind-Keeps calls.order {f = await_overwrite fs config} (calls.send _) (λ sent.
          if-Keeps (is_success sent)
            (receive_or-Keeps calls.order calls.recv (pure-Keeps calls.order timeout) (λ b.
              if-Keeps (confirms (receive_cmd b))
                (receive_file-Keeps _ (receive_cmd b).size (any _)) (calls.send _)))
            (pure-Keeps calls.order sent))

    handle_send-Keeps_old :
        ((q : Bytes) → Touches q)
        → (cmd : CmdMsg) (s : State fs)
        → file_exists fs s.disk (path_of fs config (name_of cmd)) ≡ true
        → R s (handle_send fs config cmd s).1
    unfolding handle_send
    handle_send-Keeps_old any cmd s e = elim (Bool-cases (is_valid_filename (name_of cmd))) [
      | inl v ↦ rw (v, e) ((ask_overwrite-Keeps any cmd.size).at s)
      | inr v ↦ rw v (reject_name-Keeps.at s)
    ]

    pub handle_send-Keeps :
        ((q : Bytes) → Touches q) → (cmd : CmdMsg) → Keeps R (handle_send fs config cmd)
    handle_send-Keeps any cmd = record {
      at = λ s. elim (Bool-cases (file_exists fs s.disk (path_of fs config (name_of cmd)))) [
        | inl e ↦ handle_send-Keeps_old any cmd s e
        | inr e ↦ handle_send-Keeps_new cmd s e (λ n _. any _)
      ];
    }
