-- ===== src/Server/Renaming.antt =====
-- What RENAME does when the new name is free, and what it does to a file that is renamed to its
-- own name.
use computer_network_lab.Prelude.{ℕ, ◌≡◌, refl, true, false, none, some, List, [], ◌∷◌, ◌++◌, Bytes}
use computer_network_lab.Errors.{success}
use computer_network_lab.FileSystem.{FileSystem, IsPosix, file_exists, delete_file, rename_file}
use computer_network_lab.Filename.{is_valid_filename}
use computer_network_lab.Message.{
  CmdMsg, Command, encode, name_of, receive_cmd, receive_data, c_string,
}
use computer_network_lab.Server.State.{State, ServerConfig, Arrival, queued, reply}
use computer_network_lab.Server.Frames.{send_ok, receive_or_queued}
use computer_network_lab.Server.Answers.{IsRefusal, confirms-false}
use computer_network_lab.Server.Handlers.{
  path_of, confirms, rename_and_reply, replace_target, ask_replace, rename_to, send_ready,
  receive_new_name, handle_rename,
}

module _ (fs : FileSystem) (config : ServerConfig) where
  -- The state once READY_FOR_NEW_NAME is sent.
  abbrev readied : State fs → State fs
  readied s = record s {
    outbox = s.outbox ++ (s.client_addr, encode (reply Command.ready_for_new_name 0 0)) ∷ [];
  }

  -- The state once the new name has come from `sender`.
  abbrev named : State fs → ℕ → List Arrival → State fs
  named s sender rest = record (readied s) { inbox = rest; client_addr = sender }

  -- With the handshake enabled and the new name queued, RENAME goes on with that name.
  handle_rename-eq :
      (cmd : CmdMsg) (s : State fs) {sender c : ℕ} {b : Bytes} {rest : List Arrival}
      → config.enable_handshake ≡ true
      → is_valid_filename (name_of cmd) ≡ true
      → file_exists fs s.disk (path_of fs config (name_of cmd)) ≡ true
      → s.inbox ≡ queued sender (c ∷ b) ∷ rest
      → s.send_results ≡ []
      → handle_rename fs config cmd s
        ≡ rename_to fs config
            (path_of fs config (name_of cmd))
            (c_string (receive_data (c ∷ b)))
            (named s sender rest)
  unfolding handle_rename receive_new_name send_ready
  handle_rename-eq cmd s hs valid old came sends =
      rw (valid, old, hs, send_ok fs (reply Command.ready_for_new_name 0 0) s sends)
        (receive_or_queued fs _ _ (readied s) came)

-- RENAME with the handshake, to a valid name that is not yet there: READY_FOR_NEW_NAME goes to the
-- client and an acknowledgement without error to the sender of the new name; the file has moved
-- with its content, and nothing is left under the old name.
pub handle_rename_moves :
    (fs : FileSystem) (laws : IsPosix fs) (config : ServerConfig) (cmd : CmdMsg) (s : State fs)
    {sender c : ℕ} {b : Bytes} {rest : List Arrival} {d : fs.Disk}
    → config.enable_handshake ≡ true
    → is_valid_filename (name_of cmd) ≡ true
    → file_exists fs s.disk (path_of fs config (name_of cmd)) ≡ true
    → s.inbox ≡ queued sender (c ∷ b) ∷ rest
    → s.send_results ≡ []
    → is_valid_filename (c_string (receive_data (c ∷ b))) ≡ true
    → file_exists fs s.disk (path_of fs config (c_string (receive_data (c ∷ b)))) ≡ false
    → fs.rename s.disk
        (path_of fs config (name_of cmd))
        (path_of fs config (c_string (receive_data (c ∷ b))))
      ≡ some d
    → let t = handle_rename fs config cmd s in
      let old = path_of fs config (name_of cmd) in
      let new = path_of fs config (c_string (receive_data (c ∷ b))) in
      (t.0 ≡ success)
      × (fs.regular t.1.disk new ≡ fs.regular s.disk old)
      × (fs.regular t.1.disk old ≡ none)
      × (t.1.outbox
          ≡ (s.outbox ++ (s.client_addr, encode (reply Command.ready_for_new_name 0 0)) ∷ [])
            ++ (sender, encode (reply Command.ack 0 0)) ∷ [])
unfolding rename_to rename_and_reply rename_file
handle_rename_moves fs laws config cmd s {sender} {c} {b} {rest} {d} hs valid old came sends valid'
      fresh moved =
    rw
      (
        handle_rename-eq fs config cmd s hs valid old came sends,
        valid',
        fresh,
        moved,
        rename_file,
        send_ok fs (reply Command.ack 0 0) (record (named fs config s sender rest) { disk = d })
            sends,
      )
      (
        refl,
        laws.rename_target s.disk _ _ moved,
        laws.rename_source s.disk _ _ moved (λ same. cc),
        refl,
      )

module _ (fs : FileSystem) (config : ServerConfig) where
  -- The state once FILE_EXISTS is sent and the answer has come.
  abbrev asked : State fs → ℕ → List Arrival → State fs
  asked s sender rest = record s {
    outbox = s.outbox ++ (s.client_addr, encode (reply Command.file_exists 0 0)) ∷ [];
    inbox = rest;
    client_addr = sender;
  }

  ask_replace-eq :
      (old new : Bytes) (s : State fs) {sender c : ℕ} {b : Bytes} {rest : List Arrival}
      → s.inbox ≡ queued sender (c ∷ b) ∷ rest
      → s.send_results ≡ []
      → ask_replace fs config old new s
        ≡ replace_target fs config old new (receive_cmd (c ∷ b)) (asked s sender rest)
  unfolding ask_replace
  ask_replace-eq old new s came sends = rw (send_ok fs (reply Command.file_exists 0 0) s sends) (
      receive_or_queued fs _ _
        (record s {
          outbox = s.outbox ++ (s.client_addr, encode (reply Command.file_exists 0 0)) ∷ [];
        })
        came)

  -- RENAME up to the answer of the client, when the new name exists.
  handle_rename_asks :
      (cmd : CmdMsg) (s : State fs) {sender answerer c e : ℕ} {b f : Bytes} {rest : List Arrival}
      → config.enable_handshake ≡ true
      → is_valid_filename (name_of cmd) ≡ true
      → file_exists fs s.disk (path_of fs config (name_of cmd)) ≡ true
      → s.inbox ≡ queued sender (c ∷ b) ∷ queued answerer (e ∷ f) ∷ rest
      → s.send_results ≡ []
      → is_valid_filename (c_string (receive_data (c ∷ b))) ≡ true
      → file_exists fs s.disk (path_of fs config (c_string (receive_data (c ∷ b)))) ≡ true
      → handle_rename fs config cmd s
        ≡ replace_target fs config
            (path_of fs config (name_of cmd))
            (path_of fs config (c_string (receive_data (c ∷ b))))
            (receive_cmd (e ∷ f))
            (asked (named fs config s sender (queued answerer (e ∷ f) ∷ rest)) answerer rest)
  unfolding rename_to
  handle_rename_asks cmd s {sender} {answerer} {c} {e} {b} {f} {rest} hs valid old came sends valid'
        new =
      rw (handle_rename-eq fs config cmd s hs valid old came sends, valid', new)
        (ask_replace-eq _ _ (named fs config s sender (queued answerer (e ∷ f) ∷ rest)) refl sends)

-- RENAME to a name that exists, where the client's answer has another number than OVERWRITE or has an
-- error that is not 0: no file is changed, and the last reply is an acknowledgement with error 2 to the sender of the answer.
pub handle_rename_declined :
    (fs : FileSystem) (config : ServerConfig) (cmd : CmdMsg) (s : State fs)
    {sender answerer c e : ℕ} {b f : Bytes} {rest : List Arrival}
    → config.enable_handshake ≡ true
    → is_valid_filename (name_of cmd) ≡ true
    → file_exists fs s.disk (path_of fs config (name_of cmd)) ≡ true
    → s.inbox ≡ queued sender (c ∷ b) ∷ queued answerer (e ∷ f) ∷ rest
    → s.send_results ≡ []
    → is_valid_filename (c_string (receive_data (c ∷ b))) ≡ true
    → file_exists fs s.disk (path_of fs config (c_string (receive_data (c ∷ b)))) ≡ true
    → IsRefusal (receive_cmd (e ∷ f))
    → let t = handle_rename fs config cmd s in
      (t.0 ≡ success)
      × (t.1.disk ≡ s.disk)
      × (t.1.outbox
          ≡ ((s.outbox ++ (s.client_addr, encode (reply Command.ready_for_new_name 0 0)) ∷ [])
              ++ (sender, encode (reply Command.file_exists 0 0)) ∷ [])
            ++ (answerer, encode (reply Command.ack 2 0)) ∷ [])
unfolding replace_target
handle_rename_declined fs config cmd s {sender} {answerer} {e} {f} {rest} hs valid old came sends
      valid' new declined =
    rw
      (
        handle_rename_asks fs config cmd s hs valid old came sends valid' new,
        confirms-false (receive_cmd (e ∷ f)) declined,
        send_ok fs (reply Command.ack 2 0)
            (asked fs config (named fs config s sender (queued answerer (e ∷ f) ∷ rest)) answerer
              rest)
            sends,
      )
      (refl, refl, refl)

module _ (fs : FileSystem) (config : ServerConfig) where
  rename_and_reply_fails :
      (old new : Bytes) (s : State fs)
      → fs.rename s.disk old new ≡ none
      → s.send_results ≡ []
      → rename_and_reply fs config old new s ≡ (
        success,
        record s { outbox = s.outbox ++ (s.client_addr, encode (reply Command.ack 1 0)) ∷ [] },
      )
  unfolding rename_and_reply rename_file
  rename_and_reply_fails old new s failed sends =
      rw (failed, rename_file) (send_ok fs (reply Command.ack 1 0) s sends)

  -- The target of a confirmed replacement is the file itself.
  replace_self :
      (laws : IsPosix fs) (q : Bytes) (confirm : CmdMsg) (s : State fs) {d : fs.Disk}
      → confirms confirm ≡ true
      → fs.unlink s.disk q ≡ some d
      → s.send_results ≡ []
      → replace_target fs config q q confirm s ≡ (
        success,
        record s {
          disk = d;
          outbox = s.outbox ++ (s.client_addr, encode (reply Command.ack 1 0)) ∷ [];
        },
      )
  unfolding replace_target delete_file
  replace_self laws q confirm s {d} confirmed deleted sends =
      rw (confirmed, deleted, delete_file)
        (rename_and_reply_fails q q (record s { disk = d })
          (laws.rename_unlinked s.disk q q deleted) sends)

-- RENAME of a file to its own name, confirmed by the client: the target is deleted before the
-- rename, so the file is gone, the rename fails and the last reply has error 1.
pub handle_rename_to_self :
    (fs : FileSystem) (laws : IsPosix fs) (config : ServerConfig) (cmd : CmdMsg) (s : State fs)
    {sender answerer c e : ℕ} {b f : Bytes} {rest : List Arrival} {d : fs.Disk}
    → config.enable_handshake ≡ true
    → is_valid_filename (name_of cmd) ≡ true
    → file_exists fs s.disk (path_of fs config (name_of cmd)) ≡ true
    → s.inbox ≡ queued sender (c ∷ b) ∷ queued answerer (e ∷ f) ∷ rest
    → s.send_results ≡ []
    → c_string (receive_data (c ∷ b)) ≡ name_of cmd
    → confirms (receive_cmd (e ∷ f)) ≡ true
    → fs.unlink s.disk (path_of fs config (name_of cmd)) ≡ some d
    → let t = handle_rename fs config cmd s in
      (t.0 ≡ success)
      × (fs.regular t.1.disk (path_of fs config (name_of cmd)) ≡ none)
      × (t.1.outbox
          ≡ ((s.outbox ++ (s.client_addr, encode (reply Command.ready_for_new_name 0 0)) ∷ [])
              ++ (sender, encode (reply Command.file_exists 0 0)) ∷ [])
            ++ (answerer, encode (reply Command.ack 1 0)) ∷ [])
handle_rename_to_self fs laws config cmd s {sender} {answerer} {e} {f} {rest} {d} hs valid old came
      sends same confirmed deleted =
    let q = path_of fs config (name_of cmd) in
    rw
      (
        handle_rename_asks fs config cmd s hs valid old came sends (rw same valid) (rw same old),
        same,
        replace_self fs config laws q (receive_cmd (e ∷ f))
            (asked fs config (named fs config s sender (queued answerer (e ∷ f) ∷ rest)) answerer
              rest)
            confirmed deleted sends,
      )
      (refl, laws.unlink_self s.disk q deleted, refl)
