-- ===== src/Server/Removal.antt =====
-- What REMOVE does, on every branch.
use computer_network_lab.Prelude.{
  ℕ, ◌≡◌, refl, ◌⊎◌, inl, inr, true, false, none, [], ◌∷◌, ◌++◌, Bytes, Bool-cases, Option-cases,
}
use computer_network_lab.Errors.{success, to_network_error, invalid_filename}
use computer_network_lab.FileSystem.{FileSystem, IsPosix, file_exists, delete_file}
use computer_network_lab.Filename.{is_valid_filename}
use computer_network_lab.Message.{CmdMsg, Command, encode, name_of}
use computer_network_lab.Server.State.{State, ServerConfig, reply}
use computer_network_lab.Server.Frames.{send_ok}
use computer_network_lab.Server.Handlers.{path_of, delete_and_reply, handle_remove}

module _ (fs : FileSystem) where
  -- One acknowledgement with this error number went to the client.
  abbrev pub Acked : ℕ → State fs → State fs → Type 0
  Acked error s t = t.outbox ≡ s.outbox ++ (s.client_addr, encode (reply Command.ack error 0)) ∷ []

  module _ (laws : IsPosix fs) (config : ServerConfig) where
    delete_and_reply_cases :
        (q : Bytes) (s : State fs)
        → s.send_results ≡ []
        → let t = delete_and_reply fs config q s in
          (t.0 ≡ success)
          × ((Acked 0 s t.1 × (fs.regular t.1.disk q ≡ none))
              ⊎ (Acked 1 s t.1 × (t.1.disk ≡ s.disk)))
    unfolding delete_and_reply delete_file
    delete_and_reply_cases q s sends = elim (Option-cases (fs.unlink s.disk q)) [
      | inl e ↦
          rw (e, delete_file, send_ok fs (reply Command.ack 1 0) s sends) (refl, inr (refl, refl))
      | inr (d, e) ↦
          rw (e, delete_file, send_ok fs (reply Command.ack 0 0) (record s { disk = d }) sends)
            (refl, inl (refl, laws.unlink_self s.disk q e))
    ]

-- REMOVE answers with one acknowledgement. Its error is 107 for an invalid name, and the disk is as
-- before; it is 0 if the file was there and is gone; it is 1 if the file was not there or could not
-- be deleted, and the disk is as before.
pub handle_remove_cases :
    (fs : FileSystem) (laws : IsPosix fs) (config : ServerConfig) (cmd : CmdMsg) (s : State fs)
    → s.send_results ≡ []
    → let t = handle_remove fs config cmd s in
      let q = path_of fs config (name_of cmd) in
      (t.0 ≡ success)
      × (((is_valid_filename (name_of cmd) ≡ false) × Acked fs 107 s t.1 × (t.1.disk ≡ s.disk))
          ⊎ ((is_valid_filename (name_of cmd) ≡ true)
              × (((file_exists fs s.disk q ≡ true)
                    × Acked fs 0 s t.1
                    × (fs.regular t.1.disk q ≡ none))
                  ⊎ (Acked fs 1 s t.1 × (t.1.disk ≡ s.disk)))))
unfolding handle_remove to_network_error
handle_remove_cases fs laws config cmd s sends =
    elim (Bool-cases (is_valid_filename (name_of cmd))) [
      | inr v ↦
          rw (v, send_ok fs (reply Command.ack (to_network_error invalid_filename) 0) s sends)
            (refl, inl (refl, refl, refl))
      | inl v ↦ elim (Bool-cases (file_exists fs s.disk (path_of fs config (name_of cmd)))) [
        | inr e ↦
            rw (v, e, send_ok fs (reply Command.ack 1 0) s sends)
              (refl, inr (refl, inr (refl, refl)))
        | inl e ↦
            let h =
              delete_and_reply_cases fs laws config (path_of fs config (name_of cmd)) s sends in
            rw (v, e) (h.0, inr (refl, elim h.1 [ inl (a, b) ↦ inl (refl, a, b) | inr k ↦ inr k ]))
      ]
    ]
