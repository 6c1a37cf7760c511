-- ===== src/Server/Overwrites.antt =====
-- SEND of a name that is already there: the question, and what the client's answer decides.
use computer_network_lab.Prelude.{
  ℕ, ◌≤◌, ◌≡◌, refl, true, some, List, [], ◌∷◌, ◌++◌, Bytes, take, le→leb,
}
use computer_network_lab.Errors.{success, is_success}
use computer_network_lab.FileSystem.{FileSystem, IsPosix, file_exists}
use computer_network_lab.Filename.{is_valid_filename}
use computer_network_lab.Message.{
  CmdMsg, Command, encode, name_of, receive_cmd, receive_data, data_buf_len,
}
use computer_network_lab.Server.State.{State, ServerConfig, Arrival, queued, reply}
use computer_network_lab.Server.Frames.{send_ok, receive_or_queued}
use computer_network_lab.Server.Uploads.{receive_small_file-eq}
use computer_network_lab.Server.Answers.{IsRefusal, confirms-false}
use computer_network_lab.Server.Handlers.{
  path_of, confirms, receive_file, overwrite_with, await_overwrite, ask_overwrite, handle_send,
}

module _ (fs : FileSystem) (config : ServerConfig) where
  -- The state once FILE_EXISTS is sent, with the size that the client gave.
  abbrev pub questioned : State fs → ℕ → State fs
  questioned s size = record s {
    outbox = s.outbox ++ (s.client_addr, encode (reply Command.file_exists 0 size)) ∷ [];
  }

  -- SEND of a name that is there, up to the client's answer.
  handle_send_asks :
      (cmd : CmdMsg) (s : State fs) {sender c : ℕ} {b : Bytes} {rest : List Arrival}
      → is_valid_filename (name_of cmd) ≡ true
      → file_exists fs s.disk (path_of fs config (name_of cmd)) ≡ true
      → s.inbox ≡ queued sender (c ∷ b) ∷ rest
      → s.send_results ≡ []
      → handle_send fs config cmd s
        ≡ overwrite_with fs config
            (receive_cmd (c ∷ b))
            (record (questioned s cmd.size) { inbox = rest; client_addr = sender })
  unfolding handle_send ask_overwrite await_overwrite is_success
  handle_send_asks cmd s valid old came sends =
      rw (valid, old, send_ok fs (reply Command.file_exists 0 cmd.size) s sends)
        (receive_or_queued fs _ _ (questioned s cmd.size) came)

-- SEND of a name that exists, where the client's answer has another number than OVERWRITE or has an
-- error that is not 0: the disk is as before, and the replies are FILE_EXISTS to the client and an acknowledgement with error 2 to the answer's sender.
pub handle_send_declined :
    (fs : FileSystem) (config : ServerConfig) (cmd : CmdMsg) (s : State fs) {sender c : ℕ}
    {b : Bytes} {rest : List Arrival}
    → is_valid_filename (name_of cmd) ≡ true
    → file_exists fs s.disk (path_of fs config (name_of cmd)) ≡ true
    → s.inbox ≡ queued sender (c ∷ b) ∷ rest
    → s.send_results ≡ []
    → IsRefusal (receive_cmd (c ∷ b))
    → let t = handle_send fs config cmd s in
      (t.0 ≡ success)
      × (t.1.disk ≡ s.disk)
      × (t.1.outbox
          ≡ (s.outbox ++ (s.client_addr, encode (reply Command.file_exists 0 cmd.size)) ∷ [])
            ++ (sender, encode (reply Command.ack 2 0)) ∷ [])
unfolding overwrite_with
handle_send_declined fs config cmd s {sender} {c} {b} {rest} valid old came sends declined =
    rw
      (
        handle_send_asks fs config cmd s valid old came sends,
        confirms-false (receive_cmd (c ∷ b)) declined,
        send_ok fs (reply Command.ack 2 0)
            (record (questioned fs config s cmd.size) { inbox = rest; client_addr = sender }) sends,
      )
      (refl, refl, refl)

-- SEND of a name that exists, confirmed with a size of at most 3000: the data is written under the
-- name in the confirmation, whatever that name is. It is neither checked by `isValidFilename` nor
-- compared with the name that was asked about.
pub handle_send_overwrites :
    (fs : FileSystem) (laws : IsPosix fs) (config : ServerConfig) (cmd : CmdMsg) (s : State fs)
    {sender c peer e : ℕ} {b f : Bytes} {rest : List Arrival} {d : fs.Disk}
    → is_valid_filename (name_of cmd) ≡ true
    → file_exists fs s.disk (path_of fs config (name_of cmd)) ≡ true
    → s.inbox ≡ queued sender (c ∷ b) ∷ queued peer (e ∷ f) ∷ rest
    → s.send_results ≡ []
    → confirms (receive_cmd (c ∷ b)) ≡ true
    → (receive_cmd (c ∷ b)).size ≤ data_buf_len
    → fs.create s.disk (path_of fs config (name_of (receive_cmd (c ∷ b)))) ≡ some d
    → let t = handle_send fs config cmd s in
      let confirm = receive_cmd (c ∷ b) in
      (t.0 ≡ success)
      × (fs.regular t.1.disk (path_of fs config (name_of confirm))
          ≡ some (take confirm.size (receive_data (e ∷ f))))
unfolding overwrite_with receive_file
handle_send_overwrites fs laws config cmd s {sender} {c} {peer} {e} {b} {f} {rest} valid old came
      sends confirmed small made =
    let confirm = receive_cmd (c ∷ b) in
    rw
      (
        handle_send_asks fs config cmd s valid old came sends,
        confirmed,
        le→leb confirm.size data_buf_len small,
        receive_small_file-eq fs (path_of fs config (name_of confirm)) confirm.size
            (record (questioned fs config s cmd.size) {
              inbox = queued peer (e ∷ f) ∷ rest;
              client_addr = sender;
            })
            refl made sends,
      )
      (refl, laws.append_self _ _ _ (laws.create_self s.disk _ made))
