-- ===== src/Client/Dialogue.antt =====
-- A REMOVE from the client's command to its report, with the server in between.
use computer_network_lab.Prelude.{
  drop_all, take_all, ℕ, ◌^◌, ◌≤◌, ◌<◌, ◌≡◌, ◌⊎◌, refl, sym, ap, ◌∙◌, inl, inr, true, Option, none,
  some, List, [], ◌∷◌, ◌++◌, append-nil, arith, Bytes, Lacks, length, length-replicate, take, drop,
  get_or, if◌then◌else◌, ◌==◌,
}
use computer_network_lab.Errors.{ErrorCode, success, file_not_found, file_delete_error, is_success}
use computer_network_lab.Filename.{is_valid_filename}
use computer_network_lab.Filename.Safety.{is_valid_filename-Lacks}
use computer_network_lab.Message.{
  CmdMsg, Command, new_cmd_msg, set_command, set_filename, command_code, get_command, command_of,
  name_of, encode, decode, receive_cmd,
}
use computer_network_lab.Message.Wire.{IsWord, length-encode, decode-encode, receive_cmd-encode}
use computer_network_lab.Message.Fields.{name_of-set_filename, name_of-set_filename_short}
use computer_network_lab.FileSystem.{FileSystem, IsPosix, file_exists}
use computer_network_lab.Server.State.{State, ServerConfig, reply}
use computer_network_lab.Server.Handlers.{path_of}
use computer_network_lab.Server.Handlers
use computer_network_lab.Server.Removal.{Acked, handle_remove_cases}
use computer_network_lab.Client.{
  Client, receive_into, send_command, send_datagram, send_with, receive_with, sending, when_sent,
  receive_response, receive_datagram, when_received,
}
use computer_network_lab.Client.Commands.{command_message, is_command, removed, handle_remove}

-- A whole message replaces the old one.
receive_into-encode : (old m : CmdMsg) → IsWord old → IsWord m → receive_into old (encode m) ≡ m
unfolding receive_into
receive_into-encode old m w v =
    let cut : take 137 (encode m) ≡ encode m =
      take_all 137 (encode m) (omega (arith, length-encode m v)) in
    rw cut (
      rw
        (drop_all (length (encode m)) (encode old)
          (omega (arith, length-encode m v, length-encode old w)))
        (ap decode (append-nil (encode m)) ∙ decode-encode m v))

new_cmd_msg-IsWord : IsWord new_cmd_msg
unfolding new_cmd_msg
new_cmd_msg-IsWord = record {
  cmd = omega arith;
  filename = length-replicate {A = ℕ} 128 0;
  size = omega arith;
  port = omega arith;
  error = omega arith;
}

reply-IsWord : (e : ℕ) → e < 2 ^ 16 → IsWord (reply Command.ack e 0)
unfolding reply set_command new_cmd_msg command_code
reply-IsWord e h = record {
  cmd = omega arith;
  filename = length-replicate {A = ℕ} 128 0;
  size = omega arith;
  port = omega arith;
  error = h;
}

request-IsWord : (name : Bytes) → IsWord (command_message Command.remove name)
unfolding set_filename set_command new_cmd_msg command_code
request-IsWord name = record {
  cmd = omega arith;
  filename = (name_of-set_filename name (set_command Command.remove new_cmd_msg)).1;
  size = omega arith;
  port = omega arith;
  error = omega arith;
}

-- What the client reports of an acknowledgement with this error.
report : ℕ → ErrorCode
report e = if e == 0 then success else if e == 1 then file_not_found else file_delete_error

removed-reply : (e : ℕ) → removed (reply Command.ack e 0) ≡ report e
unfolding removed is_command get_command command_of reply set_command command_code report
removed-reply e = ground arith

module _ (fs : FileSystem) where
  send_command_ok :
      (m : CmdMsg) (c : Client fs)
      → c.send_results ≡ []
      → send_command fs m c
        ≡ (success, record c { outbox = c.outbox ++ (c.server_addr, encode m) ∷ [] })
  unfolding send_command send_datagram send_with
  send_command_ok m c h = rw (h, send_with)

  receive_datagram_ok :
      (c : Client fs) {a b : ℕ} {s : Bytes} {rest : List (Option (ℕ × Bytes))}
      → c.inbox ≡ some (a, b ∷ s) ∷ rest
      → receive_datagram fs c ≡ (some (b ∷ s), record c { inbox = rest; server_addr = a })
  unfolding receive_datagram receive_with
  receive_datagram_ok c h = rw (h, receive_with)

  -- The client's REMOVE, with a whole acknowledgement waiting: what it sends and what it reports.
  handle_remove_answered :
      (name : Bytes) (c : Client fs) (e : ℕ) {a : ℕ} {rest : List (Option (ℕ × Bytes))}
      → c.send_results ≡ []
      → c.inbox ≡ some (a, encode (reply Command.ack e 0)) ∷ rest
      → e < 2 ^ 16
      → let t = handle_remove fs name c in
        (t.0 ≡ report e)
        × (t.1.outbox
            ≡ c.outbox ++ (c.server_addr, encode (command_message Command.remove name)) ∷ [])
  unfolding handle_remove sending when_sent receive_response when_received encode is_success
  handle_remove_answered name c e {a} {rest} sends waiting small =
      let m = command_message Command.remove name in
      let sent = record c { outbox = c.outbox ++ (c.server_addr, encode m) ∷ [] } in
      rw (send_command_ok m c sends) (
        rw (receive_datagram_ok sent waiting) (
          ap removed (
                receive_into-encode new_cmd_msg (reply Command.ack e 0) new_cmd_msg-IsWord
                  (reply-IsWord e small))
              ∙ removed-reply e,
          refl,
        ))

-- The last entry of a list that is longer by one.
last_equal : (out : List (ℕ × Bytes)) {a b : ℕ × Bytes} → out ++ a ∷ [] ≡ out ++ b ∷ [] → a ≡ b
last_equal [] {a} {b} e = ap (λ l. get_or l 0 a) e
last_equal (x ∷ out) {a} {b} e = last_equal out (ap (drop 1) e)

-- The request arrives as it was meant.
request_name :
    (name : Bytes)
    → Lacks 0 name
    → length name ≤ 127
    → name_of (receive_cmd (encode (command_message Command.remove name))) ≡ name
request_name name h k =
    ap name_of (receive_cmd-encode (command_message Command.remove name) (request-IsWord name)).1
    ∙ name_of-set_filename_short name (set_command Command.remove new_cmd_msg) h k

-- The client hears what the server said.
heard :
    (fs remote : FileSystem) (name : Bytes) (c : Client fs) (s t : State remote) (e : ℕ) {a : ℕ}
    {b : Bytes} {rest : List (Option (ℕ × Bytes))}
    → c.send_results ≡ []
    → Acked remote e s t
    → t.outbox ≡ s.outbox ++ (s.client_addr, b) ∷ []
    → c.inbox ≡ some (a, b) ∷ rest
    → e < 2 ^ 16
    → (handle_remove fs name c).0 ≡ report e
heard fs remote name c s t e {a} {b} {rest} sends acked out waiting small =
    let same = ap (λ p. p.1) (last_equal s.outbox (sym out ∙ acked)) in
    (handle_remove_answered fs name c e sends (waiting ∙ ap (λ d. some (a, d) ∷ rest) same) small).0

-- REMOVE of a valid name of at most 127 bytes, where the client's message reaches the server and the
-- server's reply the client: the client reports success only if the file was there and is gone, and
-- otherwise it reports that the file was not found and the disk is as before.
pub handle_remove_agrees :
    (fs remote : FileSystem) (laws : IsPosix remote) (config : ServerConfig) (name : Bytes)
    (c : Client fs) (s : State remote) {a : ℕ} {b : Bytes} {rest : List (Option (ℕ × Bytes))}
    → is_valid_filename name ≡ true
    → length name ≤ 127
    → s.send_results ≡ []
    → c.send_results ≡ []
    → (Handlers.handle_remove remote config
        (receive_cmd (encode (command_message Command.remove name)))
        s).1.outbox
      ≡ s.outbox ++ (s.client_addr, b) ∷ []
    → c.inbox ≡ some (a, b) ∷ rest
    → let t =
        Handlers.handle_remove remote config
          (receive_cmd (encode (command_message Command.remove name)))
          s in
      let result = (handle_remove fs name c).0 in
      ((result ≡ success)
        × (file_exists remote s.disk (path_of remote config name) ≡ true)
        × (remote.regular t.1.disk (path_of remote config name) ≡ none))
      ⊎ ((result ≡ file_not_found) × (t.1.disk ≡ s.disk))
unfolding report
handle_remove_agrees fs remote laws config name c s {a} {b} {rest} valid short sends sends' out
      waiting =
    let m = receive_cmd (encode (command_message Command.remove name)) in
    let named = request_name name (is_valid_filename-Lacks name valid).2 short in
    let cases = (rw named at (handle_remove_cases remote laws config m s sends).1) in
    elim cases [
      | inl (invalid, _, _) ↦ absurd (cc)
      | inr (_, inl (old, acked, gone)) ↦ inl (
        heard fs remote name c s (Handlers.handle_remove remote config m s).1 0 sends' acked out
            waiting (omega arith),
        old,
        gone,
      )
      | inr (_, inr (acked, same)) ↦ inr (
        heard fs remote name c s (Handlers.handle_remove remote config m s).1 1 sends' acked out
            waiting (omega arith),
        same,
      )
    ]
