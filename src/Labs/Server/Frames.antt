-- ===== src/Labs/Server/Frames.antt =====
-- original-labs/server.cc: what the calls on the sockets leave as it was.
use computer_network_lab.Prelude.{
  ℕ, ◌-◌, ◌≤◌, ◌≡◌, refl, Bool, true, false, Option, none, some, List, [], ◌∷◌, arith, length,
}
use computer_network_lab.FileSystem.{FileSystem}
use computer_network_lab.Server.State.{TcpSession}
use computer_network_lab.Labs.{CmdMsgT, Datagram, command}
use computer_network_lab.Labs.Server.{
  Lab, send_with, send_to, receive_with, receive_from, acknowledge, acknowledge_size, sessions_with,
  take_session,
}

module _ (fs : FileSystem) where
  -- The parts of the state that a `sendto` does not touch.
  pub record IsSending (s t : Lab fs) : Type 0 where
    pub disk : t.disk ≡ s.disk
    pub inbox : t.inbox ≡ s.inbox
    pub server_state : t.server_state ≡ s.server_state

  send_with-IsSending :
      (l : List Bool) (b : Datagram) (s : Lab fs) → IsSending s (send_with fs l b s).1
  unfolding send_with
  send_with-IsSending [] b s = ground arith
  send_with-IsSending (true ∷ l) b s = ground arith
  send_with-IsSending (false ∷ l) b s = ground arith

  pub send_to-IsSending : (b : Datagram) (s : Lab fs) → IsSending s (send_to fs b s).1
  unfolding send_to
  send_to-IsSending b s = send_with-IsSending s.send_results b s

  pub acknowledge-IsSending :
      (cmd error : ℕ) (s : Lab fs) → IsSending s (acknowledge fs cmd error s).1
  unfolding acknowledge
  acknowledge-IsSending cmd error s =
      let t =
        send_to-IsSending (command (record s.ack_msg { cmd = cmd; error = error }))
          (record s { ack_msg = record s.ack_msg { cmd = cmd; error = error } }) in
      record { disk = t.disk; inbox = t.inbox; server_state = t.server_state }

  pub acknowledge_size-IsSending :
      (cmd error size : ℕ) (s : Lab fs) → IsSending s (acknowledge_size fs cmd error size s).1
  unfolding acknowledge_size
  acknowledge_size-IsSending cmd error size s =
      let m : CmdMsgT = record s.ack_msg { cmd = cmd; error = error; size = size } in
      let t = send_to-IsSending (command m) (record s { ack_msg = m }) in
      record { disk = t.disk; inbox = t.inbox; server_state = t.server_state }

  shorter :
      (l : List (Option (ℕ × Datagram))) (s : Lab fs)
      → s.inbox ≡ l
      → length (receive_with fs l s).1.inbox ≤ length l - 1
  unfolding receive_with
  shorter [] s h = rw h (omega arith)
  shorter (none ∷ l) s h = omega arith
  shorter (some (a, b) ∷ l) s h = omega arith

  pub receive_from_shorter : (s : Lab fs) → length (receive_from fs s).1.inbox ≤ length s.inbox - 1
  unfolding receive_from
  receive_from_shorter s = shorter s.inbox s refl

  session_kept : (l : List TcpSession) (s : Lab fs) → (sessions_with fs l s).1.inbox ≡ s.inbox
  unfolding sessions_with
  session_kept [] s = refl
  session_kept (t ∷ l) s = refl

  pub take_session_inbox : (s : Lab fs) → (take_session fs s).1.inbox ≡ s.inbox
  unfolding take_session
  take_session_inbox s = session_kept s.sessions s
