-- ===== src/Server/Frames.antt =====
-- What the socket calls change: sending only the outbox, receiving only the inbox and the address.
use computer_network_lab.Prelude.{
  ℕ, ◌≤◌, ◌≡◌, refl, ap, Bool, true, false, List, [], ◌∷◌, ◌++◌, arith, Bytes, length,
  if◌then◌else◌,
}
use computer_network_lab.Errors.{success}
use computer_network_lab.FileSystem.{FileSystem}
use computer_network_lab.Message.{CmdMsg, encode}
use computer_network_lab.Server.State.{
  State, Arrival, queued, later, TcpSession, M, send_bytes, send_response, send_data_response,
  receive, choose, receive_or, next_session,
}

module _ (fs : FileSystem) where
  abbrev pub results_after : List Bool → List Bool
  results_after [] = []
  results_after (ok ∷ rest) = rest

  abbrev pub outbox_after : List Bool → ℕ → Bytes → List (ℕ × Bytes) → List (ℕ × Bytes)
  outbox_after [] a b out = out ++ (a, b) ∷ []
  outbox_after (ok ∷ rest) a b out = if ok then out ++ (a, b) ∷ [] else out

  send_frame_with :
      (b : Bytes) (s : State fs) (results : List Bool)
      → s.send_results ≡ results
      → (send_bytes fs b s).1 ≡ record s {
        send_results = results_after results;
        outbox = outbox_after results s.client_addr b s.outbox;
      }
  unfolding send_bytes
  send_frame_with b s [] e = rw e
  send_frame_with b s (true ∷ rest) e = rw e
  send_frame_with b s (false ∷ rest) e = rw e

  pub send_frame :
      (m : CmdMsg) (s : State fs)
      → (send_response fs m s).1 ≡ record s {
        send_results = results_after s.send_results;
        outbox = outbox_after s.send_results s.client_addr (encode m) s.outbox;
      }
  unfolding send_response
  send_frame m s = send_frame_with (encode m) s s.send_results refl

  pub send_disk : (m : CmdMsg) (s : State fs) → (send_response fs m s).1.disk ≡ s.disk
  send_disk m s = ap (λ (t : State fs). t.disk) (send_frame m s)

  pub send_data_disk : (b : Bytes) (s : State fs) → (send_data_response fs b s).1.disk ≡ s.disk
  unfolding send_data_response
  send_data_disk b s = ap (λ (t : State fs). t.disk) (send_frame_with b s s.send_results refl)

  pub session_disk : (s : State fs) → (next_session fs s).1.disk ≡ s.disk
  unfolding next_session
  session_disk s = ground arith

  pub send_inbox : (m : CmdMsg) (s : State fs) → (send_response fs m s).1.inbox ≡ s.inbox
  send_inbox m s = ap (λ (t : State fs). t.inbox) (send_frame m s)

  pub send_data_inbox : (b : Bytes) (s : State fs) → (send_data_response fs b s).1.inbox ≡ s.inbox
  unfolding send_data_response
  send_data_inbox b s = ap (λ (t : State fs). t.inbox) (send_frame_with b s s.send_results refl)

  pub session_inbox : (s : State fs) → (next_session fs s).1.inbox ≡ s.inbox
  unfolding next_session
  session_inbox s = ground arith

  pub send_metrics : (m : CmdMsg) (s : State fs) → (send_response fs m s).1.metrics ≡ s.metrics
  send_metrics m s = ap (λ (t : State fs). t.metrics) (send_frame m s)

  pub send_data_metrics :
      (b : Bytes) (s : State fs) → (send_data_response fs b s).1.metrics ≡ s.metrics
  unfolding send_data_response
  send_data_metrics b s = ap (λ (t : State fs). t.metrics) (send_frame_with b s s.send_results refl)

  pub session_metrics : (s : State fs) → (next_session fs s).1.metrics ≡ s.metrics
  unfolding next_session
  session_metrics s = ground arith

  pub receive_metrics : (s : State fs) → (receive fs s).1.metrics ≡ s.metrics
  unfolding receive
  receive_metrics s = ground arith

  pub receive_disk : (s : State fs) → (receive fs s).1.disk ≡ s.disk
  unfolding receive
  receive_disk s = ground arith

  pub receive_inbox : (s : State fs) → length (receive fs s).1.inbox ≤ length s.inbox
  unfolding receive
  receive_inbox s = ground arith

  -- With nothing known to fail, a send succeeds and goes to the current client.
  pub send_ok :
      (m : CmdMsg) (s : State fs)
      → s.send_results ≡ []
      → send_response fs m s
        ≡ (success, record s { outbox = s.outbox ++ (s.client_addr, encode m) ∷ [] })
  unfolding send_response send_bytes
  send_ok m s e = rw e

  -- A datagram that is there already is received, and its sender becomes the client.
  pub receive_or_queued :
      {A : Type 0} (failed : M fs A) (use_bytes : Bytes → M fs A) (s : State fs) {sender c : ℕ}
      {b : Bytes} {rest : List Arrival}
      → s.inbox ≡ queued sender (c ∷ b) ∷ rest
      → receive_or fs failed use_bytes s
        ≡ use_bytes (c ∷ b) (record s { inbox = rest; client_addr = sender })
  unfolding receive_or receive choose
  receive_or_queued failed use_bytes s e = rw e

  -- On the server's socket, which does not block, a datagram that is yet to come is not waited for.
  pub receive_or_later :
      {A : Type 0} (failed : M fs A) (use_bytes : Bytes → M fs A) (s : State fs) {sender : ℕ}
      {b : Bytes} {rest : List Arrival}
      → s.nonblocking ≡ true
      → s.inbox ≡ later sender b ∷ rest
      → receive_or fs failed use_bytes s ≡ failed (record s { inbox = queued sender b ∷ rest })
  unfolding receive_or receive choose
  receive_or_later failed use_bytes s h e = rw (e, h)

  pub next_session-eq :
      (s : State fs) {t : TcpSession} {rest : List TcpSession}
      → s.sessions ≡ t ∷ rest
      → next_session fs s ≡ (t, record s { sessions = rest })
  unfolding next_session
  next_session-eq s e = rw e
