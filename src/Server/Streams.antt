-- ===== src/Server/Streams.antt =====
-- What SEND leaves on the disk when the data comes by TCP.
use computer_network_lab.Prelude.{
  ℕ, ◌+◌, ◌%◌, ◌^◌, ◌≤◌, ◌<◌, ◌≡◌, refl, sym, ap, ◌∙◌, ◌⊎◌, inl, inr, true, false, some, List, [],
  ◌∷◌, ◌++◌, append_assoc, append-nil, arith, Bytes, length, length-append, ltb, Bool-cases,
  lt→leb_false,
}
use computer_network_lab.Errors.{success, is_success}
use computer_network_lab.FileSystem.{FileSystem, IsPosix, file_exists}
use computer_network_lab.Filename.{is_valid_filename}
use computer_network_lab.Message.{CmdMsg, Command, encode, name_of, data_buf_len}
use computer_network_lab.Metrics.{record_bytes_received, record_send_session}
use computer_network_lab.Server.State.{State, ServerConfig, TcpSession, reply, next_session}
use computer_network_lab.Server.Frames.{send_ok, next_session-eq}
use computer_network_lab.Server.Transfer.{
  count_transfer, receive_loop, store_large, receive_large_file, accept_large, accept_if_sent,
  offer_port, check_session,
}
use computer_network_lab.Server.Handlers.{path_of, receive_file, handle_send}

-- The bytes that the peer sends before it closes the connection.
unfoldable pub stream : List Bytes → Bytes
stream [] = []
stream ([] ∷ chunks) = []
stream ((c ∷ chunk) ∷ chunks) = (c ∷ chunk) ++ stream chunks

-- What the receiving loop has written, when it ends: a prefix of the stream, as long as its count
-- says, and either enough or all that came.
pub record IsReceived (fs : FileSystem) (q before : Bytes) (size : ℕ) (chunks : List Bytes)
    (total : ℕ) (result : ℕ × fs.Disk) : Type 0 where
  pub written : Bytes
  pub rest : Bytes
  pub prefix : stream chunks ≡ written ++ rest
  pub content : fs.regular result.1 q ≡ some (before ++ written)
  pub count : result.0 ≡ total + length written
  pub enough : (size ≤ result.0) ⊎ (rest ≡ [])

module _ (fs : FileSystem) (laws : IsPosix fs) (q : Bytes) (size : ℕ) where
  stopped :
      (chunks : List Bytes) (total : ℕ) (d : fs.Disk) {before : Bytes}
      → fs.regular d q ≡ some before
      → (size ≤ total) ⊎ (stream chunks ≡ [])
      → IsReceived fs q before size chunks total (total, d)
  stopped chunks total d h e = record {
    written = [];
    rest = stream chunks;
    prefix = refl;
    content = h ∙ ap some (sym (append-nil _));
    count = omega arith;
    enough = e;
  }

  extended :
      (c : ℕ) (b : Bytes) (chunks : List Bytes) (total : ℕ) {before : Bytes} {result : ℕ × fs.Disk}
      → IsReceived fs q (before ++ c ∷ b) size chunks (total + length (c ∷ b)) result
      → IsReceived fs q before size ((c ∷ b) ∷ chunks) total result
  unfolding stream
  extended c b chunks total {before} r = record {
    written = (c ∷ b) ++ r.written;
    rest = r.rest;
    prefix = ap (λ t. (c ∷ b) ++ t) r.prefix ∙ sym (append_assoc (c ∷ b) r.written r.rest);
    content = r.content ∙ ap some (append_assoc before (c ∷ b) r.written);
    count = omega (arith, r.count, length-append (c ∷ b) r.written);
    enough = r.enough;
  }

  -- What the receiving loop has written behind the file's content, when it ends, is a prefix of the
  -- stream, as long as its count says, and either enough or all that came.
  pub receive_loop-IsReceived :
      (chunks : List Bytes) (total : ℕ) (d : fs.Disk) {before : Bytes}
      → fs.regular d q ≡ some before
      → IsReceived fs q before size chunks total (receive_loop fs q size chunks total d)
  unfolding receive_loop
  receive_loop-IsReceived [] total d h = stopped [] total d h (inr (unfold stream in refl))
  receive_loop-IsReceived ([] ∷ chunks) total d h = elim (Bool-cases (ltb total size)) [
    | inr e ↦ rw e (stopped ([] ∷ chunks) total d h (inr (unfold stream in refl)))
    | inl e ↦ rw e (stopped ([] ∷ chunks) total d h (inr (unfold stream in refl)))
  ]
  receive_loop-IsReceived ((c ∷ b) ∷ chunks) total d h = elim (Bool-cases (ltb total size)) [
    | inr e ↦ rw e (stopped ((c ∷ b) ∷ chunks) total d h (inl (ground arith)))
    | inl e ↦ rw e (
        extended c b chunks total (
          receive_loop-IsReceived chunks (total + length (c ∷ b)) (fs.append d q (c ∷ b))
            (laws.append_self d q (c ∷ b) h)))
  ]

-- The session's calls succeed, and `chunks` is what the connection delivers.
pub record IsOpen (session : TcpSession) (chunks : List Bytes) : Type 0 where
  pub created : session.created ≡ true
  pub bound : session.bound ≡ true
  pub listening : session.listening ≡ true
  pub accepted : session.accepted ≡ some chunks

module _ (fs : FileSystem) where
  abbrev offered : State fs → State fs
  offered s = record s {
    outbox = s.outbox ++ (s.client_addr, encode (reply Command.ack 0 s.current_tcp_port)) ∷ [];
  }

  abbrev finished : State fs → ℕ → fs.Disk → State fs
  finished s total e = record s {
    disk = e;
    metrics = record_send_session (record_bytes_received total s.metrics);
    current_tcp_port = (s.current_tcp_port + 1) % 2 ^ 16;
    outbox = s.outbox ++ (s.client_addr, encode (reply Command.ack 0 s.current_tcp_port)) ∷ [];
  }

  store_large-eq :
      (q : Bytes) (size : ℕ) (chunks : List Bytes) (s : State fs) {d : fs.Disk}
      → fs.create s.disk q ≡ some d
      → s.send_results ≡ []
      → let r = receive_loop fs q size chunks 0 d in
        store_large fs q size chunks s ≡ (success, finished s r.0 r.1)
  unfolding store_large count_transfer
  store_large-eq q size chunks s {d} made sends =
      let r = receive_loop fs q size chunks 0 d in
      rw (made, store_large)
        (send_ok fs (reply Command.ack 0 s.current_tcp_port)
          (record s {
            disk = r.1;
            metrics = record_send_session (record_bytes_received r.0 s.metrics);
            current_tcp_port = (s.current_tcp_port + 1) % 2 ^ 16;
          })
          sends)

  receive_large_file-eq :
      (q : Bytes) (size : ℕ) (chunks : List Bytes) (session : TcpSession) (s : State fs)
      {rest : List TcpSession} {d : fs.Disk}
      → IsOpen session chunks
      → s.sessions ≡ session ∷ rest
      → fs.create s.disk q ≡ some d
      → s.send_results ≡ []
      → let r = receive_loop fs q size chunks 0 d in
        receive_large_file fs q size s
        ≡ (success, finished (offered (record s { sessions = rest })) r.0 r.1)
  unfolding receive_large_file check_session offer_port accept_if_sent accept_large next_session
      is_success
  receive_large_file-eq q size chunks session s {rest} o next made sends =
      rw
        (
          next_session-eq fs s next,
          o.created,
          o.bound,
          o.listening,
          send_ok fs (reply Command.ack 0 s.current_tcp_port) (record s { sessions = rest }) sends,
          o.accepted,
          accept_large,
        )
        (store_large-eq q size chunks (offered (record s { sessions = rest })) made sends)

-- SEND of a new file of more than 3000 bytes over a connection that opens: the file holds what was
-- received, a prefix of the peer's stream that has all `size` bytes or ends where the stream ends;
-- the metrics count those bytes; the TCP port for the next transfer is one higher, modulo 2^16;
-- and both replies are acknowledgements with error 0, also where bytes are missing.
pub handle_send_large :
    (fs : FileSystem) (laws : IsPosix fs) (config : ServerConfig) (cmd : CmdMsg) (s : State fs)
    (chunks : List Bytes) (session : TcpSession) {rest : List TcpSession} {d : fs.Disk}
    → is_valid_filename (name_of cmd) ≡ true
    → file_exists fs s.disk (path_of fs config (name_of cmd)) ≡ false
    → data_buf_len < cmd.size
    → IsOpen session chunks
    → s.sessions ≡ session ∷ rest
    → fs.create s.disk (path_of fs config (name_of cmd)) ≡ some d
    → s.send_results ≡ []
    → let t = handle_send fs config cmd s in
      let port = encode (reply Command.ack 0 s.current_tcp_port) in
      (t.0 ≡ success)
      × ((total : ℕ) × IsReceived fs
            (path_of fs config (name_of cmd))
            []
            cmd.size
            chunks
            0
            (total, t.1.disk)
          × (t.1.metrics ≡ record_send_session (record_bytes_received total s.metrics)))
      × (t.1.current_tcp_port ≡ (s.current_tcp_port + 1) % 2 ^ 16)
      × (t.1.outbox ≡ (s.outbox ++ (s.client_addr, port) ∷ []) ++ (s.client_addr, port) ∷ [])
unfolding handle_send receive_file
handle_send_large fs laws config cmd s chunks session {d} valid fresh large open_session next made
      sends =
    let q = path_of fs config (name_of cmd) in
    let r = receive_loop fs q cmd.size chunks 0 d in
    rw
      (
        valid,
        fresh,
        lt→leb_false data_buf_len cmd.size large,
        receive_large_file-eq fs q cmd.size chunks session s open_session next made sends,
      )
      (
        refl,
        (
          r.0,
          receive_loop-IsReceived fs laws q cmd.size chunks 0 d (laws.create_self s.disk q made),
          refl,
        ),
        refl,
        refl,
      )
