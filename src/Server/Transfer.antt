-- ===== src/Server/Transfer.antt =====
-- `receiveSmallFile` and `receiveLargeFile`.
use computer_network_lab.Prelude.{
  ℕ, ◌+◌, ◌%◌, ◌^◌, not, Option, none, some, List, [], ◌∷◌, ltb, if◌then◌else◌, Bytes, length, take,
}
use computer_network_lab.Errors.{
  ErrorCode, socket_recv_error, file_open_error, socket_create_error, socket_bind_error,
  socket_listen_error, socket_accept_error, is_success,
}
use computer_network_lab.Message.{Command, receive_data}
use computer_network_lab.Metrics.{record_bytes_received, record_send_session}
use computer_network_lab.FileSystem.{FileSystem}
use computer_network_lab.Server.State.{
  TcpSession, M, ◌>>=◌, ◌>>◌, pure, modify, send_response, receive_or, next_session, reply,
}
use computer_network_lab.Filename.{is_empty}

module _ (fs : FileSystem) where
  -- The metrics of a finished transfer.
  unfoldable pub count_transfer : ℕ → M fs (Unit {0})
  count_transfer n s =
      (tt, record s { metrics = record_send_session (record_bytes_received n s.metrics) })

  -- Opening the file, writing and closing it, then the last response.
  unfoldable pub store_small : Bytes → ℕ → Bytes → M fs ErrorCode
  store_small filepath filesize content s = elim (fs.create s.disk filepath) [
    | none ↦ (do send_response fs (reply Command.ack 1 0); pure file_open_error) s
    | some d ↦
        (do
          modify fs (λ t. record t { disk = fs.append d filepath (take filesize content) })
          count_transfer filesize
          send_response fs (reply Command.ack 0 0))
          s
  ]

  -- The reply to a transfer that brought no data.
  unfoldable pub report_no_data : M fs ErrorCode
  report_no_data = do send_response fs (reply Command.ack 1 0); pure socket_recv_error

  unfoldable pub receive_small_file : Bytes → ℕ → M fs ErrorCode
  receive_small_file filepath filesize = do
    send_response fs (reply Command.ack 0 0)
    receive_or fs report_no_data (λ b. store_small filepath filesize (receive_data b))

  -- The loop that receives and writes until `filesize` bytes have come or the peer is gone: the
  -- bytes received, and the disk.
  unfoldable pub receive_loop : Bytes → ℕ → List Bytes → ℕ → fs.Disk → ℕ × fs.Disk
  receive_loop filepath filesize [] total d = (total, d)
  receive_loop filepath filesize (chunk ∷ chunks) total d =
      let more =
        receive_loop filepath filesize chunks (total + length chunk) (fs.append d filepath chunk) in
      if ltb total filesize then (if is_empty chunk then (total, d) else more) else (total, d)

  -- What follows a successful `accept`.
  unfoldable pub store_large : Bytes → ℕ → List Bytes → M fs ErrorCode
  store_large filepath filesize chunks s = elim (fs.create s.disk filepath) [
    | none ↦ (file_open_error, s)
    | some d ↦
        let (total, e) = receive_loop filepath filesize chunks 0 d in
        (do
          modify fs (λ t. record t { disk = e })
          count_transfer total
          modify fs (λ t. record t { current_tcp_port = (t.current_tcp_port + 1) % 2 ^ 16 })
          send_response fs (reply Command.ack 0 s.current_tcp_port))
          s
  ]

  -- What follows once the port is sent: the connection is accepted.
  unfoldable pub accept_large : Bytes → ℕ → Option (List Bytes) → M fs ErrorCode
  accept_large filepath filesize none = pure socket_accept_error
  accept_large filepath filesize (some chunks) = store_large filepath filesize chunks

  unfoldable pub accept_if_sent : Bytes → ℕ → TcpSession → ErrorCode → M fs ErrorCode
  accept_if_sent filepath filesize session sent =
      if is_success sent then accept_large filepath filesize session.accepted else pure sent

  -- What follows a successful `listen`: the port is sent.
  unfoldable pub offer_port : Bytes → ℕ → TcpSession → M fs ErrorCode
  offer_port filepath filesize session s =
      (do
        sent ← send_response fs (reply Command.ack 0 s.current_tcp_port)
        accept_if_sent filepath filesize session sent)
        s

  -- What follows the calls of the session: their failures, each with its code.
  unfoldable pub check_session : Bytes → ℕ → TcpSession → M fs ErrorCode
  check_session filepath filesize session =
      if not session.created
      then pure socket_create_error
      else if not session.bound
      then pure socket_bind_error
      else if not session.listening
      then pure socket_listen_error
      else offer_port filepath filesize session

  unfoldable pub receive_large_file : Bytes → ℕ → M fs ErrorCode
  receive_large_file filepath filesize = do
    session ← next_session fs
    check_session filepath filesize session
