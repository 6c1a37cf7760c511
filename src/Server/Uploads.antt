-- ===== src/Server/Uploads.antt =====
-- What SEND leaves on the disk and what it answers, by UDP and by TCP.
use computer_network_lab.Prelude.{
  ℕ, ◌≤◌, ◌≡◌, refl, ◌∙◌, true, false, some, List, [], ◌∷◌, ◌++◌, Bytes, take, le→leb,
}
use computer_network_lab.Errors.{success, socket_recv_error}
use computer_network_lab.FileSystem.{FileSystem, IsPosix, file_exists}
use computer_network_lab.Filename.{is_valid_filename}
use computer_network_lab.Message.{CmdMsg, Command, encode, name_of, receive_data, data_buf_len}
use computer_network_lab.Metrics.{Metrics, record_bytes_received, record_send_session}
use computer_network_lab.Server.State.{State, ServerConfig, Arrival, queued, later, reply}
use computer_network_lab.Server.Frames.{send_ok, receive_or_queued, receive_or_later}
use computer_network_lab.Server.Transfer.{
  count_transfer, store_small, report_no_data, receive_small_file,
}
use computer_network_lab.Server.Handlers.{path_of, receive_file, handle_send}

abbrev pub ack_ok : CmdMsg
ack_ok = reply Command.ack 0 0

abbrev pub counted : ℕ → Metrics → Metrics
counted n m = record_send_session (record_bytes_received n m)

module _ (fs : FileSystem) where
  -- The state after a whole UDP transfer.
  abbrev pub stored : State fs → Bytes → ℕ → Bytes → fs.Disk → State fs
  stored s q size content d = record s {
    disk = fs.append d q (take size content);
    metrics = counted size s.metrics;
    outbox = s.outbox ++ (s.client_addr, encode ack_ok) ∷ [];
  }

  store_small-eq :
      (q : Bytes) (size : ℕ) (content : Bytes) (s : State fs) {d : fs.Disk}
      → fs.create s.disk q ≡ some d
      → s.send_results ≡ []
      → store_small fs q size content s ≡ (success, stored s q size content d)
  unfolding store_small count_transfer
  store_small-eq q size content s {d} made sends =
      rw (made, store_small)
        (send_ok fs ack_ok
          (record s { disk = fs.append d q (take size content); metrics = counted size s.metrics })
          sends)

  abbrev pub acknowledged : State fs → State fs
  acknowledged s = record s { outbox = s.outbox ++ (s.client_addr, encode ack_ok) ∷ [] }

  pub receive_small_file-eq :
      (q : Bytes) (size : ℕ) (s : State fs) {sender c : ℕ} {b : Bytes} {rest : List Arrival}
      {d : fs.Disk}
      → s.inbox ≡ queued sender (c ∷ b) ∷ rest
      → fs.create s.disk q ≡ some d
      → s.send_results ≡ []
      → receive_small_file fs q size s ≡ (
        success,
        stored
            (record (acknowledged s) { inbox = rest; client_addr = sender })
            q
            size
            (receive_data (c ∷ b))
            d,
      )
  unfolding receive_small_file
  receive_small_file-eq q size s {sender} {c} {b} {rest} came made sends =
      rw (send_ok fs ack_ok s sends) (
        receive_or_queued fs _ _ (acknowledged s) came
        ∙ store_small-eq q size (receive_data (c ∷ b))
            (record (acknowledged s) { inbox = rest; client_addr = sender }) made sends)

-- SEND of a new file of at most 3000 bytes, with its data queued: the file holds the first `size`
-- bytes of the data, the transfer is counted with its size, one acknowledgement goes to the client
-- before the data and one to the data's sender after it.
pub handle_send_small :
    (fs : FileSystem) (laws : IsPosix fs) (config : ServerConfig) (cmd : CmdMsg) (s : State fs)
    {sender c : ℕ} {b : Bytes} {rest : List Arrival} {d : fs.Disk}
    → is_valid_filename (name_of cmd) ≡ true
    → file_exists fs s.disk (path_of fs config (name_of cmd)) ≡ false
    → cmd.size ≤ data_buf_len
    → s.inbox ≡ queued sender (c ∷ b) ∷ rest
    → fs.create s.disk (path_of fs config (name_of cmd)) ≡ some d
    → s.send_results ≡ []
    → let t = handle_send fs config cmd s in
      (t.0 ≡ success)
      × (fs.regular t.1.disk (path_of fs config (name_of cmd))
          ≡ some (take cmd.size (receive_data (c ∷ b))))
      × (t.1.outbox
          ≡ (s.outbox ++ (s.client_addr, encode ack_ok) ∷ []) ++ (sender, encode ack_ok) ∷ [])
      × (t.1.metrics ≡ counted cmd.size s.metrics)
unfolding handle_send receive_file
handle_send_small fs laws config cmd s {d} valid fresh small came made sends =
    rw
      (
        valid,
        fresh,
        le→leb cmd.size data_buf_len small,
        receive_small_file-eq fs _ cmd.size s came made sends,
      )
      (refl, laws.append_self d _ _ (laws.create_self s.disk _ made), refl, refl)

-- On a non-blocking socket, the data of a new file that comes only after the first acknowledgement is
-- left in the queue.
pub handle_send_later :
    (fs : FileSystem) (config : ServerConfig) (cmd : CmdMsg) (s : State fs) {sender : ℕ} {b : Bytes}
    {rest : List Arrival}
    → is_valid_filename (name_of cmd) ≡ true
    → file_exists fs s.disk (path_of fs config (name_of cmd)) ≡ false
    → cmd.size ≤ data_buf_len
    → s.nonblocking ≡ true
    → s.inbox ≡ later sender b ∷ rest
    → s.send_results ≡ []
    → handle_send fs config cmd s ≡ (
      socket_recv_error,
      record s {
        inbox = queued sender b ∷ rest;
        outbox =
            (s.outbox ++ (s.client_addr, encode ack_ok) ∷ [])
            ++ (s.client_addr, encode (reply Command.ack 1 0)) ∷ [];
      },
    )
unfolding handle_send receive_file receive_small_file report_no_data
handle_send_later fs config cmd s {sender} {b} {rest} valid fresh small nb came sends =
    rw (valid, fresh, le→leb cmd.size data_buf_len small, send_ok fs ack_ok s sends)
      (receive_or_later fs _ _ (acknowledged fs s) nb came
        ∙ rw (
            send_ok fs (reply Command.ack 1 0)
              (record (acknowledged fs s) { inbox = queued sender b ∷ rest }) sends))
