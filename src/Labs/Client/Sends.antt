-- ===== src/Labs/Client/Sends.antt =====
-- original-labs/client.cc: what an upload sends and prints, for the answers that come.
use computer_network_lab.Prelude.{
  ℕ, ◌≤◌, ◌<◌, ◌≡◌, ◌∙◌, refl, true, Option, none, some, List, [], ◌∷◌, ◌++◌, append_assoc, length,
  Bytes, lt→ltb, ltb-false, replicate,
}
use computer_network_lab.FileSystem.{FileSystem}
use computer_network_lab.Client.Transfer.{read_over}
use computer_network_lab.Labs.{
  Platform, IsPlatform, CmdMsgT, Datagram, command, content, copy_name, cmd_ack, cmd_file_exists,
  cmd_overwrite,
}
use computer_network_lab.Labs.Client.{
  LabClient, server_ready, if_sent, if_received, read_word, read_letter, send_server,
  receive_server, take_connection, completed, is_done,
}
use computer_network_lab.Client.{Connection}
use computer_network_lab.Client.Sending.{AllTaken, send_file_whole}
use computer_network_lab.Labs.Client.Sending.{
  send_stream, stream_over, stream_file, await_completion, take_completion, send_request, take_ack,
  await_sent, send_message, send_accepted, take_response, await_response, send_opened, send_named,
  request_send, ask_overwrite, await_ready, take_ready, confirmation, is_yes,
}

-- The client with these words typed and these receives to come; every `sendto` succeeds.
abbrev pub types :
    {fs : FileSystem} → List Bytes → List (Option Datagram) → LabClient fs → LabClient fs
types words inbox c = record c { words = words; inbox = inbox; send_results = [] }

-- The first answer meets the client in this state.
abbrev pub offered :
    {fs : FileSystem}
    → Platform fs
    → Bytes
    → Bytes
    → List Bytes
    → List (Option Datagram)
    → LabClient fs
    → LabClient fs
offered p name text words rest c =
    let m = send_request p name (length text) in
    record c {
      words = words;
      inbox = rest;
      send_results = [];
      filename = name;
      cmd_msg = m;
      outbox = c.outbox ++ command m ∷ [];
    }

module _ (fs : FileSystem) (p : Platform fs) (laws : IsPlatform fs p) where
  await_sent_outbox :
      (inbox : List (Option Datagram)) (c : LabClient fs)
      → c.inbox ≡ inbox
      → (await_sent fs p c).1.outbox ≡ c.outbox
  unfolding await_sent receive_server if_received take_ack
  await_sent_outbox [] c h = rw h
  await_sent_outbox (none ∷ rest) c h = rw h
  await_sent_outbox (some b ∷ rest) c h = rw h

  pub request_send_offers :
      (name text : Bytes) (words : List Bytes) (response : CmdMsgT) (rest : List (Option Datagram))
      (c : LabClient fs)
      → fs.regular c.disk name ≡ some text
      → request_send fs p (types (name ∷ words) (some (command response) ∷ rest) c)
        ≡ take_response fs p
            (length text)
            text
            (command response)
            (offered p name text words rest c)
  unfolding request_send read_word send_named send_opened send_server if_sent await_response
      receive_server if_received
  request_send_offers name text words response rest c h = rw (h, send_named)

  -- An acknowledgement, whatever its error: the data follows.
  pub request_send_small :
      (name text : Bytes) (words : List Bytes) (response : CmdMsgT) (rest : List (Option Datagram))
      (c : LabClient fs)
      → fs.regular c.disk name ≡ some text
      → length text ≤ p.data_buf_len
      → response.cmd ≡ cmd_ack
      → (request_send fs p (types (name ∷ words) (some (command response) ∷ rest) c)).1.outbox
        ≡ c.outbox
          ++ command (send_request p name (length text))
            ∷ content (read_over (length text) text (replicate p.data_buf_len 0))
            ∷ []
  unfolding take_response send_accepted send_message send_server if_sent
  request_send_small name text words response rest c h small ack =
      let data_msg = read_over (length text) text (replicate p.data_buf_len 0) in
      let m = send_request p name (length text) in
      rw
        (
          request_send_offers name text words response rest c h,
          laws.read_cmd_whole c.junk response,
          ack,
          ltb-false (length text) p.data_buf_len small,
        )
        (await_sent_outbox rest _ refl
          ∙ append_assoc c.outbox (command m ∷ []) (content data_msg ∷ []))

  -- FILE_EXISTS, the answer y, and an acknowledgement.
  pub request_send_overwrites :
      (name text : Bytes) (words : List Bytes) (taken response : CmdMsgT)
      (rest : List (Option Datagram)) (c : LabClient fs)
      → fs.regular c.disk name ≡ some text
      → length text ≤ p.data_buf_len
      → taken.cmd ≡ cmd_file_exists
      → response.cmd ≡ cmd_ack
      → let inbox : List (Option Datagram) =
          some (command taken) ∷ some (command response) ∷ rest in
        let t = (request_send fs p (types (name ∷ (b'y' ∷ []) ∷ words) inbox c)).1 in
        let confirm : CmdMsgT = record {
          cmd = cmd_overwrite;
          filename = copy_name p.file_name_len name;
          size = length text;
          error = 0;
        } in
        (t.outbox ≡ c.outbox ++ command (send_request p name (length text)) ∷ command confirm ∷ [])
        × (t.streams ≡ c.streams)
        × (t.reports ≡ c.reports ++ server_ready ∷ [])
  unfolding take_response ask_overwrite read_letter confirmation is_yes send_server if_sent
      await_ready receive_server if_received take_ready
  request_send_overwrites name text words taken response rest c h small exists ack =
      simp
        (
          request_send_offers name text ((b'y' ∷ []) ∷ words) taken (some (command response) ∷ rest)
              c h,
          laws.read_cmd_whole c.junk taken,
          exists,
          laws.read_cmd_whole taken response,
          ack,
          ltb-false (length text) p.data_buf_len small,
        )
        (
          append_assoc c.outbox (command (send_request p name (length text)) ∷ []) (
              command (record {
                cmd = 10;
                filename = copy_name p.file_name_len name;
                size = length text;
                error = 0;
              })
              ∷ []),
          refl,
          refl,
        )

  -- An acknowledgement with the port, a connection that takes everything, and the acknowledgement at
  -- its end.
  pub request_send_large :
      (name text : Bytes) (words : List Bytes) (filename : Bytes) (number : ℕ)
      (connection : Connection) (connections : List Connection) (rest : List (Option Datagram))
      (c : LabClient fs)
      → fs.regular c.disk name ≡ some text
      → p.data_buf_len < length text
      → (connection.created ≡ true) × (connection.connected ≡ true)
      → AllTaken connection.sends
      → let ack : CmdMsgT = record {
        cmd = cmd_ack;
        filename = filename;
        size = number;
        error = 0;
      } in
        let inbox : List (Option Datagram) = some (command ack) ∷ some (command ack) ∷ rest in
        let t =
          (request_send fs p
            (types (name ∷ words) inbox (record c { connections = connection ∷ connections }))) in
        (t.1.outbox ≡ c.outbox ++ command (send_request p name (length text)) ∷ [])
        × (t.1.streams ≡ c.streams ++ (number, text) ∷ [])
        × (t.1.reports ≡ c.reports ++ completed ∷ [])
  unfolding take_response send_accepted send_stream take_connection stream_over stream_file
      await_completion receive_server if_received take_completion is_done
  request_send_large name text words filename number connection connections rest c h large opened
        taken =
      let ack : CmdMsgT = record { cmd = 7; filename = filename; size = number; error = 0 } in
      simp
        (
          request_send_offers name text words ack (some (command ack) ∷ rest)
              (record c { connections = connection ∷ connections }) h,
          laws.read_cmd_whole c.junk ack,
          lt→ltb p.data_buf_len (length text) large,
          opened.0,
          opened.1,
          send_file_whole connection.sends text connection.junk taken,
          laws.read_cmd_whole c.port_msg ack,
        )
        (refl, refl, refl)
