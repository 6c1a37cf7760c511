-- ===== src/Labs/Server/Shrinks.antt =====
-- original-labs/server.cc: no command leaves more to be received than there was.
use computer_network_lab.Prelude.{
  ℕ, ◌≤◌, inl, inr, ap, Bool, true, false, Option, none, some, List, arith, length, Bytes,
  Option-cases,
}
use computer_network_lab.Message.{c_string}
use computer_network_lab.FileSystem.{FileSystem}
use computer_network_lab.Labs.{Platform, CmdMsgT, Datagram, backup_path}
use computer_network_lab.Labs.Server.{
  Lab, L, receive_from, acknowledge, acknowledge_size, take_session,
}
use computer_network_lab.Labs.Server.Commands.{
  save_large, save_accepted, receive_session, receive_large, move_file, save_small, save_received,
  receive_small, serve_overwrite, store_file, remove_file, discard, take_confirmation,
  ask_confirmation, move_to, take_new_name, rename_requested, requested,
}
use computer_network_lab.Labs.Server.Loop.{select_command, take_datagram}
use computer_network_lab.Labs.Server.Frames.{
  acknowledge-IsSending, acknowledge_size-IsSending, receive_from_shorter, take_session_inbox,
}

module _ {fs : FileSystem} where
  -- The step leaves no more to be received than there was.
  abbrev pub Shrinks : {A : Type 0} → L fs A → Type 0
  Shrinks m = (s : Lab fs) → length (m s).1.inbox ≤ length s.inbox

module _ (fs : FileSystem) where
  acknowledge-Shrinks : (cmd error : ℕ) → Shrinks (acknowledge fs cmd error)
  acknowledge-Shrinks cmd error s = rw (acknowledge-IsSending fs cmd error s).inbox (omega arith)

  acknowledge_size-Shrinks : (cmd error size : ℕ) → Shrinks (acknowledge_size fs cmd error size)
  acknowledge_size-Shrinks cmd error size s =
      rw (acknowledge_size-IsSending fs cmd error size s).inbox (omega arith)

  save_large-Shrinks :
      (q : Bytes) (n : ℕ) (chunks : List Bytes) → Shrinks (save_large fs q n chunks)
  unfolding save_large
  save_large-Shrinks q n chunks s = elim (Option-cases (fs.create s.disk q)) [
    | inl e ↦ rw (e, save_large) (omega arith)
    | inr (d, e) ↦ rw (e, save_large) (acknowledge-Shrinks _ _ _)
  ]

  save_accepted-Shrinks :
      (q : Bytes) (n : ℕ) (accepted : Option (List Bytes)) (sent : Bool)
      → Shrinks (save_accepted fs q n accepted sent)
  unfolding save_accepted
  save_accepted-Shrinks q n accepted false s = omega arith
  save_accepted-Shrinks q n none true s = omega arith
  save_accepted-Shrinks q n (some chunks) true s = save_large-Shrinks q n chunks s

  receive_large-Shrinks : (q : Bytes) (n : ℕ) → Shrinks (receive_large fs q n)
  unfolding receive_large receive_session
  receive_large-Shrinks q n s =
      let session = (take_session fs s).0 in
      let t = (take_session fs s).1 in
      let u = acknowledge_size fs 7 0 t.current_tcp_port t in
      ground (
        arith,
        save_accepted-Shrinks q n session.accepted u.0 u.1,
        acknowledge_size-Shrinks 7 0 t.current_tcp_port t,
        ap length (take_session_inbox fs s),
      )

  move_file-Shrinks : (old new : Bytes) → Shrinks (move_file fs old new)
  unfolding move_file
  move_file-Shrinks old new s = elim (Option-cases (fs.rename s.disk old new)) [
    | inl e ↦ rw (e, move_file) (acknowledge-Shrinks _ _ _)
    | inr (d, e) ↦ rw (e, move_file) (acknowledge-Shrinks _ _ _)
  ]

  save_small-Shrinks : (q : Bytes) (n : ℕ) → Shrinks (save_small fs q n)
  unfolding save_small
  save_small-Shrinks q n s = elim (Option-cases (fs.create s.disk q)) [
    | inl e ↦ rw (e, save_small) (acknowledge-Shrinks _ _ _)
    | inr (d, e) ↦ rw (e, save_small) (acknowledge-Shrinks _ _ _)
  ]

module _ (fs : FileSystem) (p : Platform fs) where
  save_received-Shrinks :
      (q : Bytes) (n : ℕ) (b : Option Datagram) → Shrinks (save_received fs p q n b)
  unfolding save_received
  save_received-Shrinks q n none s = acknowledge-Shrinks fs _ _ s
  save_received-Shrinks q n (some b) s =
      save_small-Shrinks fs q n (record s { data_msg = p.read_data s.data_msg b })

  -- After a receive, a step that shrinks.
  received-Shrinks :
      {A : Type 0} (k : Option Datagram → L fs A)
      → ((b : Option Datagram) → Shrinks (k b))
      → Shrinks (λ s. k (receive_from fs s).0 (receive_from fs s).1)
  received-Shrinks k h s =
      omega (arith, h (receive_from fs s).0 (receive_from fs s).1, receive_from_shorter fs s)

  receive_small-Shrinks : (q : Bytes) (n : ℕ) → Shrinks (receive_small fs p q n)
  unfolding receive_small
  receive_small-Shrinks q n s =
      received-Shrinks (save_received fs p q n) (save_received-Shrinks q n) s

  serve_overwrite-Shrinks : Shrinks (serve_overwrite fs p)
  unfolding serve_overwrite
  serve_overwrite-Shrinks s = ground (
    arith,
    acknowledge-Shrinks fs 7 2 s,
    acknowledge-Shrinks fs 7 0 s,
    receive_large-Shrinks fs (requested s) s.cmd_msg.size s,
  )

  pub store_file-Shrinks : Shrinks (store_file fs p)
  unfolding store_file
  store_file-Shrinks s = ground (
    arith,
    acknowledge_size-Shrinks fs 9 0 s.cmd_msg.size s,
    receive_small-Shrinks (requested s) s.cmd_msg.size s,
    receive_large-Shrinks fs (requested s) s.cmd_msg.size s,
  )

  pub remove_file-Shrinks : Shrinks (remove_file fs p)
  unfolding remove_file
  remove_file-Shrinks s = elim (Option-cases (p.remove s.disk (requested s))) [
    | inl e ↦ rw e (ground (arith, acknowledge-Shrinks fs 7 1 s))
    | inr (d, e) ↦ rw e (
        ground
          (arith, acknowledge-Shrinks fs 7 1 s, acknowledge-Shrinks fs 7 0 (record s { disk = d })))
  ]

  take_confirmation-Shrinks :
      (junk : CmdMsgT) (old new : Bytes) (b : Option Datagram)
      → Shrinks (take_confirmation fs p junk old new b)
  unfolding take_confirmation
  take_confirmation-Shrinks junk old new none s = omega arith
  take_confirmation-Shrinks junk old new (some b) s = ground (
    arith,
    acknowledge-Shrinks fs 7 2 s,
    move_file-Shrinks fs old new (record s { disk = discard fs p new s.disk }),
  )

  ask_confirmation-Shrinks :
      (junk : CmdMsgT) (old new : Bytes) → Shrinks (ask_confirmation fs p junk old new)
  unfolding ask_confirmation
  ask_confirmation-Shrinks junk old new s = omega (
    arith,
    received-Shrinks (take_confirmation fs p junk old new) (take_confirmation-Shrinks junk old new)
        (acknowledge fs 9 0 s).1,
    acknowledge-Shrinks fs 9 0 s,
  )

  take_new_name-Shrinks :
      (junk : CmdMsgT) (old : Bytes) (b : Option Datagram) → Shrinks (take_new_name fs p junk old b)
  unfolding take_new_name move_to
  take_new_name-Shrinks junk old none s = omega arith
  take_new_name-Shrinks junk old (some b) s =
      let t : Lab fs = record s { data_msg = p.read_data s.data_msg b } in
      let new : Bytes = backup_path (c_string (p.read_data s.data_msg b)) in
      ground (arith, ask_confirmation-Shrinks junk old new t, move_file-Shrinks fs old new t)

  pub rename_requested-Shrinks : (junk : CmdMsgT) → Shrinks (rename_requested fs p junk)
  unfolding rename_requested
  rename_requested-Shrinks junk s = ground (
    arith,
    acknowledge-Shrinks fs 7 1 s,
    received-Shrinks (take_new_name fs p junk (requested s))
        (take_new_name-Shrinks junk (requested s)) s,
  )

  select_command-Shrinks : Shrinks (select_command fs p)
  unfolding select_command
  select_command-Shrinks s = ground (arith, serve_overwrite-Shrinks s)

  pub take_datagram-Shrinks : (b : Option Datagram) → Shrinks (take_datagram fs p b)
  unfolding take_datagram
  take_datagram-Shrinks none s = omega arith
  take_datagram-Shrinks (some b) s = select_command-Shrinks _
