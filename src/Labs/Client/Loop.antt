-- ===== src/Labs/Client/Loop.antt =====
-- original-labs/client.cc: the loop of `main`.
use computer_network_lab.Prelude.{ℕ, zero, suc, true, if◌then◌else◌, Bytes, bytes_eq, codes}
use computer_network_lab.FileSystem.{FileSystem}
use computer_network_lab.Labs.{Platform}
use computer_network_lab.Labs.Client.{
  LabClient, Stage, waiting, process_ls, process_send, process_get, process_remove, process_rename,
  shutdown, quit, print, read_word, wrong_command,
}
use computer_network_lab.Labs.Client.Sending.{request_send}
use computer_network_lab.Labs.Client.Commands.{
  request_ls, request_remove, request_rename, request_shutdown,
}

-- The state that a word leads to; another one is a wrong command.
unfoldable pub stage_of : Bytes → Stage
stage_of in_cmd =
    if bytes_eq in_cmd (codes "ls")
    then process_ls
    else if bytes_eq in_cmd (codes "send")
    then process_send
    else if bytes_eq in_cmd (codes "remove")
    then process_remove
    else if bytes_eq in_cmd (codes "rename")
    then process_rename
    else if bytes_eq in_cmd (codes "shutdown")
    then shutdown
    else if bytes_eq in_cmd (codes "quit")
    then quit
    else waiting

module _ (fs : FileSystem) where
  -- WAITING.
  unfoldable pub read_command : LabClient fs → LabClient fs
  read_command s =
      let (w, t) = read_word fs s.in_cmd s in
      let u = record t { in_cmd = w; client_state = stage_of w } in
      elim (stage_of w) [ waiting ↦ (print fs wrong_command u).1 | _ ↦ u ]

  -- Back to WAITING after a command.
  unfoldable pub back : (Unit {0}) × LabClient fs → LabClient fs
  back (done, s) = record s { client_state = waiting }

module _ (fs : FileSystem) (p : Platform fs) where
  -- A round of the loop.
  unfoldable pub client_stage : Stage → LabClient fs → LabClient fs
  client_stage waiting s = read_command fs s
  client_stage process_ls s = back fs (request_ls fs p s)
  client_stage process_send s = back fs (request_send fs p s)
  client_stage process_get s = back fs (tt, s)
  client_stage process_remove s = back fs (request_remove fs p s)
  client_stage process_rename s = back fs (request_rename fs p s)
  client_stage shutdown s = back fs (request_shutdown fs p s)
  client_stage quit s = record s { ended = true }

  unfoldable pub client_round : LabClient fs → LabClient fs
  client_round s = client_stage s.client_state s

  -- The loop for some rounds, or until `main` returns.
  unfoldable pub client_rounds : ℕ → LabClient fs → LabClient fs
  client_rounds zero s = s
  client_rounds (suc n) s =
      let next = client_rounds n (client_round s) in if s.ended then s else next
