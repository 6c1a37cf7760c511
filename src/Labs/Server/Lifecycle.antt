-- ===== src/Labs/Server/Lifecycle.antt =====
-- original-labs/server.cc: the loop of `main` waits for the next command after each round, takes
-- everything that arrives, and ends at a shutdown.
use computer_network_lab.Prelude.{
  ℕ, zero, suc, ◌-◌, ◌≤◌, ◌≡◌, ◌⊎◌, inl, inr, refl, true, [], arith, length, length-nil, Bool-cases,
}
use computer_network_lab.FileSystem.{FileSystem}
use computer_network_lab.Labs.{Platform, CmdMsgT}
use computer_network_lab.Labs.Server.{
  Lab, Phase, waiting, process_ls, process_send, process_get, process_remove, process_rename,
  shutdown, receive_from, serve_ls,
}
use computer_network_lab.Labs.Server.Commands.{serve_send, serve_remove, serve_rename}
use computer_network_lab.Labs.Server.Loop.{
  take_datagram, serve_phase, serve_current, lab_round, lab_rounds, lab_run,
}
use computer_network_lab.Labs.Server.Frames.{send_to-IsSending, receive_from_shorter}
use computer_network_lab.Labs.Server.Shrinks.{
  store_file-Shrinks, remove_file-Shrinks, rename_requested-Shrinks, take_datagram-Shrinks,
}

module _ (fs : FileSystem) (p : Platform fs) where
  -- What a round ends in.
  abbrev Rests : Lab fs → Type 0
  Rests t = (t.ended ≡ true) ⊎ (t.server_state ≡ waiting)

  serve_phase_ends :
      (junk : CmdMsgT) (phase : Phase) (s : Lab fs)
      → s.server_state ≡ phase
      → (length (serve_phase fs p junk phase s).1.inbox ≤ length s.inbox)
        × Rests (serve_phase fs p junk phase s).1
  unfolding serve_phase serve_ls serve_send serve_remove serve_rename
  serve_phase_ends junk waiting s h = (omega arith, inr h)
  serve_phase_ends junk process_ls s h =
      (rw (send_to-IsSending fs _ _).inbox (omega arith), inr refl)
  serve_phase_ends junk process_send s h = (store_file-Shrinks fs p s, inr refl)
  serve_phase_ends junk process_get s h = (omega arith, inr refl)
  serve_phase_ends junk process_remove s h = (remove_file-Shrinks fs p s, inr refl)
  serve_phase_ends junk process_rename s h = (rename_requested-Shrinks fs p junk s, inr refl)
  serve_phase_ends junk shutdown s h = (omega arith, inl refl)

  lab_round_ends :
      (junk : CmdMsgT) (s : Lab fs)
      → (length (lab_round fs p junk s).inbox ≤ length s.inbox - 1) × Rests (lab_round fs p junk s)
  unfolding lab_round serve_current
  lab_round_ends junk s =
      let t = (take_datagram fs p (receive_from fs s).0 (receive_from fs s).1).1 in
      let (a, b) = serve_phase_ends junk t.server_state t refl in
      (
        omega (
          arith,
          a,
          take_datagram-Shrinks fs p (receive_from fs s).0 (receive_from fs s).1,
          receive_from_shorter fs s,
        ),
        b,
      )

  lab_rounds_end :
      (junk : CmdMsgT) (fuel : ℕ) (s : Lab fs)
      → length s.inbox ≤ fuel
      → Rests s
      → let t = lab_rounds fs p junk fuel s in
        (t.ended ≡ true) ⊎ ((t.inbox ≡ []) × (t.server_state ≡ waiting))
  unfolding lab_rounds
  lab_rounds_end junk zero s h (inl e) = inl e
  lab_rounds_end junk zero s h (inr w) = inr (length-nil s.inbox (omega arith), w)
  lab_rounds_end junk (suc fuel) s h r = elim (Bool-cases s.ended) [
    | inl e ↦ inl (simp e)
    | inr e ↦ simp e (
        lab_rounds_end junk fuel (lab_round fs p junk s) (omega (arith, (lab_round_ends junk s).0))
          (lab_round_ends junk s).1)
  ]

-- The loop of the first server, started in WAITING, has fuel enough: when it stops, `main` has
-- returned after a SHUTDOWN, or all that arrived has been taken and the server is in WAITING again,
-- whatever the commands did.
pub lab_run_ends :
    (fs : FileSystem) (p : Platform fs) (junk : CmdMsgT) (s : Lab fs)
    → s.server_state ≡ waiting
    → let t = lab_run fs p junk s in
      (t.ended ≡ true) ⊎ ((t.inbox ≡ []) × (t.server_state ≡ waiting))
unfolding lab_run
lab_run_ends fs p junk s h = lab_rounds_end fs p junk (length s.inbox) s (omega arith) (inr h)
