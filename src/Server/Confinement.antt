-- ===== src/Server/Confinement.antt =====
-- Which files a command can touch.
use computer_network_lab.Prelude.{
  ℕ, ◌+◌, ◌≡◌, refl, sym, ap, ◌∙◌, ◌≢◌, false, List, [], ◌∷◌, arith, Bytes, length, take,
  Option-cases, inl, inr,
}
use computer_network_lab.FileSystem.{FileSystem, IsPosix, delete_file, rename_file, file_exists}
use computer_network_lab.Message.{CmdMsg, Command, get_command, name_of}
use computer_network_lab.Paths.{join_path}
use computer_network_lab.Paths.Laws.{IsComponent, is_valid_filename-IsComponent}
use computer_network_lab.Server.State.{State, ServerConfig}
use computer_network_lab.Server.Transfer.{count_transfer, store_small, receive_loop, store_large}
use computer_network_lab.Server.Handlers.{path_of, handle_send, process_command}
use computer_network_lab.Server.Frames.{send_disk, send_data_disk, receive_disk, session_disk}
use computer_network_lab.Server.Keeps.{IsPreorder}
use computer_network_lab.Server.Walk.{KeepsCalls, handle_send-Keeps_new}
use computer_network_lab.Server.Walk.Commands.{process_command-Keeps_not_send}

module _ (fs : FileSystem) (laws : IsPosix fs) (p : Bytes) where
  -- The file at `p` is after the step what it was before.
  abbrev Same : State fs → State fs → Type 0
  Same s t = fs.regular t.disk p ≡ fs.regular s.disk p

  abbrev Other : Bytes → Type 0
  Other q = q ≢ p

  delete_file_other :
      (d : fs.Disk) (q : Bytes) → q ≢ p → fs.regular (delete_file fs d q).1 p ≡ fs.regular d p
  unfolding delete_file
  delete_file_other d q ne = elim (Option-cases (fs.unlink d q)) [
    | inl e ↦ rw (e, delete_file)
    | inr (c, e) ↦ rw (e, delete_file) (laws.unlink_other d q p e ne)
  ]

  rename_file_other :
      (d : fs.Disk) (q r : Bytes)
      → q ≢ p
      → r ≢ p
      → fs.regular (rename_file fs d q r).1 p ≡ fs.regular d p
  unfolding rename_file
  rename_file_other d q r n m = elim (Option-cases (fs.rename d q r)) [
    | inl e ↦ rw (e, rename_file)
    | inr (c, e) ↦ rw (e, rename_file) (laws.rename_other d q r p e n m)
  ]

  receive_loop_other :
      (q : Bytes) (size : ℕ) (chunks : List Bytes) (total : ℕ) (d : fs.Disk)
      → q ≢ p
      → fs.regular (receive_loop fs q size chunks total d).1 p ≡ fs.regular d p
  unfolding receive_loop
  receive_loop_other q size [] total d ne = refl
  receive_loop_other q size (chunk ∷ chunks) total d ne = ground (
    arith,
    receive_loop_other q size chunks (total + length chunk) (fs.append d q chunk) ne,
    laws.append_other d q p chunk ne,
  )

  store_small_other :
      (q : Bytes) (size : ℕ) (content : Bytes) (s : State fs)
      → q ≢ p
      → Same s (store_small fs q size content s).1
  unfolding store_small count_transfer
  store_small_other q size content s ne = elim (Option-cases (fs.create s.disk q)) [
    | inl e ↦ rw (e, store_small, send_disk fs)
    | inr (d, e) ↦
        rw (e, store_small, send_disk fs)
          (laws.append_other d q p (take size content) ne ∙ laws.create_other s.disk q p e ne)
  ]

  store_large_other :
      (q : Bytes) (size : ℕ) (chunks : List Bytes) (s : State fs)
      → q ≢ p
      → Same s (store_large fs q size chunks s).1
  unfolding store_large count_transfer
  store_large_other q size chunks s ne = elim (Option-cases (fs.create s.disk q)) [
    | inl e ↦ rw (e, store_large)
    | inr (d, e) ↦
        rw (e, store_large, send_disk fs)
          (receive_loop_other q size chunks 0 d ne ∙ laws.create_other s.disk q p e ne)
  ]

  Same-order : IsPreorder Same
  Same-order = record { same = λ s. refl; then_also = λ s t u h k. k ∙ h }

  Same-calls : KeepsCalls Same Other
  Same-calls = record {
    order = Same-order;
    send = λ m. record { at = λ s. ap (λ d. fs.regular d p) (send_disk fs m s) };
    send_data = λ b. record { at = λ s. ap (λ d. fs.regular d p) (send_data_disk fs b s) };
    recv = record { at = λ s. ap (λ d. fs.regular d p) (receive_disk fs s) };
    session = record { at = λ s. ap (λ d. fs.regular d p) (session_disk fs s) };
    phase = λ x. record { at = λ s. refl };
    stop = record { at = λ s. refl };
    delete = λ q ne. record { at = λ s. delete_file_other s.disk q ne };
    rename = λ q r n m. record { at = λ s. rename_file_other s.disk q r n m };
    small = λ q size content ne. record { at = λ s. store_small_other q size content s ne };
    large = λ q size chunks ne. record { at = λ s. store_large_other q size chunks s ne };
  }

-- No name in the backup directory has the path `p`.
abbrev pub IsOutside : ServerConfig → Bytes → Type 0
IsOutside config p = (name : Bytes) → IsComponent name → p ≢ join_path config.backup_dir name

-- Whatever the client sends, a command other than SEND leaves every file that is not directly in
-- the backup directory as it was.
pub process_command_confined :
    (fs : FileSystem) (laws : IsPosix fs) (config : ServerConfig) (p : Bytes)
    → IsOutside config p
    → (cmd : CmdMsg) → get_command cmd ≢ Command.send
    → (s : State fs) → fs.regular (process_command fs config cmd s).1.disk p ≡ fs.regular s.disk p
process_command_confined fs laws config p outside cmd h s =
    (process_command-Keeps_not_send (Same-calls fs laws p) config
        (λ name v e. outside name (is_valid_filename-IsComponent name v) (sym e)) cmd h).at
      s

-- Whatever the client sends, a SEND for a name that is not yet there leaves every file that is not
-- directly in the backup directory as it was.
pub handle_send_confined :
    (fs : FileSystem) (laws : IsPosix fs) (config : ServerConfig) (p : Bytes)
    → IsOutside config p
    → (cmd : CmdMsg) (s : State fs)
    → file_exists fs s.disk (path_of fs config (name_of cmd)) ≡ false
    → fs.regular (handle_send fs config cmd s).1.disk p ≡ fs.regular s.disk p
handle_send_confined fs laws config p outside cmd s fresh =
    handle_send-Keeps_new (Same-calls fs laws p) config cmd s fresh
      (λ name v e. outside name (is_valid_filename-IsComponent name v) (sym e))
