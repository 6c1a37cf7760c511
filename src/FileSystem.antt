-- ===== src/FileSystem.antt =====
-- common/file_utils.cpp over the operating system's file calls. The calls are a parameter: an
-- unknown disk with `stat`, `mkdir`, `opendir`, `unlink`, `rename` and the two steps of an
-- std::ofstream, opening with truncation and writing behind what is there.
pub mod Memory
use computer_network_lab.Prelude.{
  ◌≡◌, ◌≢◌, Bool, true, false, not, ◌&&◌, ◌||◌, Option, none, some, List, [], ◌∷◌, ◌++◌, Bytes,
  codes, bytes_eq, if◌then◌else◌, ℕ, take, drop, length,
}

pub record FileSystem : Type 1 where
  pub Disk : Type 0
  -- The content of the regular file that `stat` finds at the path.
  pub regular : Disk → Bytes → Option Bytes
  -- Whether `stat` finds a directory.
  pub is_directory : Disk → Bytes → Bool
  pub mkdir : Disk → Bytes → Option Disk
  -- The entries that `readdir` gives, or `none` if `opendir` fails.
  pub entries : Disk → Bytes → Option (List Bytes)
  pub unlink : Disk → Bytes → Option Disk
  pub rename : Disk → Bytes → Bytes → Option Disk
  pub create : Disk → Bytes → Option Disk
  pub append : Disk → Bytes → Bytes → Disk

-- What POSIX says of these calls, for paths that name files directly (no links, no other process
-- in the directory, and no write that fails on an open file). What is renamed is a file: with a directory
-- the paths below it would move too.
pub record IsPosix (fs : FileSystem) : Type 0 where
  pub unlink_self :
      (d : fs.Disk) (p : Bytes) {e : fs.Disk} → fs.unlink d p ≡ some e → fs.regular e p ≡ none
  pub unlink_other :
      (d : fs.Disk) (p q : Bytes) {e : fs.Disk}
      → fs.unlink d p ≡ some e
      → p ≢ q
      → fs.regular e q ≡ fs.regular d q
  -- A path that was just unlinked names nothing.
  pub rename_unlinked :
      (d : fs.Disk) (p q : Bytes) {e : fs.Disk} → fs.unlink d p ≡ some e → fs.rename e p q ≡ none
  pub rename_target :
      (d : fs.Disk) (p q : Bytes) {e : fs.Disk}
      → fs.rename d p q ≡ some e
      → fs.regular e q ≡ fs.regular d p
  pub rename_source :
      (d : fs.Disk) (p q : Bytes) {e : fs.Disk}
      → fs.rename d p q ≡ some e
      → p ≢ q
      → fs.regular e p ≡ none
  pub rename_other :
      (d : fs.Disk) (p q r : Bytes) {e : fs.Disk}
      → fs.rename d p q ≡ some e
      → p ≢ r
      → q ≢ r
      → fs.regular e r ≡ fs.regular d r
  pub create_self :
      (d : fs.Disk) (p : Bytes) {e : fs.Disk} → fs.create d p ≡ some e → fs.regular e p ≡ some []
  pub create_other :
      (d : fs.Disk) (p q : Bytes) {e : fs.Disk}
      → fs.create d p ≡ some e
      → p ≢ q
      → fs.regular e q ≡ fs.regular d q
  pub append_self :
      (d : fs.Disk) (p b : Bytes) {c : Bytes}
      → fs.regular d p ≡ some c
      → fs.regular (fs.append d p b) p ≡ some (c ++ b)
  pub append_other :
      (d : fs.Disk) (p q b : Bytes) → p ≢ q → fs.regular (fs.append d p b) q ≡ fs.regular d q

module _ (fs : FileSystem) where
  -- `fileExists`. Its test of a bit is also true of a socket; the disk has none.
  unfoldable pub file_exists : fs.Disk → Bytes → Bool
  file_exists d p = elim (fs.regular d p) [ none ↦ false | some c ↦ true ]

  -- `createDirectory`: whether the directory is there afterwards, and the disk.
  unfoldable pub create_directory : fs.Disk → Bytes → Bool × fs.Disk
  create_directory d p =
      if fs.is_directory d p
      then (true, d)
      else elim (fs.mkdir d p) [ none ↦ (false, d) | some e ↦ (true, e) ]

  -- `getFileSize`; 0 if there is no file.
  unfoldable pub get_file_size : fs.Disk → Bytes → ℕ
  get_file_size d path = elim (fs.regular d path) [ none ↦ 0 | some content ↦ length content ]

  -- The loop of `listDirectory` over the entries.
  unfoldable pub regular_entries : fs.Disk → Bytes → List Bytes → List Bytes
  regular_entries d p [] = []
  regular_entries d p (name ∷ names) =
      let rest = regular_entries d p names in
      if bytes_eq name (codes ".") || bytes_eq name (codes "..")
      then rest
      else if file_exists d (p ++ codes "/" ++ name)
      then name ∷ rest
      else rest

  -- `listDirectory`.
  unfoldable pub list_directory : fs.Disk → Bytes → List Bytes
  list_directory d p = elim (fs.entries d p) [ none ↦ [] | some names ↦ regular_entries d p names ]

  -- `deleteFile`.
  unfoldable pub delete_file : fs.Disk → Bytes → Bool × fs.Disk
  delete_file d p = elim (fs.unlink d p) [ none ↦ (false, d) | some e ↦ (true, e) ]

  -- `renameFile`.
  unfoldable pub rename_file : fs.Disk → Bytes → Bytes → Bool × fs.Disk
  rename_file d p q = elim (fs.rename d p q) [ none ↦ (false, d) | some e ↦ (true, e) ]

  -- `readFile`.
  unfoldable pub read_file : fs.Disk → Bytes → Option Bytes
  read_file d p = fs.regular d p

  -- `writeFile`; a write on the open file succeeds.
  unfoldable pub write_file : fs.Disk → Bytes → Bytes → Bool × fs.Disk
  write_file d p content = elim (fs.create d p) [
    | none ↦ (false, d)
    | some e ↦ (true, fs.append e p content)
  ]

  -- `readFileToBuffer`: the number of bytes read, or `none` for -1, and the buffer.
  unfoldable pub read_file_to_buffer : fs.Disk → Bytes → Bytes → ℕ → Option ℕ × Bytes
  read_file_to_buffer d p buffer max_size = elim (fs.regular d p) [
    | none ↦ (none, buffer)
    | some content ↦
        let read = take max_size content in (some (length read), read ++ drop (length read) buffer)
  ]

  -- `writeBufferToFile`.
  unfoldable pub write_buffer_to_file : fs.Disk → Bytes → Bytes → ℕ → Bool × fs.Disk
  write_buffer_to_file d p buffer size = elim (fs.create d p) [
    | none ↦ (false, d)
    | some e ↦ (true, fs.append e p (take size buffer))
  ]
