-- ===== src/FileSystem/Memory.antt =====
-- A disk that meets the laws: one directory of files, kept in memory.
use computer_network_lab.Prelude.{
  ◌≡◌, sym, ◌≢◌, Option, none, some, List, [], ◌++◌, arith, codes, Bytes, bytes_eq, bytes_eq_iff,
  if◌then◌else◌, Option-cases, inl, inr, ap, ◌∙◌,
}
use mathlib.Core.Option.{some-injective}
use computer_network_lab.FileSystem.{FileSystem, IsPosix}

-- The content at each path; "backup" is the only directory, and it lists `names`.
pub record MemoryDisk : Type 0 where
  pub content : Bytes → Option Bytes
  pub names : List Bytes

unfoldable pub update : (Bytes → Option Bytes) → Bytes → Option Bytes → Bytes → Option Bytes
update f p v q = if bytes_eq p q then v else f q

update_self : (f : Bytes → Option Bytes) (p : Bytes) (v : Option Bytes) → update f p v p ≡ v
unfolding update
update_self f p v = ground (arith, bytes_eq_iff p p)

update_other :
    (f : Bytes → Option Bytes) (p q : Bytes) (v : Option Bytes) → p ≢ q → update f p v q ≡ f q
unfolding update
update_other f p q v h = ground (arith, bytes_eq_iff p q)

abbrev append_to : Option Bytes → Bytes → Option Bytes
append_to none b = none
append_to (some c) b = some (c ++ b)

unfoldable pub memory_unlink : MemoryDisk → Bytes → Option MemoryDisk
memory_unlink d p = elim (d.content p) [
  | none ↦ none
  | some c ↦ some (record d { content = update d.content p none })
]

unfoldable pub memory_rename : MemoryDisk → Bytes → Bytes → Option MemoryDisk
memory_rename d p q = elim (d.content p) [
  | none ↦ none
  | some c ↦ some (record d { content = update (update d.content p none) q (some c) })
]

abbrev pub memory : FileSystem
memory = record {
  Disk = MemoryDisk;
  regular = λ d p. d.content p;
  is_directory = λ d p. bytes_eq p (codes "backup");
  mkdir = λ d p. none;
  entries = λ d p. some d.names;
  unlink = memory_unlink;
  rename = memory_rename;
  create = λ d p. some (record d { content = update d.content p (some []) });
  append = λ d p b. record d { content = update d.content p (append_to (d.content p) b) };
}

unlink_cases :
    (d : MemoryDisk) (p : Bytes) {e : MemoryDisk}
    → memory_unlink d p ≡ some e
    → (e ≡ record d { content = update d.content p none })
unfolding memory_unlink
unlink_cases d p h = elim (Option-cases (d.content p)) [
  | inl k ↦ cc (rw (k, memory_unlink) at h)
  | inr (c, k) ↦ sym (some-injective _ _ (rw (k, memory_unlink) at h))
]

rename_cases :
    (d : MemoryDisk) (p q : Bytes) {e : MemoryDisk}
    → memory_rename d p q ≡ some e
    → (c : Bytes) × (d.content p ≡ some c)
      × (e ≡ record d { content = update (update d.content p none) q (some c) })
unfolding memory_rename
rename_cases d p q h = elim (Option-cases (d.content p)) [
  | inl k ↦ cc (rw (k, memory_rename) at h)
  | inr (c, k) ↦ (c, k, sym (some-injective _ _ (rw (k, memory_rename) at h)))
]

rename_unlinked :
    (d : MemoryDisk) (p q : Bytes) {e : MemoryDisk}
    → memory_unlink d p ≡ some e
    → memory_rename e p q ≡ none
unfolding memory_rename
rename_unlinked d p q {e} h =
    let gone : e.content p ≡ none = rw (unlink_cases d p h) (update_self d.content p none) in
    rw (gone, memory_rename)

rename_target :
    (d : MemoryDisk) (p q : Bytes) {e : MemoryDisk}
    → memory_rename d p q ≡ some e
    → e.content q ≡ d.content p
rename_target d p q {e} h =
    let (c, k, m) = rename_cases d p q h in
    ap (λ (x : MemoryDisk). x.content q) m
    ∙ update_self (update d.content p none) q (some c)
    ∙ sym k

rename_source :
    (d : MemoryDisk) (p q : Bytes) {e : MemoryDisk}
    → memory_rename d p q ≡ some e
    → p ≢ q
    → e.content p ≡ none
rename_source d p q {e} h ne =
    let (c, k, m) = rename_cases d p q h in
    ap (λ (x : MemoryDisk). x.content p) m
    ∙ update_other (update d.content p none) q p (some c) (λ t. ne (sym t))
    ∙ update_self d.content p none

rename_other :
    (d : MemoryDisk) (p q r : Bytes) {e : MemoryDisk}
    → memory_rename d p q ≡ some e
    → p ≢ r
    → q ≢ r
    → e.content r ≡ d.content r
rename_other d p q r {e} h n m =
    let (c, k, t) = rename_cases d p q h in
    ap (λ (x : MemoryDisk). x.content r) t
    ∙ update_other (update d.content p none) q r (some c) m
    ∙ update_other d.content p r none n

create_self :
    (d : MemoryDisk) (p : Bytes) {e : MemoryDisk}
    → memory.create d p ≡ some e
    → e.content p ≡ some []
create_self d p {e} h =
    ap (λ (x : MemoryDisk). x.content p) (sym (some-injective _ _ h))
    ∙ update_self d.content p (some [])

create_other :
    (d : MemoryDisk) (p q : Bytes) {e : MemoryDisk}
    → memory.create d p ≡ some e
    → p ≢ q
    → e.content q ≡ d.content q
create_other d p q {e} h ne =
    ap (λ (x : MemoryDisk). x.content q) (sym (some-injective _ _ h))
    ∙ update_other d.content p q (some []) ne

pub memory-IsPosix : IsPosix memory
memory-IsPosix = record {
  unlink_self = λ d p {e} h. rw (unlink_cases d p h) (update_self d.content p none);
  unlink_other = λ d p q {e} h ne. rw (unlink_cases d p h) (update_other d.content p q none ne);
  rename_unlinked = λ d p q {e} h. rename_unlinked d p q h;
  rename_target = λ d p q {e} h. rename_target d p q h;
  rename_source = λ d p q {e} h ne. rename_source d p q h ne;
  rename_other = λ d p q r {e} h n1 n2. rename_other d p q r h n1 n2;
  create_self = λ d p {e} h. create_self d p h;
  create_other = λ d p q {e} h ne. create_other d p q h ne;
  append_self = λ d p b {c} h. update_self d.content p (append_to (d.content p) b) ∙ rw h;
  append_other = λ d p q b ne. update_other d.content p q (append_to (d.content p) b) ne;
}
