-- ===== src/Server/Keeps.antt =====
-- A relation between the state before and after a step, and how it passes through the handlers.
use computer_network_lab.Prelude.{
  ◌≡◌, refl, Bool, true, false, Option, none, some, [], ◌∷◌, if◌then◌else◌, Bytes,
}
use computer_network_lab.FileSystem.{FileSystem}
use computer_network_lab.Server.State.{State, M, ◌>>=◌, ◌>>◌, pure, receive, choose, receive_or}

module _ {fs : FileSystem} (R : State fs → State fs → Type 0) where
  pub record IsPreorder : Type 0 where
    pub same : (s : State fs) → R s s
    pub then_also : (s t u : State fs) → R s t → R t u → R s u

  -- Whatever state the step begins in, the state after it is related to it.
  pub record Keeps {A : Type 0} (m : M fs A) : Type 0 where
    pub at : (s : State fs) → R s (m s).1

module _ {fs : FileSystem} {R : State fs → State fs → Type 0} (o : IsPreorder R) where
  pub pure-Keeps : {A : Type 0} (a : A) → Keeps R (pure {S = State fs} a)
  pure-Keeps a = record { at = o.same }

  pub bind-Keeps :
      {A B : Type 0} {m : M fs A} {f : A → M fs B}
      → Keeps R m
      → ((a : A) → Keeps R (f a))
      → Keeps R (m >>= f)
  bind-Keeps {m} {f} h k = record {
    at = λ s. o.then_also s (m s).1 (f (m s).0 (m s).1).1 (h.at s) ((k (m s).0).at (m s).1);
  }

  pub then-Keeps :
      {A B : Type 0} {m : M fs A} {k : M fs B} → Keeps R m → Keeps R k → Keeps R (m >> k)
  then-Keeps {m} {k} h l = record {
    at = λ s. o.then_also s (m s).1 (k (m s).1).1 (h.at s) (l.at (m s).1);
  }

  pub receive_or-Keeps :
      {A : Type 0} {failed : M fs A} {use_bytes : Bytes → M fs A}
      → Keeps R (receive fs)
      → Keeps R failed
      → ((b : Bytes) → Keeps R (use_bytes b))
      → Keeps R (receive_or fs failed use_bytes)
  unfolding receive_or choose
  receive_or-Keeps {A} {failed} {use_bytes} r h k = bind-Keeps r by_result
    where
      by_result : (got : Option Bytes) → Keeps R (choose fs failed use_bytes got)
      by_result none = h
      by_result (some []) = h
      by_result (some (c ∷ b)) = k (c ∷ b)

pub if-Keeps :
    {fs : FileSystem} {R : State fs → State fs → Type 0} {A : Type 0} (b : Bool) {m n : M fs A}
    → Keeps R m
    → Keeps R n
    → Keeps R (if b then m else n)
if-Keeps true h k = h
if-Keeps false h k = k

-- The same for a test on the state.
pub if_at {ℓ} :
    {A : Type ℓ} (P : A → Type 0) (b : Bool) {x y : A}
    → (b ≡ true → P x)
    → (b ≡ false → P y)
    → P (if b then x else y)
if_at P true h k = h refl
if_at P false h k = k refl
