-- ===== src/Transport/Protocol.antt =====
-- The two sides of a protocol as the emulators of original-labs/gbn.c and original-labs/stable.c call
-- them, and the logs of their calls.
use computer_network_lab.Prelude.{
  ◌≡◌, ◌∙◌, sym, ap, Option, List, [], ◌++◌, append-nil, append_assoc, Bytes, ℕ,
}
use computer_network_lab.Transport.Packet.{Pkt, Call}

-- The variables of A and of B, and the functions that the emulator calls.
pub record Protocol : Type 1 where
  pub Sender : Type 0
  pub Receiver : Type 0
  pub sender_log : Sender → List Call
  pub receiver_log : Receiver → List Call
  -- `A_output`; `none` where it ends the program.
  pub output : Bytes → Sender → Option Sender
  -- `A_input`.
  pub input : Pkt → Sender → Sender
  -- `A_packet_time_rinterrupt`.
  pub timeout : ℕ → Sender → Sender
  -- `B_input`.
  pub accept_packet : Pkt → Receiver → Receiver

-- The second log is the first one with something behind it.
abbrev pub Extends : List Call → List Call → Type 0
Extends xs ys = (more : List Call) × (ys ≡ xs ++ more)

pub same_log : (xs : List Call) → Extends xs xs
same_log xs = ([], sym (append-nil xs))

pub then_log : (xs ys zs : List Call) → Extends xs ys → Extends ys zs → Extends xs zs
then_log xs ys zs (m, e) (n, f) = (m ++ n, f ∙ ap (λ k. k ++ n) e ∙ append_assoc xs m n)
