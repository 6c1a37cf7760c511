-- ===== src/Transport/Emulator/Sendable.antt =====
-- What a side has sent can be sent on by the emulator: a corrupted copy of it is found to be corrupted.
use computer_network_lab.Prelude.{
  ℕ, zero, suc, ◌≤◌, refl, ap, ◌∙◌, List, [], ◌∷◌, arith, Bytes, All, drop,
}
use mathlib.Core.List.{Memᴰ}
use computer_network_lab.Transport.Packet.{
  check_corrupted, corrupt, Call, to_layer3, to_layer5, start_timer, stop_timer,
}
use computer_network_lab.Transport.Messages.{IsGenuineCall}
use computer_network_lab.Transport.Damage.{IsMessage, corrupt-genuine, corrupt-make_ack}
use computer_network_lab.Transport.GoBackN.Delivery.{IsAckCall}
use computer_network_lab.Transport.Emulator.Calls.{IsSendable}

-- The calls of a log, from some place on, are sendable.
pub log_a_sent :
    (accepted : List Bytes) (next : ℕ) (log calls : List Call)
    → ((c : Call) → Memᴰ c calls → Memᴰ c log)
    → All (IsGenuineCall accepted next) calls
    → All IsMessage accepted
    → next ≤ 33701
    → All (IsSendable log) calls
log_a_sent accepted next log [] within h k few = tt
log_a_sent accepted next log (to_layer3 p ∷ calls) within (g, h) k few = (
  (within _ (Memᴰ.head refl), corrupt-genuine accepted next p g k few),
  log_a_sent accepted next log calls (λ c m. within c (Memᴰ.tail m)) h k few,
)
log_a_sent accepted next log (to_layer5 b ∷ calls) within (g, h) k few =
    (tt, log_a_sent accepted next log calls (λ c m. within c (Memᴰ.tail m)) h k few)
log_a_sent accepted next log (start_timer n ∷ calls) within (g, h) k few =
    (tt, log_a_sent accepted next log calls (λ c m. within c (Memᴰ.tail m)) h k few)
log_a_sent accepted next log (stop_timer n ∷ calls) within (g, h) k few =
    (tt, log_a_sent accepted next log calls (λ c m. within c (Memᴰ.tail m)) h k few)

pub log_b_sent :
    (expected : ℕ) (log calls : List Call)
    → ((c : Call) → Memᴰ c calls → Memᴰ c log)
    → All (IsAckCall expected) calls
    → expected ≤ 33701
    → All (IsSendable log) calls
log_b_sent expected log [] within h few = tt
log_b_sent expected log (to_layer3 p ∷ calls) within ((m, low, e), h) few = (
  (
    within _ (Memᴰ.head refl),
    ap (λ q. check_corrupted (corrupt q)) e ∙ corrupt-make_ack m (omega arith),
  ),
  log_b_sent expected log calls (λ c m. within c (Memᴰ.tail m)) h few,
)
log_b_sent expected log (to_layer5 b ∷ calls) within (g, h) few =
    (tt, log_b_sent expected log calls (λ c m. within c (Memᴰ.tail m)) h few)
log_b_sent expected log (start_timer n ∷ calls) within (g, h) few =
    (tt, log_b_sent expected log calls (λ c m. within c (Memᴰ.tail m)) h few)
log_b_sent expected log (stop_timer n ∷ calls) within (g, h) few =
    (tt, log_b_sent expected log calls (λ c m. within c (Memᴰ.tail m)) h few)

pub All-drop : (P : Call → Type 0) (n : ℕ) (calls : List Call) → All P calls → All P (drop n calls)
All-drop P zero calls h = h
All-drop P (suc n) [] h = tt
All-drop P (suc n) (c ∷ calls) (h, k) = All-drop P n calls k
