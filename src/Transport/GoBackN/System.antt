-- ===== src/Transport/GoBackN/System.antt =====
-- Go-Back-N on a network: what can happen to the two sides, and in which order.
use computer_network_lab.Prelude.{ℕ, ◌<◌, ◌≡◌, true, List, [], ◌∷◌, ◌++◌, Bytes}
use mathlib.Core.List.{Memᴰ}
use computer_network_lab.Transport.Sides.{Sender, max_buf_size, a_init}
use computer_network_lab.Transport.Packet.{Pkt, check_corrupted, to_layer3}
use computer_network_lab.Transport.GoBackN.{Receiver, b_init, a_output, a_input, a_timeout, b_input}

-- Both sides, and the messages that layer 5 has handed to A so far.
pub record System : Type 0 where
  pub a : Sender
  pub b : Receiver
  pub accepted : List Bytes

-- The state after `A_init`; the arrays hold what they held.
abbrev pub start : (ℕ → Pkt) → (ℕ → Bytes) → System
start winbuf buffer = record { a = a_init winbuf buffer; b = b_init; accepted = [] }

module _ (window_size : ℕ) where
  -- A packet that one side has sent can reach the other at any time, any number of times or never,
  -- so the network loses, repeats and reorders. A packet whose checksum does not fit can be anything.
  -- A timer can go off at any time. Layer 5 hands over a message while the buffer has a free place.
  pub data Step : System → System → Type 0 where
    hand_over :
        (s : System) (message : Bytes)
        → s.a.msg_num < max_buf_size
        → Step s (record s {
          a = a_output window_size message s.a;
          accepted = s.accepted ++ message ∷ [];
        })
    reach_b :
        (s : System) (p : Pkt)
        → Memᴰ (to_layer3 p) s.a.calls
        → Step s (record s { b = b_input p s.b })
    reach_a :
        (s : System) (p : Pkt)
        → Memᴰ (to_layer3 p) s.b.calls
        → Step s (record s { a = a_input window_size p s.a })
    damage_b :
        (s : System) (p : Pkt) → check_corrupted p ≡ true → Step s (record s { b = b_input p s.b })
    damage_a :
        (s : System) (p : Pkt)
        → check_corrupted p ≡ true
        → Step s (record s { a = a_input window_size p s.a })
    time_out : (s : System) (n : ℕ) → Step s (record s { a = a_timeout window_size n s.a })

  pub data Reach (s : System) : System → Type 0 where
    here : Reach s s
    next : {t u : System} → Reach s t → Step t u → Reach s u
