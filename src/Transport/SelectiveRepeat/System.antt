-- ===== src/Transport/SelectiveRepeat/System.antt =====
-- Selective repeat on a network: what can happen to the two sides, and in which order.
use computer_network_lab.Prelude.{ℕ, ◌≡◌, true, some, List, [], ◌∷◌, ◌++◌, Bytes}
use mathlib.Core.List.{Memᴰ}
use computer_network_lab.Transport.Packet.{Pkt, check_corrupted, to_layer3}
use computer_network_lab.Transport.Sides.{Sender, a_init}
use computer_network_lab.Transport.SelectiveRepeat.{
  Receiver, b_init, a_output, a_input, a_timeout, b_input,
}

-- Both sides, and the messages that layer 5 has handed to A so far.
pub record System : Type 0 where
  pub a : Sender
  pub b : Receiver
  pub accepted : List Bytes

-- The state after `A_init`; the arrays of packets and messages hold what they held.
abbrev pub start : (ℕ → Pkt) → (ℕ → Bytes) → (ℕ → Pkt) → System
start winbuf buffer recv_window = record {
  a = a_init winbuf buffer;
  b = b_init recv_window;
  accepted = [];
}

module _ (window_size : ℕ) where
  -- As for Go-Back-N: the network loses, repeats and reorders packets and makes others up whose
  -- checksum does not fit, and timers go off at any time. Layer 5 hands over messages as long as that
  -- does not end the program.
  pub data Step : System → System → Type 0 where
    hand_over :
        (s : System) (message : Bytes) (t : Sender)
        → a_output window_size message s.a ≡ some t
        → Step s (record s { a = t; accepted = s.accepted ++ message ∷ [] })
    reach_b :
        (s : System) (p : Pkt)
        → Memᴰ (to_layer3 p) s.a.calls
        → Step s (record s { b = b_input window_size p s.b })
    reach_a :
        (s : System) (p : Pkt)
        → Memᴰ (to_layer3 p) s.b.calls
        → Step s (record s { a = a_input window_size p s.a })
    damage_b :
        (s : System) (p : Pkt)
        → check_corrupted p ≡ true
        → Step s (record s { b = b_input window_size p s.b })
    damage_a :
        (s : System) (p : Pkt)
        → check_corrupted p ≡ true
        → Step s (record s { a = a_input window_size p s.a })
    time_out : (s : System) (n : ℕ) → Step s (record s { a = a_timeout window_size n s.a })

  pub data Reach (s : System) : System → Type 0 where
    here : Reach s s
    next : {t u : System} → Reach s t → Step t u → Reach s u
