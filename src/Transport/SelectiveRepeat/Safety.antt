-- ===== src/Transport/SelectiveRepeat/Safety.antt =====
-- Selective repeat on a network that loses, damages, repeats and reorders packets: what holds of both
-- sides after any sequence of steps.
use computer_network_lab.Prelude.{
  ℕ, ◌+◌, ◌≤◌, ◌<◌, ◌≡◌, refl, sym, false, some, [], ◌∷◌, ◌++◌, arith, Bytes, length, take,
}
use native.Mathlib.Nat.{zero-mod}
use computer_network_lab.Transport.Packet.{Pkt, check_corrupted, delivered}
use computer_network_lab.Transport.Sides.{Sender, a_init}
use computer_network_lab.Transport.Messages.{IsGenuine, All-Mem}
use computer_network_lab.Transport.SelectiveRepeat.{a_output, a_input, b_input}
use computer_network_lab.Transport.SelectiveRepeat.System.{System, start, Step, Reach}
use computer_network_lab.Transport.SelectiveRepeat.Output.{IsSender, a_output-IsSender}
use computer_network_lab.Transport.SelectiveRepeat.Input.{a_input-IsSender, a_timeout-IsSender}
use computer_network_lab.Transport.SelectiveRepeat.Delivery.{
  IsReceiver, IsReceiver-append, IsReceiver-more, b_input-IsReceiver,
}

-- Both sides are in order.
pub record IsSystem (window_size : ℕ) (s : System) : Type 0 where
  pub sender : IsSender window_size s.accepted s.a
  pub receiver : IsReceiver s.accepted s.a.next_seqnum s.b

module _ (window_size : ℕ) where
  start-IsSystem :
      (winbuf : ℕ → Pkt) (buffer : ℕ → Bytes) (recv_window : ℕ → Pkt)
      → 0 < window_size
      → IsSystem window_size (start winbuf buffer recv_window)
  unfolding a_init delivered
  start-IsSystem winbuf buffer recv_window positive = record {
    sender = record {
      window = record {
        genuine = tt;
        held = λ i h. absurd (omega arith);
        front = positive;
        rear = sym (zero-mod window_size);
        count = refl;
        high = omega arith;
      };
      queue = record {
        count = refl;
        fits = omega arith;
        front = omega arith;
        rear = refl;
        waiting = λ i h. absurd (omega arith);
      };
      full = λ h. absurd (omega arith);
    };
    receiver = record { got = refl; below = omega arith; held = λ i h. cc };
  }

  -- B takes a packet.
  b_step :
      (s : System) (p : Pkt)
      → IsSystem window_size s
      → (check_corrupted p ≡ false → IsGenuine s.accepted s.a.next_seqnum p)
      → IsSystem window_size (record s { b = b_input window_size p s.b })
  b_step s p v known = record {
    sender = v.sender;
    receiver = b_input-IsReceiver window_size s.accepted s.a.next_seqnum p s.b v.receiver known;
  }

  -- A takes a packet.
  a_step :
      (s : System) (p : Pkt)
      → IsSystem window_size s
      → IsSystem window_size (record s { a = a_input window_size p s.a })
  a_step s p v =
      let (h, n) = a_input-IsSender window_size s.accepted p s.a v.sender in
      record { sender = h; receiver = IsReceiver-more s.accepted _ _ s.b n v.receiver }

  hand_over_step :
      (s : System) (message : Bytes) (t : Sender)
      → IsSystem window_size s
      → a_output window_size message s.a ≡ some t
      → IsSystem window_size (record s { a = t; accepted = s.accepted ++ message ∷ [] })
  hand_over_step s message t v e =
      let (h, _, n) = a_output-IsSender window_size s.accepted message s.a t v.sender e in
      record {
        sender = h;
        receiver =
            IsReceiver-append s.accepted (message ∷ []) _ _ s.b n
              (omega (arith, v.sender.queue.count)) v.receiver;
      }

  Step-IsSystem :
      {s t : System} → Step window_size s t → IsSystem window_size s → IsSystem window_size t
  Step-IsSystem (Step.hand_over s message t e) v = hand_over_step s message t v e
  Step-IsSystem (Step.reach_b s p m) v = b_step s p v (λ _. All-Mem _ _ _ v.sender.window.genuine m)
  Step-IsSystem (Step.reach_a s p m) v = a_step s p v
  Step-IsSystem (Step.damage_b s p e) v = b_step s p v (λ f. cc)
  Step-IsSystem (Step.damage_a s p e) v = a_step s p v
  Step-IsSystem (Step.time_out s k) v =
      let (h, n) = a_timeout-IsSender window_size s.accepted k s.a v.sender in
      record {
        sender = h;
        receiver = IsReceiver-more s.accepted _ _ s.b (omega (arith, n)) v.receiver;
      }

  Reach-IsSystem :
      {s t : System} → Reach window_size s t → IsSystem window_size s → IsSystem window_size t
  Reach-IsSystem Reach.here v = v
  Reach-IsSystem (Reach.next r k) v = Step-IsSystem k (Reach-IsSystem r v)

  pub reached_system :
      (winbuf : ℕ → Pkt) (buffer : ℕ → Bytes) (recv_window : ℕ → Pkt) {s : System}
      → 0 < window_size
      → Reach window_size (start winbuf buffer recv_window) s
      → IsSystem window_size s
  reached_system winbuf buffer recv_window positive r =
      Reach-IsSystem r (start-IsSystem winbuf buffer recv_window positive)

  -- With a window of at least one place, after any steps from the start, on a network that loses,
  -- repeats, reorders and detectably damages packets: layer 5 at B has got exactly the first
  -- `expected_seq` of the messages handed to A, in order and each once; A has sent the packets that B
  -- expects next or has got, at most `window_size` past its base; and the packets sent and the
  -- messages waiting are together all that were handed to A.
  pub delivers_in_order :
      (winbuf : ℕ → Pkt) (buffer : ℕ → Bytes) (recv_window : ℕ → Pkt) {s : System}
      → 0 < window_size
      → Reach window_size (start winbuf buffer recv_window) s
      → (delivered s.b.calls ≡ take s.b.expected_seq s.accepted)
        × (s.b.expected_seq ≤ s.a.next_seqnum)
        × (s.a.next_seqnum ≤ s.a.base + window_size)
        × (s.a.next_seqnum + s.a.msg_num ≡ length s.accepted)
  delivers_in_order winbuf buffer recv_window positive r =
      let v = reached_system winbuf buffer recv_window positive r in
      let w = v.sender.window in
      (v.receiver.got, v.receiver.below, omega (arith, w.count, w.high), v.sender.queue.count)
