-- ===== src/Transport/GoBackN/Safety.antt =====
-- Go-Back-N on a network that loses, damages, repeats and reorders packets: what holds of both sides
-- after any sequence of steps.
use computer_network_lab.Prelude.{
  ℕ, ◌+◌, ◌≤◌, ◌<◌, ◌≡◌, refl, sym, ◌∙◌, false, Bool-cases, inl, inr, [], ◌∷◌, ◌++◌, arith, ltb,
  ltb→lt, ◌⊎◌, ◌==◌, Bytes, length, take, drop, All,
}
use computer_network_lab.Transport.Sides.{Sender, a_init, keep_message}
use computer_network_lab.Transport.Messages.{All-Mem, IsGenuine, IsGenuineCall, take-append}
use computer_network_lab.Transport.Waiting.{waiting, drop-waiting}
use computer_network_lab.Transport.Packet.{Pkt, check_corrupted, delivered}
use computer_network_lab.Transport.GoBackN.{
  Receiver, a_output, a_input, a_timeout, put_packet, b_input, accept, acknowledge,
}
use computer_network_lab.Transport.GoBackN.System.{System, start, Step, Reach}
use computer_network_lab.Transport.GoBackN.Queue.{IsSender, a_output-IsSender, time_packet_frame}
use computer_network_lab.Transport.GoBackN.Input.{a_input-IsSender, a_timeout-IsSender}
use computer_network_lab.Transport.GoBackN.Delivery.{
  IsReceiver, IsAck, IsAck-below, b_input-IsReceiver,
}

-- Both sides are in order, and A knows of no more packets than B has got.
pub record IsSystem (window_size : ℕ) (s : System) : Type 0 where
  pub sender : IsSender window_size s.accepted s.a
  pub receiver : IsReceiver s.accepted s.a.next_seqnum s.b
  pub order : s.a.base ≤ s.b.expected_seqnum

module _ (window_size : ℕ) (positive : 0 < window_size) where
  a_output_numbers :
      (message : Bytes) (s : Sender)
      → ((a_output window_size message s).base ≡ s.base)
        × (s.next_seqnum ≤ (a_output window_size message s).next_seqnum)
  unfolding a_output keep_message put_packet
  a_output_numbers message s =
      let (c, e) = time_packet_frame (put_packet window_size message s) in
      elim (Bool-cases (ltb s.next_seqnum (s.base + window_size))) [
        | inl k ↦ rw k (rw e refl, rw e (omega arith))
        | inr k ↦ rw k (refl, omega arith)
      ]

  start-IsSystem :
      (winbuf : ℕ → Pkt) (buffer : ℕ → Bytes) → IsSystem window_size (start winbuf buffer)
  unfolding a_init delivered
  start-IsSystem winbuf buffer = record {
    sender = record {
      window = record {
        genuine = tt;
        slots = λ i h k. absurd (omega arith);
        numbers = λ i h k. absurd (omega arith);
        sound = λ i h k. absurd (omega arith);
        front = positive;
        rear = positive;
        rear_next = λ h. refl;
        front_base = λ h. refl;
        low = omega arith;
        high = omega arith;
      };
      queue = record {
        count = refl;
        fits = omega arith;
        front = omega arith;
        rear = refl;
        waiting = λ i h. absurd (omega arith);
      };
      full = λ h. absurd (omega arith);
    };
    receiver = record { got = refl; below = omega arith; acks = tt };
    order = omega arith;
  }

  b_input_more : (p : Pkt) (r : Receiver) → r.expected_seqnum ≤ (b_input p r).expected_seqnum
  unfolding b_input accept acknowledge
  b_input_more p r = elim (Bool-cases (check_corrupted p)) [
    | inl e ↦ rw e (omega arith)
    | inr e ↦ rw e (elim (Bool-cases (p.seqnum == r.expected_seqnum)) [
      | inl k ↦ rw k (omega arith)
      | inr k ↦ rw k (omega arith)
    ])
  ]

  -- B takes a packet.
  b_step :
      (s : System) (p : Pkt)
      → IsSystem window_size s
      → (check_corrupted p ≡ false → IsGenuine s.accepted s.a.next_seqnum p)
      → IsSystem window_size (record s { b = b_input p s.b })
  b_step s p v known = record {
    sender = v.sender;
    receiver = b_input-IsReceiver s.accepted s.a.next_seqnum p s.b v.receiver known;
    order = omega (arith, v.order, b_input_more p s.b);
  }

  -- A takes a packet.
  a_step :
      (s : System) (p : Pkt)
      → IsSystem window_size s
      → (check_corrupted p ≡ false → IsAck s.b.expected_seqnum p)
      → IsSystem window_size (record s { a = a_input window_size p s.a })
  a_step s p v known =
      let (h, b, n) =
        a_input-IsSender window_size positive s.accepted p s.b.expected_seqnum s.a v.sender v.order
          (λ e. IsAck-below _ p (known e)) in
      record {
        sender = h;
        receiver = record {
          got = v.receiver.got;
          below = omega (arith, v.receiver.below);
          acks = v.receiver.acks;
        };
        order = b;
      }

  hand_over_step :
      (s : System) (message : Bytes)
      → IsSystem window_size s
      → s.a.msg_num < 5000
      → IsSystem window_size
          (record s { a = a_output window_size message s.a; accepted = s.accepted ++ message ∷ [] })
  hand_over_step s message v free =
      let (b, n) = a_output_numbers message s.a in
      let r = v.receiver in
      let known : s.b.expected_seqnum ≤ length s.accepted =
        omega (arith, r.below, v.sender.queue.count) in
      record {
        sender = a_output-IsSender window_size positive s.accepted message s.a v.sender free;
        receiver = record {
          got = r.got ∙ sym (take-append _ s.accepted (message ∷ []) known);
          below = omega (arith, r.below, n);
          acks = r.acks;
        };
        order = omega (arith, b, v.order);
      }

  time_out_step :
      (s : System) (n : ℕ)
      → IsSystem window_size s
      → IsSystem window_size (record s { a = a_timeout window_size n s.a })
  time_out_step s n v =
      let (h, b, m) = a_timeout-IsSender window_size positive s.accepted n s.a v.sender in
      record {
        sender = h;
        receiver = record {
          got = v.receiver.got;
          below = omega (arith, v.receiver.below, m);
          acks = v.receiver.acks;
        };
        order = omega (arith, b, v.order);
      }

  Step-IsSystem :
      {s t : System} → Step window_size s t → IsSystem window_size s → IsSystem window_size t
  Step-IsSystem (Step.hand_over s message free) v = hand_over_step s message v free
  Step-IsSystem (Step.reach_b s p m) v = b_step s p v (λ _. All-Mem _ _ _ v.sender.window.genuine m)
  Step-IsSystem (Step.reach_a s p m) v = a_step s p v (λ _. All-Mem _ _ _ v.receiver.acks m)
  Step-IsSystem (Step.damage_b s p e) v = b_step s p v (λ f. cc)
  Step-IsSystem (Step.damage_a s p e) v = a_step s p v (λ f. cc)
  Step-IsSystem (Step.time_out s n) v = time_out_step s n v

  Reach-IsSystem :
      {s t : System} → Reach window_size s t → IsSystem window_size s → IsSystem window_size t
  Reach-IsSystem Reach.here v = v
  Reach-IsSystem (Reach.next r k) v = Step-IsSystem k (Reach-IsSystem r v)

  -- After any steps from the start, every message handed to A is counted, A's window and buffer and
  -- B's log are in order, and A's base is at most what B expects.
  pub reached_system :
      (winbuf : ℕ → Pkt) (buffer : ℕ → Bytes) {s : System}
      → Reach window_size (start winbuf buffer) s
      → IsSystem window_size s
  reached_system winbuf buffer r = Reach-IsSystem r (start-IsSystem winbuf buffer)

  -- With a window of at least one place, after any steps from the start, on a network that loses,
  -- repeats, reorders and detectably damages packets: layer 5 at B has got exactly the first
  -- `expected_seqnum` of the messages handed to A, in order and each once.
  pub delivers_prefix :
      (winbuf : ℕ → Pkt) (buffer : ℕ → Bytes) {s : System}
      → Reach window_size (start winbuf buffer) s
      → (delivered s.b.calls ≡ take s.b.expected_seqnum s.accepted)
        × (s.b.expected_seqnum ≤ length s.accepted)
  delivers_prefix winbuf buffer r =
      let v = reached_system winbuf buffer r in
      (v.receiver.got, omega (arith, v.receiver.below, v.sender.queue.count))

  -- With a window of at least one place, after any steps from the start: the base of A is at most the
  -- number that B expects, that one at most A's next number, and A's next number at most
  -- `window_size` past its base; messages wait in the buffer only if the window is full; every packet
  -- that A has sent has a number below its next one and carries the message of that number; and the
  -- messages that wait are exactly those handed to A from its next number on, in order and each once.
  pub window_bounds :
      (winbuf : ℕ → Pkt) (buffer : ℕ → Bytes) {s : System}
      → Reach window_size (start winbuf buffer) s
      → (s.a.base ≤ s.b.expected_seqnum)
        × (s.b.expected_seqnum ≤ s.a.next_seqnum)
        × (s.a.next_seqnum ≤ s.a.base + window_size)
        × ((s.a.msg_num ≡ 0) ⊎ (s.a.next_seqnum ≡ s.a.base + window_size))
        × All (IsGenuineCall s.accepted s.a.next_seqnum) s.a.calls
        × (drop s.a.next_seqnum s.accepted ≡ waiting s.a)
  window_bounds winbuf buffer {s = s} r =
      let v = reached_system winbuf buffer r in
      let wait : (s.a.msg_num ≡ 0) ⊎ (s.a.next_seqnum ≡ s.a.base + window_size) =
        elim (Bool-cases (ltb 0 s.a.msg_num)) [
          | inl e ↦ inr (v.sender.full (ltb→lt _ _ e))
          | inr e ↦ inl (ground arith)
        ] in
      (
        v.order,
        v.receiver.below,
        v.sender.window.high,
        wait,
        v.sender.window.genuine,
        drop-waiting s.accepted s.a v.sender.queue,
      )
