-- ===== src/Transport/GoBackN/Queue.antt =====
-- The sender's buffer of messages: a ring that holds, in order, the messages that wait for a place in
-- the window.
use computer_network_lab.Prelude.{
  ℕ, ◌+◌, ◌≤◌, ◌<◌, ◌≡◌, refl, ap, ◌∙◌, true, Bool-cases, inl, inr, List, [], ◌∷◌, ◌++◌, arith, ltb,
  ltb→lt, lt→ltb, ◌==◌, Bytes, get_elem?, length, length-append,
}
use computer_network_lab.Transport.Sides.{Sender, call, keep_message, take_message}
use computer_network_lab.Transport.Messages.{
  genuine_append, get_elem?-append, get_elem?-last, IsQueue, keep_message-IsQueue, first_waiting,
  take_message-IsQueue,
}
use computer_network_lab.Transport.Packet.{Call, start_timer}
use computer_network_lab.Transport.GoBackN.{put_packet, time_packet, a_output}
use computer_network_lab.Transport.GoBackN.Window.{IsWindow, send-IsWindow}

IsWindow-append :
    (window_size : ℕ) (xs ys : List Bytes) (s : Sender)
    → IsWindow window_size xs s
    → IsWindow window_size (xs ++ ys) s
IsWindow-append window_size xs ys s w = record {
  genuine = genuine_append xs ys _ s.calls w.genuine;
  slots = λ i h k. let (low, e, c) = w.slots i h k in (low, get_elem?-append xs ys _ e, c);
  numbers = w.numbers;
  sound = w.sound;
  front = w.front;
  rear = w.rear;
  rear_next = w.rear_next;
  front_base = w.front_base;
  low = w.low;
  high = w.high;
}

-- A sender to which these messages were handed. Messages wait only if the window is full.
pub record IsSender (window_size : ℕ) (accepted : List Bytes) (s : Sender) : Type 0 where
  pub window : IsWindow window_size accepted s
  pub queue : IsQueue accepted s
  pub full : 0 < s.msg_num → s.next_seqnum ≡ s.base + window_size

pub time_packet_frame :
    (s : Sender)
    → (c : List Call) × (time_packet s ≡ record s { next_seqnum = s.next_seqnum + 1; calls = c })
unfolding time_packet call
time_packet_frame s = elim (Bool-cases (s.next_seqnum == s.base + 1)) [
  | inl e ↦ (s.calls ++ start_timer s.base ∷ [], rw e refl)
  | inr e ↦ (s.calls, rw e refl)
]

module _ (window_size : ℕ) (positive : 0 < window_size) where
  -- A new message with a place in the window.
  output_room :
      (accepted : List Bytes) (message : Bytes) (s : Sender)
      → IsSender window_size accepted s
      → s.next_seqnum < s.base + window_size
      → IsSender window_size
          (accepted ++ message ∷ [])
          (time_packet (put_packet window_size message s))
  unfolding put_packet
  output_room accepted message s v room =
      let q = v.queue in
      let none_waits : s.msg_num ≡ 0 = ground (arith, v.full) in
      let last : s.next_seqnum ≡ length accepted = omega (arith, q.count) in
      let w =
        send-IsWindow window_size (accepted ++ message ∷ []) message s positive
          (IsWindow-append window_size accepted _ s v.window) room
          (ap (get_elem? (accepted ++ message ∷ [])) last ∙ get_elem?-last accepted message) in
      let (c, e) = time_packet_frame (put_packet window_size message s) in
      record {
        window = w;
        queue = rw e (record {
          count = omega (arith, q.count, length-append accepted (message ∷ []));
          fits = q.fits;
          front = q.front;
          rear = q.rear;
          waiting = λ i h. absurd (omega arith);
        });
        full = rw e (λ h. omega arith);
      }

  -- A new message with the window full.
  output_full :
      (accepted : List Bytes) (message : Bytes) (s : Sender)
      → IsSender window_size accepted s
      → s.base + window_size ≤ s.next_seqnum
      → s.msg_num < 5000
      → IsSender window_size (accepted ++ message ∷ []) (keep_message message s)
  unfolding keep_message
  output_full accepted message s v crowded free =
      let w = IsWindow-append window_size accepted (message ∷ []) s v.window in
      record {
        window = record {
          genuine = w.genuine;
          slots = w.slots;
          numbers = w.numbers;
          sound = w.sound;
          front = w.front;
          rear = w.rear;
          rear_next = w.rear_next;
          front_base = w.front_base;
          low = w.low;
          high = w.high;
        };
        queue = keep_message-IsQueue accepted message s v.queue free;
        full = λ h. omega (arith, w.high);
      }

  pub a_output-IsSender :
      (accepted : List Bytes) (message : Bytes) (s : Sender)
      → IsSender window_size accepted s
      → s.msg_num < 5000
      → IsSender window_size (accepted ++ message ∷ []) (a_output window_size message s)
  unfolding a_output
  a_output-IsSender accepted message s v free =
      elim (Bool-cases (ltb s.next_seqnum (s.base + window_size))) [
        | inl e ↦ rw e (output_room accepted message s v (ltb→lt _ _ e))
        | inr e ↦ rw e (output_full accepted message s v (ground arith) free)
      ]

  -- A waiting message moves into the window.
  pub refill :
      (accepted : List Bytes) (s : Sender)
      → IsWindow window_size accepted s
      → IsQueue accepted s
      → 0 < s.msg_num
      → s.next_seqnum < s.base + window_size
      → let t = a_output window_size (s.buffer s.buffront) (take_message s) in
        IsWindow window_size accepted t
        × IsQueue accepted t
        × (t.next_seqnum ≡ s.next_seqnum + 1)
        × (t.base ≡ s.base)
  unfolding a_output take_message put_packet
  refill accepted s w q some_wait room =
      let t = take_message s in
      let taken : IsWindow window_size accepted t = record {
        genuine = w.genuine;
        slots = w.slots;
        numbers = w.numbers;
        sound = w.sound;
        front = w.front;
        rear = w.rear;
        rear_next = w.rear_next;
        front_base = w.front_base;
        low = w.low;
        high = w.high;
      } in
      let first = first_waiting accepted s q some_wait in
      let sent =
        send-IsWindow window_size accepted (s.buffer s.buffront) t positive taken room first in
      let (c, e) = time_packet_frame (put_packet window_size (s.buffer s.buffront) t) in
      let passes : ltb s.next_seqnum (s.base + window_size) ≡ true = lt→ltb _ _ room in
      let k = take_message-IsQueue accepted s q some_wait in
      let queue : IsQueue accepted (time_packet (put_packet window_size (s.buffer s.buffront) t)) =
        rw e (record {
          count = k.count;
          fits = k.fits;
          front = k.front;
          rear = k.rear;
          waiting = k.waiting;
        }) in
      rw passes (sent, queue, rw e refl, rw e refl)
