-- ===== src/Transport/SelectiveRepeat/Output.antt =====
-- What the selective-repeat sender does with a message from layer 5: it stays a sender whose window and
-- buffer are in order.
use computer_network_lab.Prelude.{
  ℕ, ◌+◌, ◌≤◌, ◌<◌, ◌≡◌, refl, sym, ap, ◌∙◌, Bool-cases, inl, inr, some, List, [], ◌∷◌, ◌++◌, arith,
  ltb, ltb→lt, Bytes, get_elem?, length, length-append,
}
use computer_network_lab.Transport.Sides.{Sender, keep_message}
use computer_network_lab.Transport.Messages.{
  genuine_append, get_elem?-append, get_elem?-last, IsQueue, keep_message-IsQueue,
}
use computer_network_lab.Transport.SelectiveRepeat.{send_new, a_output}
use computer_network_lab.Transport.SelectiveRepeat.Window.{IsWindow, send_new-IsWindow}

-- A sender to which these messages were handed. Messages wait only if the window is full.
pub record IsSender (window_size : ℕ) (accepted : List Bytes) (s : Sender) : Type 0 where
  pub window : IsWindow window_size accepted s
  pub queue : IsQueue accepted s
  pub full : 0 < s.msg_num → s.next_seqnum ≡ s.base + window_size

module _ (window_size : ℕ) where
  IsWindow-append :
      (xs ys : List Bytes) (s : Sender)
      → IsWindow window_size xs s
      → IsWindow window_size (xs ++ ys) s
  IsWindow-append xs ys s w = record {
    genuine = genuine_append xs ys _ s.calls w.genuine;
    held = λ i h. let ((low, e, c), n) = w.held i h in ((low, get_elem?-append xs ys _ e, c), n);
    front = w.front;
    rear = w.rear;
    count = w.count;
    high = w.high;
  }

  output_room :
      (accepted : List Bytes) (message : Bytes) (s : Sender)
      → IsSender window_size accepted s
      → s.next_seqnum < s.base + window_size
      → IsSender window_size (accepted ++ message ∷ []) (send_new window_size message s)
  unfolding send_new
  output_room accepted message s v room =
      let q = v.queue in
      let none_waits : s.msg_num ≡ 0 = ground (arith, v.full) in
      let last : s.next_seqnum ≡ length accepted = omega (arith, q.count) in
      record {
        window =
            send_new-IsWindow window_size (accepted ++ message ∷ []) message s
              (IsWindow-append accepted _ s v.window) room
              (ap (get_elem? (accepted ++ message ∷ [])) last ∙ get_elem?-last accepted message);
        queue = record {
          count = omega (arith, q.count, length-append accepted (message ∷ []));
          fits = q.fits;
          front = q.front;
          rear = q.rear;
          waiting = λ i h. absurd (omega arith);
        };
        full = λ h. absurd (omega arith);
      }

  output_full :
      (accepted : List Bytes) (message : Bytes) (s : Sender)
      → IsSender window_size accepted s
      → s.base + window_size ≤ s.next_seqnum
      → s.msg_num < 4999
      → IsSender window_size (accepted ++ message ∷ []) (keep_message message s)
  unfolding keep_message
  output_full accepted message s v crowded free =
      let w = IsWindow-append accepted (message ∷ []) s v.window in
      record {
        window = record {
          genuine = w.genuine;
          held = w.held;
          front = w.front;
          rear = w.rear;
          count = w.count;
          high = w.high;
        };
        queue = keep_message-IsQueue accepted message s v.queue (omega arith);
        full = λ h. omega (arith, w.high, w.count);
      }

  -- A message that is handed over is sent or kept, and A stays a sender.
  pub a_output-IsSender :
      (accepted : List Bytes) (message : Bytes) (s t : Sender)
      → IsSender window_size accepted s
      → a_output window_size message s ≡ some t
      → IsSender window_size (accepted ++ message ∷ []) t
        × (t.base ≡ s.base)
        × (s.next_seqnum ≤ t.next_seqnum)
  unfolding a_output send_new keep_message
  a_output-IsSender accepted message s t v e =
      elim (Bool-cases (ltb s.next_seqnum (s.base + window_size))) [
        | inl k ↦
            let sent : send_new window_size message s ≡ t = (let h = rw k at e in cc) in
            rw (sym sent) (output_room accepted message s v (ltb→lt _ _ k), refl, omega arith)
        | inr k ↦ elim (Bool-cases (ltb s.msg_num 4999)) [
          | inl j ↦
              let kept : keep_message message s ≡ t = (let h = rw j at (rw k at e) in cc) in
              rw (sym kept)
                (output_full accepted message s v (ground arith) (ltb→lt _ _ j), refl, omega arith)
          | inr j ↦ absurd (let h = rw j at (rw k at e) in cc)
        ]
      ]
