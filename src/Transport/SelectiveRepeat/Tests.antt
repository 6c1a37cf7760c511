-- ===== src/Transport/SelectiveRepeat/Tests.antt =====
-- Runs of both sides of selective repeat with a window of two places.
use computer_network_lab.Prelude.{
  ℕ, ◌+◌, ◌≤◌, ◌≡◌, refl, some, [], ◌∷◌, ◌++◌, arith, Bytes, replicate, length, take, drop,
  get_elem?,
}
use mathlib.Core.List.{Memᴰ}
use computer_network_lab.Transport.Packet.{
  pos, word, add_byte, sum_bytes, packet_sum, compute_checksum, check_corrupted, make_packet,
  make_ack, to_layer3, to_layer5, start_timer, assign, delivered,
}
use computer_network_lab.Transport.Fixture.{no_packets, no_messages}
use computer_network_lab.Transport.Sides.{a_init}
use computer_network_lab.Transport.SelectiveRepeat.{
  Receiver, send_new, a_output, slide, drain, a_timeout, in_range, hold, deliver, b_input,
}
use computer_network_lab.Transport.SelectiveRepeat.System.{System, start, Step, Reach}
use computer_network_lab.Transport.SelectiveRepeat.Loops.{loops_end}
use computer_network_lab.Transport.SelectiveRepeat.Safety.{delivers_in_order}
use computer_network_lab.Transport.SelectiveRepeat.Timeout.{timeout_resends}

abbrev message : ℕ → Bytes
message n = replicate 20 n

abbrev opened : System
opened = start no_packets no_messages no_packets

-- Two messages are handed over; the second packet reaches B, and then the first one.
abbrev one_sent : System
one_sent = record opened { a = send_new 2 (message 7) opened.a; accepted = message 7 ∷ [] }

abbrev two_sent : System
two_sent = record one_sent {
  a = send_new 2 (message 8) one_sent.a;
  accepted = message 7 ∷ message 8 ∷ [];
}

abbrev second_arrived : System
second_arrived = record two_sent { b = b_input 2 (make_packet 1 (message 8)) two_sent.b }

abbrev both_arrived : System
both_arrived = record second_arrived { b = b_input 2 (make_packet 0 (message 7)) second_arrived.b }

both_arrived_steps : Reach 2 opened both_arrived
unfolding a_output a_init send_new make_packet
both_arrived_steps =
    Reach.next
      (Reach.next
        (Reach.next (Reach.next Reach.here (Step.hand_over opened (message 7) one_sent.a refl))
          (Step.hand_over one_sent (message 8) two_sent.a refl))
        (Step.reach_b two_sent (make_packet 1 (message 8))
          (Memᴰ.tail (Memᴰ.tail (Memᴰ.head refl)))))
      (Step.reach_b second_arrived (make_packet 0 (message 7)) (Memᴰ.head refl))

delivers_in_order_example :
    (delivered both_arrived.b.calls ≡ take both_arrived.b.expected_seq both_arrived.accepted)
    × (both_arrived.b.expected_seq ≤ both_arrived.a.next_seqnum)
    × (both_arrived.a.next_seqnum ≤ both_arrived.a.base + 2)
    × (both_arrived.a.next_seqnum + both_arrived.a.msg_num ≡ length both_arrived.accepted)
delivers_in_order_example =
    delivers_in_order 2 no_packets no_messages no_packets (omega arith) both_arrived_steps

timeout_resends_example :
    ((a_timeout 2 1 both_arrived.a).calls
      ≡ both_arrived.a.calls ++ to_layer3 (make_packet 1 (message 8)) ∷ start_timer 1 ∷ [])
    × ((both_arrived.a.winbuf 1).seqnum ≡ 1)
    × (get_elem? both_arrived.accepted 1 ≡ some (message 8))
unfolding a_output a_init send_new make_packet assign compute_checksum
timeout_resends_example =
    timeout_resends 2 no_packets no_messages no_packets 1 (omega arith) both_arrived_steps
      (omega arith) refl

loops_end_example :
    (slide 2 9 two_sent.a ≡ slide 2 2 two_sent.a)
    × (drain 2 9 two_sent.a ≡ drain 2 2 two_sent.a)
    × (deliver 2 9 second_arrived.b ≡ deliver 2 2 second_arrived.b)
unfolding a_init send_new
loops_end_example =
    loops_end 2 9 two_sent.a second_arrived.b (omega arith) (omega arith) (omega arith)
      (omega arith)

-- Packet 0 arrives three times, since its acknowledgements get lost.
abbrev first_twice : Receiver
first_twice = b_input 2 (make_packet 0 (message 7)) (b_input 2 (make_packet 0 (message 7)) opened.b)

-- The second arrival is acknowledged, the third one is not, nor is any later one.
third_unanswered :
    (b_input 2 (make_packet 0 (message 7)) first_twice ≡ first_twice)
    × (first_twice.calls
        ≡ to_layer3 (make_ack (pos 0)) ∷ to_layer5 (message 7) ∷ to_layer3 (make_ack (pos 0)) ∷ [])
unfolding a_output a_init send_new make_packet b_input check_corrupted compute_checksum packet_sum
    sum_bytes add_byte word in_range hold deliver assign make_ack
third_unanswered = (refl, refl)

-- Packets 0 and 1 have arrived, packet 3 is held and acknowledged, and packet 1 arrives again.
abbrev old_arrived : Receiver
old_arrived = b_input 2 (make_packet 1 (message 8)) (
    b_input 2 (make_packet 3 (message 9))
      (b_input 2 (make_packet 1 (message 8)) (b_input 2 (make_packet 0 (message 7)) opened.b)))

-- Packet 1 is in the slot of packet 3.
held_overwritten :
    (old_arrived.expected_seq ≡ 2)
    × ((old_arrived.recv_window 1).seqnum ≡ 1)
    × (drop 4 old_arrived.calls ≡ to_layer3 (make_ack (pos 3)) ∷ to_layer3 (make_ack (pos 1)) ∷ [])
unfolding a_output a_init send_new make_packet b_input check_corrupted compute_checksum packet_sum
    sum_bytes add_byte word in_range hold deliver assign make_ack
held_overwritten = (refl, refl, refl)
