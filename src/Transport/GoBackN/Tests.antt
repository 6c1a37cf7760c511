-- ===== src/Transport/GoBackN/Tests.antt =====
-- Runs of both sides of Go-Back-N with a window of three places.
use computer_network_lab.Prelude.{
  ℕ, ◌+◌, ◌≤◌, ◌≡◌, ◌⊎◌, refl, List, [], ◌∷◌, arith, Bytes, replicate, length, take, drop, All,
}
use mathlib.Core.List.{Memᴰ}
use computer_network_lab.Transport.Sides.{Sender, a_init, call}
use computer_network_lab.Transport.Packet.{
  pos, word, Pkt, add_byte, sum_bytes, packet_sum, compute_checksum, check_corrupted, make_packet,
  make_ack, Call, to_layer3, to_layer5, start_timer, stop_timer, assign, delivered,
}
use computer_network_lab.Transport.GoBackN.{
  time_packet, restart, put_packet, a_output, slide, drain, advance, take_ack, a_input, resend,
  a_timeout, b_input,
}
use computer_network_lab.Transport.GoBackN.System.{System, start, Step, Reach}
use computer_network_lab.Transport.Messages.{IsGenuineCall}
use computer_network_lab.Transport.Waiting.{waiting}
use computer_network_lab.Transport.GoBackN.Safety.{delivers_prefix, window_bounds}

abbrev message : ℕ → Bytes
message n = replicate 20 n

abbrev empty_window : ℕ → Pkt
empty_window i = record { seqnum = 0; acknum = pos 0; checksum = 0; payload = [] }

abbrev empty_buffer : ℕ → Bytes
empty_buffer i = []

abbrev opened : System
opened = start empty_window empty_buffer

-- Two messages are handed over; the first packet reaches B, whose acknowledgement is lost.
abbrev one_sent : System
one_sent = record opened { a = a_output 3 (message 7) opened.a; accepted = message 7 ∷ [] }

abbrev two_sent : System
two_sent = record one_sent {
  a = a_output 3 (message 8) one_sent.a;
  accepted = message 7 ∷ message 8 ∷ [];
}

abbrev one_arrived : System
one_arrived = record two_sent { b = b_input (make_packet 0 (message 7)) two_sent.b }

one_arrived_steps : Reach 3 opened one_arrived
unfolding a_output a_init put_packet time_packet call make_packet
one_arrived_steps =
    Reach.next
      (Reach.next (Reach.next Reach.here (Step.hand_over opened (message 7) (omega arith)))
        (Step.hand_over one_sent (message 8) (omega arith)))
      (Step.reach_b two_sent (make_packet 0 (message 7)) (Memᴰ.head refl))

delivers_prefix_example :
    (delivered one_arrived.b.calls ≡ take one_arrived.b.expected_seqnum one_arrived.accepted)
    × (one_arrived.b.expected_seqnum ≤ length one_arrived.accepted)
delivers_prefix_example =
    delivers_prefix 3 (omega arith) empty_window empty_buffer one_arrived_steps

window_bounds_example :
    (one_arrived.a.base ≤ one_arrived.b.expected_seqnum)
    × (one_arrived.b.expected_seqnum ≤ one_arrived.a.next_seqnum)
    × (one_arrived.a.next_seqnum ≤ one_arrived.a.base + 3)
    × ((one_arrived.a.msg_num ≡ 0) ⊎ (one_arrived.a.next_seqnum ≡ one_arrived.a.base + 3))
    × All (IsGenuineCall one_arrived.accepted one_arrived.a.next_seqnum) one_arrived.a.calls
    × (drop one_arrived.a.next_seqnum one_arrived.accepted ≡ waiting one_arrived.a)
window_bounds_example = window_bounds 3 (omega arith) empty_window empty_buffer one_arrived_steps

-- The sequence numbers of the packets sent.
numbers : List Call → List ℕ
numbers [] = []
numbers (to_layer3 p ∷ calls) = p.seqnum ∷ numbers calls
numbers (to_layer5 b ∷ calls) = numbers calls
numbers (start_timer n ∷ calls) = numbers calls
numbers (stop_timer n ∷ calls) = numbers calls

-- Three packets fill the window, and the acknowledgement of packet 1 arrives.
abbrev full : Sender
full = a_output 3 (message 9) two_sent.a

abbrev two_acknowledged : Sender
two_acknowledged = a_input 3 (make_ack (pos 1)) full

-- The front of the window has not moved, since it was equal to the rear.
full_window_stays : (two_acknowledged.base ≡ 2) × (two_acknowledged.winfront ≡ 0)
unfolding a_input a_output a_init put_packet time_packet call make_packet make_ack compute_checksum
    check_corrupted packet_sum sum_bytes add_byte word take_ack advance slide drain restart assign
full_window_stays = (refl, refl)

-- The timer of packet 2 sends packet 0.
full_window_resends_wrong :
    numbers (drop (length two_acknowledged.calls) (a_timeout 3 2 two_acknowledged).calls) ≡ 0 ∷ []
unfolding a_input a_output a_init put_packet time_packet call make_packet make_ack compute_checksum
    check_corrupted packet_sum sum_bytes add_byte word take_ack advance slide drain restart assign
    numbers a_timeout resend
full_window_resends_wrong = refl

-- The acknowledgement of packet 0 is not taken.
first_ack_ignored : (a_input 3 (make_ack (pos 0)) one_sent.a).base ≡ 0
unfolding a_input a_output a_init put_packet time_packet call make_packet make_ack compute_checksum
    check_corrupted packet_sum sum_bytes add_byte word take_ack
first_ack_ignored = refl

-- No timer starts for the first packet.
first_packet_untimed : one_sent.a.calls ≡ to_layer3 (make_packet 0 (message 7)) ∷ []
unfolding a_output a_init put_packet time_packet call make_packet
first_packet_untimed = refl
