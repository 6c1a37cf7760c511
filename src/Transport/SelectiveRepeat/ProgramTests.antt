-- ===== src/Transport/SelectiveRepeat/ProgramTests.antt =====
-- Runs of the emulator with the sides of selective repeat.
use computer_network_lab.Prelude.{ℕ, ◌≡◌, refl, [], arith, Bytes, codes}
use computer_network_lab.Transport.Packet.{
  word, pred, add_byte, sum_bytes, packet_sum, compute_checksum, check_corrupted, make_packet,
  make_ack, corrupt, assign,
}
use computer_network_lab.Transport.Fixture.{at_least, plus, no_packets, no_messages}
use computer_network_lab.Transport.Sides.{a_init, call, keep_message, take_message}
use computer_network_lab.Transport.SelectiveRepeat.{
  b_init, is_number, resend, send_new, a_output, find, slide, drain, mark, take_ack, a_input,
  a_timeout, in_range, hold, deliver, b_input,
}
use computer_network_lab.Transport.SelectiveRepeat.System.{Reach}
use computer_network_lab.Transport.SelectiveRepeat.System as Network
use computer_network_lab.Transport.Emulator.{
  same_side, other_side, Simulation, is_timer, remove_timer, stoptime_r, insertevent, schedule,
  starttime_r, generate_next_arrival, send_on, tolayer3, perform, perform_all, run_a, run_b,
  hand_over, next_message, dispatch, run_first, round, go_on, simulate, start,
}
use computer_network_lab.Transport.SelectiveRepeat.Program.{
  selective_repeat, selective_repeat_refines,
}

-- The state after some rounds with three messages and a window of two places.
abbrev run : Bytes → ℕ → Simulation ℕ (selective_repeat 2)
run pattern rounds = simulate at_least plus 150 65 100 pattern 3 (selective_repeat 2) rounds (
    start at_least plus 150 65 100 pattern 3 (selective_repeat 2) 0 (a_init no_packets no_messages)
      (b_init no_packets))

selective_repeat_refines_example :
    Reach 2 (Network.start no_packets no_messages no_packets) (record {
      a = (run (codes "oxoo-oo") 9).a;
      b = (run (codes "oxoo-oo") 9).b;
      accepted = (run (codes "oxoo-oo") 9).accepted;
    })
selective_repeat_refines_example =
    selective_repeat_refines at_least plus 150 65 100 (codes "oxoo-oo") 3 2 (omega arith)
      (omega arith) 0 no_packets no_messages no_packets 9

-- The packet that the channel loses is sent again when its own timer goes off, and all three messages
-- arrive.
lost_packet_resent :
    ((run (codes "ooooxooo") 40).a.base ≡ 3)
    × ((run (codes "ooooxooo") 40).b.expected_seq ≡ 3)
    × ((run (codes "ooooxooo") 40).emulator.nlost ≡ 1)
    × ((run (codes "ooooxooo") 40).emulator.evlist ≡ [])
unfolding word pred add_byte sum_bytes packet_sum compute_checksum check_corrupted make_packet
    make_ack corrupt assign a_init call keep_message take_message is_number resend send_new a_output
    find slide drain mark take_ack a_input a_timeout in_range hold deliver b_input same_side
    other_side is_timer remove_timer stoptime_r insertevent schedule starttime_r
    generate_next_arrival send_on tolayer3 perform perform_all run_a run_b hand_over next_message
    dispatch run_first round go_on simulate start
lost_packet_resent = (refl, refl, refl, refl)
