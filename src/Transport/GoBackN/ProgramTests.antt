-- ===== src/Transport/GoBackN/ProgramTests.antt =====
-- A run of the emulator: three messages, a window of eight places, a channel that loses the second
-- packet and corrupts the fifth one.
use computer_network_lab.Prelude.{ℕ, ◌≡◌, refl, true, false, [], ◌∷◌, arith, Bytes, codes}
use computer_network_lab.Transport.Packet.{
  word, pred, add_byte, sum_bytes, packet_sum, compute_checksum, check_corrupted, make_packet,
  make_ack, corrupt, assign, delivered,
}
use computer_network_lab.Transport.Fixture.{at_least, plus, no_packets, no_messages}
use computer_network_lab.Transport.Sides.{a_init, call, keep_message, take_message}
use computer_network_lab.Transport.GoBackN.{
  time_packet, restart, put_packet, a_output, slide, drain, advance, take_ack, a_input, resend,
  a_timeout, accept, acknowledge, b_input, b_init,
}
use computer_network_lab.Transport.GoBackN.System.{Reach}
use computer_network_lab.Transport.GoBackN.System as Network
use computer_network_lab.Transport.Emulator.{
  same_side, other_side, Simulation, is_timer, remove_timer, stoptime_r, insertevent, schedule,
  starttime_r, generate_next_arrival, send_on, tolayer3, perform, perform_all, run_a, run_b,
  hand_over, next_message, dispatch, run_first, round, go_on, simulate, start,
}
use computer_network_lab.Transport.GoBackN.Program.{go_back_n, go_back_n_refines}
use computer_network_lab.Transport.Emulator.Order.{IsTimed, round_in_time}

abbrev pattern_string : Bytes
pattern_string = codes "oxoo-oo"

-- The state after some rounds, with this channel, number of messages and window size.
abbrev run : Bytes → ℕ → (window_size : ℕ) → ℕ → Simulation ℕ (go_back_n window_size)
run pattern nsimmax window_size rounds =
    simulate at_least plus 150 65 100 pattern nsimmax (go_back_n window_size) rounds (
      start at_least plus 150 65 100 pattern nsimmax (go_back_n window_size) 0
        (a_init no_packets no_messages) b_init)

abbrev after : ℕ → Simulation ℕ (go_back_n 8)
after = run pattern_string 3 8

go_back_n_refines_example :
    Reach 8
      (Network.start no_packets no_messages)
      (record { a = (after 9).a; b = (after 9).b; accepted = (after 9).accepted })
go_back_n_refines_example =
    go_back_n_refines at_least plus 150 65 100 pattern_string 3 8 (omega arith) (omega arith) 0
      no_packets no_messages 9

leb_total : (x y : ℕ) → at_least x y ≡ false → at_least y x ≡ true
leb_total x y h = ground arith

leb_trans : (x y z : ℕ) → at_least x y ≡ true → at_least y z ≡ true → at_least x z ≡ true
leb_trans x y z h k = ground arith

round_in_time_example :
    IsTimed at_least leb_total leb_trans (after 1).emulator
    × (at_least (after 1).emulator.clock (after 0).emulator.clock ≡ true)
unfolding word pred add_byte sum_bytes packet_sum compute_checksum check_corrupted make_packet
    assign a_init call time_packet put_packet a_output insertevent schedule starttime_r
    generate_next_arrival send_on tolayer3 perform perform_all run_a hand_over next_message dispatch
    run_first round go_on simulate start
round_in_time_example =
    round_in_time at_least leb_total leb_trans plus 150 65 100 pattern_string 3 (go_back_n 8)
      (λ t. ground arith) (λ t. ground arith) (λ t. ground arith) (after 0) (after 1)
      (record { sorted = (tt, tt); coming = (refl, tt) }) refl

-- At the end of it everything has arrived and is acknowledged.
all_delivered :
    ((after 30).b.expected_seqnum ≡ 3) × ((after 30).a.base ≡ 3) × ((after 30).emulator.evlist ≡ [])
unfolding word pred add_byte sum_bytes packet_sum compute_checksum check_corrupted make_packet
    make_ack corrupt assign a_init call keep_message take_message time_packet restart put_packet
    a_output slide drain advance take_ack a_input resend a_timeout accept acknowledge b_input
    same_side other_side is_timer remove_timer stoptime_r insertevent schedule starttime_r
    generate_next_arrival send_on tolayer3 perform perform_all run_a run_b hand_over next_message
    dispatch run_first round go_on simulate start
all_delivered = (refl, refl, refl)

-- A lone packet that is lost is not sent again: the program ends with nothing delivered.
lone_packet_lost :
    ((run (codes "x") 1 8 5).emulator.evlist ≡ [])
    × ((run (codes "x") 1 8 5).accepted ≡ next_message 1 ∷ [])
    × (delivered (run (codes "x") 1 8 5).b.calls ≡ [])
unfolding word pred add_byte sum_bytes packet_sum compute_checksum check_corrupted make_packet
    make_ack corrupt assign a_init call keep_message take_message time_packet restart put_packet
    a_output slide drain advance take_ack a_input resend a_timeout accept acknowledge b_input
    same_side other_side is_timer remove_timer stoptime_r insertevent schedule starttime_r
    generate_next_arrival send_on tolayer3 perform perform_all run_a run_b hand_over next_message
    dispatch run_first round go_on simulate start delivered
lone_packet_lost = (refl, refl, refl)

-- A window of three places that has been full: packet 2, the only one lost, never gets through.
stuck_window :
    ((run (codes "ooooxooooooooooooooooooooooo") 3 3 40).a.base ≡ 2)
    × ((run (codes "ooooxooooooooooooooooooooooo") 3 3 40).b.expected_seqnum ≡ 2)
    × ((run (codes "ooooxooooooooooooooooooooooo") 3 3 40).emulator.nlost ≡ 1)
unfolding word pred add_byte sum_bytes packet_sum compute_checksum check_corrupted make_packet
    make_ack corrupt assign a_init call keep_message take_message time_packet restart put_packet
    a_output slide drain advance take_ack a_input resend a_timeout accept acknowledge b_input
    same_side other_side is_timer remove_timer stoptime_r insertevent schedule starttime_r
    generate_next_arrival send_on tolayer3 perform perform_all run_a run_b hand_over next_message
    dispatch run_first round go_on simulate start
stuck_window = (refl, refl, refl)
