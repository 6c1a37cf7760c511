-- ===== src/Transport/Emulator/Arrivals.antt =====
-- The emulator of original-labs/gbn.c: the message that a round makes up, and the event that it takes out
-- of the list.
use computer_network_lab.Prelude.{ℕ, zero, suc, ◌+◌, ◌%◌, ◌≤◌, ◌≡◌, ap, List, ◌∷◌, arith, replicate}
use computer_network_lab.Transport.Packet.{Call}
use computer_network_lab.Transport.Checksum.{AreBytes}
use computer_network_lab.Transport.Damage.{IsMessage}
use computer_network_lab.Transport.Emulator.{Event, Emulator, next_message}
use computer_network_lab.Transport.Emulator.EventList.{arrival, arrivals}
use computer_network_lab.Transport.Emulator.Calls.{IsEvent, IsEmulator}

replicate-AreBytes : (n c : ℕ) → c ≤ 255 → AreBytes (replicate n c)
replicate-AreBytes zero c h = tt
replicate-AreBytes (suc n) c h = (h, replicate-AreBytes n c h)

pub next_message-IsMessage : (nsim : ℕ) → IsMessage (next_message nsim)
unfolding next_message
next_message-IsMessage nsim = replicate-AreBytes 20 (97 + nsim % 26) (omega arith)

-- The first event is taken out of the list.
pub first-IsEmulator :
    {Time : Type 0} (log_a log_b : List Call) (nsimmax total : ℕ) (e : Emulator Time)
    (q : Event Time) (evlist : List (Event Time))
    → e.evlist ≡ q ∷ evlist
    → IsEmulator log_a log_b nsimmax total e
    → IsEmulator log_a log_b nsimmax
        (arrival q.evtype + total)
        (record e { evlist = evlist; clock = q.evtime })
      × IsEvent log_a log_b q.eventity q.evtype
first-IsEmulator log_a log_b nsimmax total e q evlist h v =
    let (first, others) = rw h at v.events in
    (
      record { events = others; budget = omega (arith, v.budget, ap arrivals h); limit = v.limit },
      first,
    )
