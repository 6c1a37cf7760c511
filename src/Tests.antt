-- ===== src/Tests.antt =====
-- The theorems on error codes, paths, messages, listings and metrics at concrete values.
use computer_network_lab.Prelude.{
  ℕ, ◌≡◌, refl, List, [], ◌∷◌, arith, Bytes, codes, replicate, length, All, Lacks, ◌≤◌,
}
use computer_network_lab.Paths.Laws.{IsComponent}
use computer_network_lab.Message.{CmdMsg, encode, receive_cmd, data_buf_len}
use computer_network_lab.Message.Wire.{receive_cmd-encode}
use computer_network_lab.Listing.{pack, unpack}
use computer_network_lab.Listing.Roundtrip.{IsEntry, kept, unpack-pack}
use computer_network_lab.Metrics.Counters.{Event, request, error}

-- One letter is a path component.
letter : (c : ℕ) → 65 ≤ c → c ≤ 90 → IsComponent (c ∷ [])
letter c low high = record { nonempty = λ e. cc; no_separator = (ground arith, tt) }

-- A message whose fields are all in use.
abbrev sent : CmdMsg
sent = record { cmd = 2; filename = replicate 128 b'a'; size = 70000; port = 40000; error = 107 }

receive_cmd-encode_example : (length (encode sent) ≡ 137) × (receive_cmd (encode sent) ≡ sent)
receive_cmd-encode_example = receive_cmd-encode sent (record {
  cmd = omega arith;
  filename = refl;
  size = omega arith;
  port = omega arith;
  error = omega arith;
})

a_txt-Lacks : Lacks 0 (codes "a.txt")
a_txt-Lacks = (λ e. cc, (λ e. cc, (λ e. cc, (λ e. cc, (λ e. cc, tt)))))

abbrev two_names : List Bytes
two_names = codes "a.txt" ∷ codes "a.txt" ∷ []

two_names-IsEntry : All IsEntry two_names
two_names-IsEntry = ((λ e. cc, a_txt-Lacks), ((λ e. cc, a_txt-Lacks), tt))

unpack-pack_example :
    (length (pack two_names) ≡ data_buf_len) × (unpack (pack two_names) ≡ kept 0 two_names)
unpack-pack_example = unpack-pack two_names two_names-IsEntry

abbrev events : List Event
events = request (codes "LS") ∷ error (codes "LS") (codes "TIMEOUT") ∷ request (codes "LS") ∷ []
