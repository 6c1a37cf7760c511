-- ===== src/Metrics/Counters.antt =====
-- What the counters say after any sequence of events.
use computer_network_lab.Prelude.{
  ℕ, ◌+◌, ◌%◌, ◌<◌, ◌≡◌, refl, List, [], ◌∷◌, ◌++◌, arith, Bytes, codes, bytes_eq, bytes_eq_iff,
  if◌then◌else◌,
}
use computer_network_lab.Prelude.Dict.{Dict, lookup, lookup-insert}
use computer_network_lab.Metrics.{
  Metrics, u64, get_count, increment, record_request, record_error, get_request_count, zeroed,
  record_http_request, record_bytes_received, record_send_session, record_send_failure,
  record_bytes_sent,
}

-- An increment moves its own counter and no other.
pub get_count-increment :
    (key j : Bytes) (counts : Dict ℕ)
    → get_count j (increment key counts)
      ≡ (if bytes_eq key j then (get_count j counts + 1) % u64 else get_count j counts)
unfolding get_count increment
get_count-increment key j counts =
    ground
      (arith, lookup-insert key j ((get_count key counts + 1) % u64) counts, bytes_eq_iff key j)

get_count-zeroed : (key : Bytes) (counts : Dict ℕ) → get_count key (zeroed counts) ≡ 0
unfolding get_count zeroed lookup
get_count-zeroed key [] = refl
get_count-zeroed key ((j, n) ∷ counts) = ground (arith, get_count-zeroed key counts)

-- What happens to the counters, as events.
pub data Event : Type 0 where
  request : Bytes → Event
  error : Bytes → Bytes → Event
  received sent : ℕ → Event
  session failure : Event
  http : Bytes → Bytes → Event

unfoldable pub apply : Event → Metrics → Metrics
apply (request cmd) = record_request cmd
apply (error cmd code) = record_error cmd code
apply (received n) = record_bytes_received n
apply (sent n) = record_bytes_sent n
apply session = record_send_session
apply failure = record_send_failure
apply (http endpoint method) = record_http_request endpoint method

unfoldable pub replay : List Event → Metrics → Metrics
replay [] m = m
replay (e ∷ es) m = replay es (apply e m)

-- The key under which an event counts as a request.
unfoldable pub counts_as : Bytes → Event → ℕ
counts_as key (request cmd) = if bytes_eq cmd key then 1 else 0
counts_as key (http endpoint method) =
    if bytes_eq (method ++ codes ":" ++ endpoint) key then 1 else 0
counts_as key _ = 0

unfoldable pub occurrences : Bytes → List Event → ℕ
occurrences key [] = 0
occurrences key (e ∷ es) = counts_as key e + occurrences key es

apply_count :
    (key : Bytes) (e : Event) (m : Metrics)
    → get_request_count key m < u64
    → get_request_count key (apply e m) ≡ (get_request_count key m + counts_as key e) % u64
unfolding get_request_count apply counts_as record_request record_error record_bytes_received
    record_bytes_sent record_send_session record_send_failure record_http_request
apply_count key (request cmd) m h = ground (arith, get_count-increment cmd key m.request_counts)
apply_count key (http endpoint method) m h =
    ground (arith, get_count-increment (method ++ codes ":" ++ endpoint) key m.request_counts)
apply_count key _ m h = omega arith

-- After any sequence of events a request counter is the number of events that count under its key,
-- modulo 2^64.
pub get_request_count-replay :
    (key : Bytes) (es : List Event) (m : Metrics)
    → get_request_count key m < u64
    → get_request_count key (replay es m) ≡ (get_request_count key m + occurrences key es) % u64
unfolding replay occurrences
get_request_count-replay key [] m h = omega arith
get_request_count-replay key (e ∷ es) m h = omega (
  arith,
  apply_count key e m h,
  get_request_count-replay key es (apply e m) (omega (arith, apply_count key e m h)),
)
