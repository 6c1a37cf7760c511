-- ===== src/Metrics.antt =====
-- common/metrics.h and common/metrics.cpp: the counters. A counter is an atomic uint64_t, so an
-- increment is one step that wraps around.
pub mod Counters
pub mod Latency
use computer_network_lab.Prelude.{
  ℕ, ◌+◌, ◌%◌, ◌^◌, Option, none, some, [], ◌∷◌, ◌++◌, map, Bytes, codes,
}
use computer_network_lab.Prelude.Dict.{Dict, lookup, insert}

abbrev pub u64 : ℕ
u64 = 2 ^ 64

pub record Metrics : Type 0 where
  pub request_counts : Dict ℕ
  pub error_counts : Dict ℕ
  pub bytes_received : ℕ
  pub bytes_sent : ℕ
  pub send_sessions : ℕ
  pub send_failures : ℕ
  pub http_requests : ℕ

abbrev pub new_metrics : Metrics
new_metrics = record {
  request_counts = [];
  error_counts = [];
  bytes_received = 0;
  bytes_sent = 0;
  send_sessions = 0;
  send_failures = 0;
  http_requests = 0;
}

-- `find` and `load`; 0 for a key that is not there.
unfoldable pub get_count : Bytes → Dict ℕ → ℕ
get_count key counts = elim (lookup key counts) [ none ↦ 0 | some n ↦ n ]

-- `getOrCreateCounter(counts, key).fetch_add(1)`.
unfoldable pub increment : Bytes → Dict ℕ → Dict ℕ
increment key counts = insert key ((get_count key counts + 1) % u64) counts

unfoldable pub record_request : Bytes → Metrics → Metrics
record_request cmd m = record m { request_counts = increment cmd m.request_counts }

-- `recordError` counts under `cmd:code` and then under `cmd`.
unfoldable pub record_error : Bytes → Bytes → Metrics → Metrics
record_error cmd error_code m = record m {
  error_counts = increment cmd (increment (cmd ++ codes ":" ++ error_code) m.error_counts);
}

unfoldable pub get_request_count : Bytes → Metrics → ℕ
get_request_count cmd m = get_count cmd m.request_counts

unfoldable pub get_error_count : Bytes → Metrics → ℕ
get_error_count cmd m = get_count cmd m.error_counts

unfoldable pub record_bytes_received : ℕ → Metrics → Metrics
record_bytes_received n m = record m { bytes_received = (m.bytes_received + n) % u64 }

unfoldable pub record_bytes_sent : ℕ → Metrics → Metrics
record_bytes_sent n m = record m { bytes_sent = (m.bytes_sent + n) % u64 }

unfoldable pub record_send_session : Metrics → Metrics
record_send_session m = record m { send_sessions = (m.send_sessions + 1) % u64 }

unfoldable pub record_send_failure : Metrics → Metrics
record_send_failure m = record m { send_failures = (m.send_failures + 1) % u64 }

-- `recordHttpRequest` counts the request and, among the requests, `method:endpoint`.
unfoldable pub record_http_request : Bytes → Bytes → Metrics → Metrics
record_http_request endpoint method m = record m {
  http_requests = (m.http_requests + 1) % u64;
  request_counts = increment (method ++ codes ":" ++ endpoint) m.request_counts;
}

-- `reset` keeps the counters that exist, at 0.
unfoldable pub zeroed : Dict ℕ → Dict ℕ
zeroed = map (λ e. (e.0, 0))

unfoldable pub reset : Metrics → Metrics
reset m = record {
  request_counts = zeroed m.request_counts;
  error_counts = zeroed m.error_counts;
  bytes_received = 0;
  bytes_sent = 0;
  send_sessions = 0;
  send_failures = 0;
  http_requests = 0;
}
