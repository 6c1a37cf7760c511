-- ===== src/Metrics/Latency.antt =====
-- common/metrics.cpp: the latency statistics of a command. The C type double is a parameter `Number`
-- with its sum and its comparison `>`; the numbers drawn by the random generator are arguments.
pub mod Samples
pub mod Tests
use computer_network_lab.Prelude.{
  ℕ, ◌+◌, ◌-◌, ◌%◌, ◌^◌, Bool, List, [], ◌∷◌, ◌++◌, ltb, if◌then◌else◌, length, set, get_or, min,
}
use computer_network_lab.Metrics.{u64}

abbrev pub max_samples : ℕ
max_samples = 1000

-- `LatencyStats`.
pub record LatencyStats (Number : Type 0) : Type 0 where
  pub count : ℕ
  pub sum : Number
  pub max : Number
  pub samples : List Number

abbrev pub new_stats : {Number : Type 0} → Number → LatencyStats Number
new_stats nought = record { count = 0; sum = nought; max = nought; samples = [] }

module _ {Number : Type 0} (plus : Number → Number → Number) (above : Number → Number → Bool) where
  -- The samples with another measurement: behind the others while there is room, else in the place
  -- that was drawn, if there is one.
  unfoldable pub add_sample : ℕ → Number → List Number → List Number
  add_sample drawn latency samples =
      if ltb (length samples) max_samples
      then samples ++ latency ∷ []
      else if ltb drawn max_samples
      then set samples drawn latency
      else samples

  -- `recordLatency`, with the number drawn if the samples are full.
  unfoldable pub record_latency : ℕ → Number → LatencyStats Number → LatencyStats Number
  record_latency drawn latency stats = record {
    count = (stats.count + 1) % u64;
    sum = plus stats.sum latency;
    max = if above latency stats.max then latency else stats.max;
    samples = add_sample drawn latency stats.samples;
  }

-- `getLatencyPercentile` of a command that has statistics. `sort` is `std::sort`, and `rank` gives
-- `std::ceil(percentile / 100.0 * size)` of a size; the 1 is taken off modulo 2 ^ 64.
unfoldable pub get_percentile :
    {Number : Type 0} → (List Number → List Number) → (ℕ → ℕ) → Number → List Number → Number
get_percentile sort rank nought [] = nought
get_percentile sort rank nought (x ∷ samples) =
    let sorted = sort (x ∷ samples) in
    let n = length sorted in get_or sorted (min ((rank n + (u64 - 1)) % u64) (n - 1)) nought
