-- ===== src/Metrics/Latency/Samples.antt =====
-- What the latency statistics keep of the measurements.
use computer_network_lab.Prelude.{
  ℕ, zero, suc, ◌+◌, ◌-◌, ◌%◌, ◌≤◌, ◌<◌, ◌≡◌, refl, false, true, ap, ◌∙◌, ◌++◌, Bool, Bool-cases,
  inl, inr, ◌⊎◌, List, [], ◌∷◌, arith, ltb, length, length-append, length-set, set, get_or, min,
  All, All-append, All-map_of,
}
use computer_network_lab.Metrics.{u64}
use computer_network_lab.Metrics.Latency.{
  max_samples, LatencyStats, new_stats, add_sample, record_latency, get_percentile,
}

module _ {Number : Type 0} where
  set-All :
      (P : Number → Type 0) (xs : List Number) (i : ℕ) (v : Number)
      → P v
      → All P xs
      → All P (set xs i v)
  set-All P [] i v h k = tt
  set-All P (x ∷ xs) zero v h (j, k) = (h, k)
  set-All P (x ∷ xs) (suc i) v h (j, k) = (j, set-All P xs i v h k)

-- The laws of `>` that the maximum needs; for double they hold where no number is a NaN.
pub record IsOrder {Number : Type 0} (above : Number → Number → Bool) : Type 0 where
  pub not_itself : (x : Number) → above x x ≡ false
  pub one_way : (x y : Number) → above x y ≡ true → above y x ≡ false
  pub not_above : (x y z : Number) → above x y ≡ false → above y z ≡ false → above x z ≡ false

module _ {Number : Type 0} (plus : Number → Number → Number) (above : Number → Number → Bool)
    (nought : Number) where
  -- The statistics after these measurements, the last one first, each with the number drawn.
  abbrev pub measured : List (ℕ × Number) → LatencyStats Number
  measured [] = new_stats nought
  measured ((drawn, latency) ∷ before) = record_latency plus above drawn latency (measured before)

  abbrev pub Measured : List (ℕ × Number) → Number → Type 0
  Measured [] x = ⊥
  Measured ((drawn, latency) ∷ before) x = (x ≡ latency) ⊎ Measured before x

  add_sample-All :
      (P : Number → Type 0) (drawn : ℕ) (latency : Number) (samples : List Number)
      → P latency
      → All P samples
      → All P (add_sample plus above drawn latency samples)
  unfolding add_sample
  add_sample-All P drawn latency samples h k =
      elim (Bool-cases (ltb (length samples) max_samples)) [
        | inl e ↦ rw e (All-append P samples (latency ∷ []) k (h, tt))
        | inr e ↦ elim (Bool-cases (ltb drawn max_samples)) [
          | inl j ↦ rw e (rw j (set-All P samples drawn latency h k))
          | inr j ↦ rw e (rw j k)
        ]
      ]

  length-add_sample :
      (drawn : ℕ) (latency : Number) (samples : List Number)
      → length samples ≤ max_samples
      → length (add_sample plus above drawn latency samples) ≡ min (length samples + 1) max_samples
  unfolding add_sample
  length-add_sample drawn latency samples h = elim (Bool-cases (ltb (length samples) max_samples)) [
    | inl e ↦
        let room : length samples < 1000 = ground arith in
        rw e (omega (arith, length-append samples (latency ∷ [])))
    | inr e ↦
        let full : length samples ≡ 1000 = ground arith in
        elim (Bool-cases (ltb drawn max_samples)) [
          | inl j ↦ rw e (rw j (omega (arith, length-set samples drawn latency)))
          | inr j ↦ rw e (rw j (omega arith))
        ]
  ]

  samples_measured : (before : List (ℕ × Number)) → All (Measured before) (measured before).samples
  unfolding record_latency
  samples_measured [] = tt
  samples_measured ((drawn, latency) ∷ before) =
      add_sample-All (Measured ((drawn, latency) ∷ before)) drawn latency (measured before).samples
        (inl refl)
        (All-map_of (Measured before) (Measured ((drawn, latency) ∷ before)) (λ x h. inr h)
          (measured before).samples (samples_measured before))

  samples_count :
      (before : List (ℕ × Number))
      → length (measured before).samples ≡ min (length before) max_samples
  unfolding record_latency
  samples_count [] = omega arith
  samples_count ((drawn, latency) ∷ before) =
      let known = samples_count before in
      omega (arith, known, length-add_sample drawn latency (measured before).samples (omega arith))

  max_measured :
      (before : List (ℕ × Number))
      → ((measured before).max ≡ nought) ⊎ Measured before (measured before).max
  unfolding record_latency
  max_measured [] = inl refl
  max_measured ((drawn, latency) ∷ before) =
      elim (Bool-cases (above latency (measured before).max)) [
        | inl e ↦ rw e (inr (inl refl))
        | inr e ↦ rw e (elim (max_measured before) [ inl k ↦ inl k | inr k ↦ inr (inr k) ])
      ]

  -- An element of a list that is not empty.
  get_or-All :
      (P : Number → Type 0) (xs : List Number) (i : ℕ) (d : Number)
      → All P xs
      → i < length xs
      → P (get_or xs i d)
  get_or-All P [] i d h k = absurd (omega arith)
  get_or-All P (x ∷ xs) zero d (h, k) j = h
  get_or-All P (x ∷ xs) (suc i) d (h, k) j = get_or-All P xs i d k (omega arith)

  -- No element is above a later one.
  abbrev pub IsSorted : List Number → Type 0
  IsSorted [] = Unit
  IsSorted (x ∷ xs) = All (λ y. above x y ≡ false) xs × IsSorted xs

  -- In the sorted list this number stands in the place of the rank, counted from 1: what is before it
  -- is not above it, and it is not above what follows.
  abbrev pub IsRanked : List Number → ℕ → Number → Type 0
  IsRanked sorted rank p =
      (lower : List Number) × (upper : List Number) × (sorted ≡ lower ++ p ∷ upper)
      × (length lower + 1 ≡ rank)
      × All (λ x. above x p ≡ false) lower
      × All (λ y. above p y ≡ false) upper

  get_or-IsRanked :
      (xs : List Number) (i : ℕ) (d : Number)
      → IsSorted xs
      → i < length xs
      → IsRanked xs (i + 1) (get_or xs i d)
  get_or-IsRanked [] i d h k = absurd (omega arith)
  get_or-IsRanked (x ∷ xs) zero d (h, s) k = ([], xs, refl, refl, tt, h)
  get_or-IsRanked (x ∷ xs) (suc i) d (h, s) k =
      let (lower, upper, e, n, before, behind) = get_or-IsRanked xs i d s (omega arith) in
      (
        x ∷ lower,
        upper,
        ap (λ t. x ∷ t) e,
        omega (arith, n),
        (get_or-All (λ y. above x y ≡ false) xs i d h (omega arith), before),
        behind,
      )

  rank_wraps : (r : ℕ) → 0 < r → r ≤ 1000 → (r + (u64 - 1)) % u64 ≡ r - 1
  rank_wraps r h k = omega arith

  -- A percentile of the samples stands in the place of its rank, and what holds of all samples holds of
  -- it.
  get_percentile-IsRanked :
      (sort : List Number → List Number) (rank : ℕ → ℕ)
      → ((xs : List Number) → length (sort xs) ≡ length xs)
      → ((P : Number → Type 0) (xs : List Number) → All P xs → All P (sort xs))
      → ((xs : List Number) → IsSorted (sort xs))
      → ((n : ℕ) → 0 < n → (0 < rank n) × (rank n ≤ n))
      → (P : Number → Type 0) (samples : List Number) → 0 < length samples
      → length samples ≤ max_samples
      → All P samples
      → IsRanked (sort samples) (rank (length samples)) (get_percentile sort rank nought samples)
        × P (get_percentile sort rank nought samples)
  unfolding get_percentile
  get_percentile-IsRanked sort rank same kept ordered ranked P [] some_sample few h =
      absurd (omega arith)
  get_percentile-IsRanked sort rank same kept ordered ranked P (x ∷ samples) some_sample few h =
      let n = length (sort (x ∷ samples)) in
      let size : n ≡ length (x ∷ samples) = same (x ∷ samples) in
      let (low, high) = ranked n (omega arith) in
      let wrapped = rank_wraps (rank n) low (omega arith) in
      let place : min ((rank n + (u64 - 1)) % u64) (n - 1) ≡ rank n - 1 = omega arith in
      let number : rank n - 1 + 1 ≡ rank (length (x ∷ samples)) =
        omega (arith, ap (λ k. rank k) size) in
      let there =
        get_or-IsRanked (sort (x ∷ samples)) (rank n - 1) nought (ordered _) (omega arith) in
      rw place (
        rw number at there,
        get_or-All P (sort (x ∷ samples)) (rank n - 1) nought (kept P (x ∷ samples) h)
            (omega arith),
      )

  -- No measurement is above the maximum.
  max_highest :
      IsOrder above
      → (before : List (ℕ × Number))
      → All (λ (m : ℕ × Number). above m.1 (measured before).max ≡ false) before
  unfolding record_latency
  max_highest order [] = tt
  max_highest order ((drawn, latency) ∷ before) =
      let all = (drawn, latency) ∷ before in
      let old = (measured before).max in
      let not_above : Number → ℕ × Number → Type 0 = λ top m. above m.1 top ≡ false in
      elim (Bool-cases (above latency old)) [
        | inr e ↦
            let same : (measured all).max ≡ old = rw e refl in
            All-map_of (not_above old) (not_above (measured all).max)
              (λ m h. ap (above m.1) same ∙ h) all (e, max_highest order before)
        | inl e ↦
            let same : (measured all).max ≡ latency = rw e refl in
            All-map_of (not_above latency) (not_above (measured all).max)
              (λ m h. ap (above m.1) same ∙ h) all
              (
                order.not_itself latency,
                All-map_of (not_above old) (not_above latency)
                    (λ m h. order.not_above m.1 old latency h (order.one_way latency old e)) before
                    (max_highest order before),
              )
      ]

  -- After one or more measurements, whatever is drawn: as many samples are kept as there were
  -- measurements, up to 1000, and each of them was measured; no measurement is above the maximum, which
  -- was measured unless it is the value of the start; and a percentile was measured and stands, in the
  -- sorted samples, in the place of its rank counted from 1, with nothing above it before that place
  -- and nothing below it behind. `>` is an order, sorting keeps the number of the samples and what holds
  -- of them all and leaves no number above a later one, and the rank is between 1 and the number of the
  -- samples.
  pub samples_kept :
      IsOrder above
      → (sort : List Number → List Number) (rank : ℕ → ℕ)
      → ((xs : List Number) → length (sort xs) ≡ length xs)
      → ((P : Number → Type 0) (xs : List Number) → All P xs → All P (sort xs))
      → ((xs : List Number) → IsSorted (sort xs))
      → ((n : ℕ) → 0 < n → (0 < rank n) × (rank n ≤ n))
      → (last : ℕ × Number) (before : List (ℕ × Number))
      → let all = last ∷ before in
        let stats = measured all in
        let p = get_percentile sort rank nought stats.samples in
        (length stats.samples ≡ min (length all) max_samples)
        × All (Measured all) stats.samples
        × All (λ (m : ℕ × Number). above m.1 stats.max ≡ false) all
        × ((stats.max ≡ nought) ⊎ Measured all stats.max)
        × IsRanked (sort stats.samples) (rank (length stats.samples)) p
        × Measured all p
  samples_kept order sort rank same kept ordered ranked last before =
      let all = last ∷ before in
      let size = samples_count all in
      let (place, known) =
        get_percentile-IsRanked sort rank same kept ordered ranked (Measured all)
          (measured all).samples (omega (arith, size)) (omega (arith, size))
          (samples_measured all) in
      (size, samples_measured all, max_highest order all, max_measured all, place, known)
