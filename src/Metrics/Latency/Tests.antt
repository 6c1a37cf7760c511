-- ===== src/Metrics/Latency/Tests.antt =====
-- Latencies in whole milliseconds.
use computer_network_lab.Prelude.{
  ℕ, ◌+◌, ◌/◌, ◌≡◌, ◌⊎◌, inl, inr, refl, Bool, false, Bool-cases, List, [], ◌∷◌, ltb, length, min,
  All, All-map_of, arith, if◌then◌else◌,
}
use computer_network_lab.Metrics.Latency.{max_samples, add_sample, record_latency, get_percentile}
use computer_network_lab.Metrics.Latency.Samples.{
  IsOrder, measured, Measured, IsSorted, IsRanked, samples_kept,
}

abbrev above : ℕ → ℕ → Bool
above x y = ltb y x

abbrev plus : ℕ → ℕ → ℕ
plus x y = x + y

-- Three measurements, of which the middle one is the longest.
abbrev three : List (ℕ × ℕ)
three = (0, 7) ∷ (0, 9) ∷ (0, 4) ∷ []

above-IsOrder : IsOrder above
above-IsOrder = record {
  not_itself = λ x. ground arith;
  one_way = λ x y h. ground arith;
  not_above = λ x y z h k. ground arith;
}

-- A sort by insertion.
insert : ℕ → List ℕ → List ℕ
insert x [] = x ∷ []
insert x (y ∷ ys) = let rest = insert x ys in if above x y then y ∷ rest else x ∷ y ∷ ys

sorted : List ℕ → List ℕ
sorted [] = []
sorted (x ∷ xs) = insert x (sorted xs)

length-insert : (x : ℕ) (ys : List ℕ) → length (insert x ys) ≡ 1 + length ys
unfolding insert
length-insert x [] = refl
length-insert x (y ∷ ys) = ground (arith, length-insert x ys)

length-sorted : (xs : List ℕ) → length (sorted xs) ≡ length xs
unfolding sorted
length-sorted [] = refl
length-sorted (x ∷ xs) = omega (arith, length-insert x (sorted xs), length-sorted xs)

insert-All : (P : ℕ → Type 0) (x : ℕ) (ys : List ℕ) → P x → All P ys → All P (insert x ys)
unfolding insert
insert-All P x [] h k = (h, tt)
insert-All P x (y ∷ ys) h (j, k) = elim (Bool-cases (above x y)) [
  | inl e ↦ rw e (j, insert-All P x ys h k)
  | inr e ↦ rw e (h, (j, k))
]

sorted-All : (P : ℕ → Type 0) (xs : List ℕ) → All P xs → All P (sorted xs)
unfolding sorted
sorted-All P [] h = tt
sorted-All P (x ∷ xs) (h, k) = insert-All P x (sorted xs) h (sorted-All P xs k)

insert-IsSorted :
    (x : ℕ) (ys : List ℕ) → IsSorted plus above 0 ys → IsSorted plus above 0 (insert x ys)
unfolding insert
insert-IsSorted x [] h = (tt, tt)
insert-IsSorted x (y ∷ ys) (h, k) = elim (Bool-cases (above x y)) [
  | inl e ↦ rw e (
    insert-All (λ z. above y z ≡ false) x ys (above-IsOrder.one_way x y e) h,
    insert-IsSorted x ys k,
  )
  | inr e ↦ rw e (
    (
      e,
      All-map_of (λ z. above y z ≡ false) (λ z. above x z ≡ false)
          (λ z j. above-IsOrder.not_above x y z e j) ys h,
    ),
    (h, k),
  )
]

sorted-IsSorted : (xs : List ℕ) → IsSorted plus above 0 (sorted xs)
unfolding sorted
sorted-IsSorted [] = tt
sorted-IsSorted (x ∷ xs) = insert-IsSorted x (sorted xs) (sorted-IsSorted xs)

-- The 50th percentile is of rank `ceil(n / 2)`.
abbrev half : ℕ → ℕ
half n = (n + 1) / 2

samples_kept_example :
    let stats = measured plus above 0 three in
    let p = get_percentile sorted half 0 stats.samples in
    (length stats.samples ≡ min 3 max_samples)
    × All (Measured plus above 0 three) stats.samples
    × All (λ (m : ℕ × ℕ). above m.1 stats.max ≡ false) three
    × ((stats.max ≡ 0) ⊎ Measured plus above 0 three stats.max)
    × IsRanked plus above 0 (sorted stats.samples) (half (length stats.samples)) p
    × Measured plus above 0 three p
samples_kept_example =
    samples_kept plus above 0 above-IsOrder sorted half length-sorted sorted-All sorted-IsSorted
      (λ n h. (omega arith, omega arith)) (0, 7) ((0, 9) ∷ (0, 4) ∷ [])

median : get_percentile sorted half 0 (measured plus above 0 three).samples ≡ 7
unfolding record_latency add_sample get_percentile insert sorted
median = refl

maximum : ((measured plus above 0 three).max ≡ 9) × ((measured plus above 0 three).sum ≡ 20)
unfolding record_latency
maximum = (refl, refl)
