-- ===== src/Strings/RequestId.antt =====
-- When two requests get the same identifier.
use computer_network_lab.Prelude.{
  ℕ, zero, suc, ◌+◌, ◌*◌, ◌%◌, ◌/◌, ◌^◌, ◌<◌, ◌≡◌, refl, ap, [], ◌∷◌, ◌++◌, arith, Bytes,
}
use native.Mathlib.Nat.{pow-suc}
use computer_network_lab.Strings.{hex_digit, hex_digits, generate_request_id}

hex_digit-injective : (m n : ℕ) → m < 16 → n < 16 → hex_digit m ≡ hex_digit n → m ≡ n
unfolding hex_digit
hex_digit-injective m n h k e = ground arith

snoc-injective : (xs ys : Bytes) (x y : ℕ) → xs ++ x ∷ [] ≡ ys ++ y ∷ [] → (xs ≡ ys) × (x ≡ y)
snoc-injective [] [] x y e = (refl, cc)
snoc-injective [] (b ∷ []) x y e = cc
snoc-injective [] (b ∷ c ∷ ys) x y e = cc
snoc-injective (a ∷ []) [] x y e = cc
snoc-injective (a ∷ c ∷ xs) [] x y e = cc
snoc-injective (a ∷ xs) (b ∷ ys) x y e =
    let head : a ≡ b = cc in
    let rest : xs ++ x ∷ [] ≡ ys ++ y ∷ [] = cc in
    let (h, k) = snoc-injective xs ys x y rest in (rw head (ap (λ t. b ∷ t) h), k)

hex_digits-injective :
    (width m n : ℕ)
    → m < 16 ^ width
    → n < 16 ^ width
    → hex_digits width m ≡ hex_digits width n
    → m ≡ n
unfolding hex_digits
hex_digits-injective zero m n h k e = omega arith
hex_digits-injective (suc width) m n h k e =
    let (front, last) = snoc-injective _ _ _ _ e in
    let low : m % 16 ≡ n % 16 =
      hex_digit-injective (m % 16) (n % 16) (omega arith) (omega arith) last in
    let power : 16 ^ suc width ≡ 16 ^ width * 16 = pow-suc 16 width in
    let m_fits : m / 16 < 16 ^ width = omega (arith, h, power) in
    let n_fits : n / 16 < 16 ^ width = omega (arith, k, power) in
    let high : m / 16 ≡ n / 16 = hex_digits-injective width (m / 16) (n / 16) m_fits n_fits front in
    omega (arith, low, high)

-- Two requests get the same identifier of eight digits only if the numbers of the requests agree
-- modulo 65536 and the milliseconds at which they came do.
pub generate_request_id-injective :
    (ms ms' counter counter' : ℕ)
    → generate_request_id ms counter ≡ generate_request_id ms' counter'
    → (ms % 65536 ≡ ms' % 65536) × (counter % 65536 ≡ counter' % 65536)
unfolding generate_request_id
generate_request_id-injective ms ms' counter counter' e =
    let same : ms % 65536 * 65536 + counter % 65536 ≡ ms' % 65536 * 65536 + counter' % 65536 =
      hex_digits-injective 8 (ms % 65536 * 65536 + counter % 65536)
        (ms' % 65536 * 65536 + counter' % 65536) (omega arith) (omega arith) e in
    (omega (arith, same), omega (arith, same))
