-- ===== src/Errors/Codes.antt =====
-- A number on the wire is sent on as it was read, and 0 is success.
use computer_network_lab.Prelude.{ℕ, ◌≡◌, ◌↔◌, true, arith}
use computer_network_lab.Errors.{to_network_error, from_network_error, is_success}

-- Any number that arrives is sent on unchanged.
pub to_network_error-from_network_error : (n : ℕ) → to_network_error (from_network_error n) ≡ n
unfolding to_network_error from_network_error
to_network_error-from_network_error n = ground arith

-- Success is exactly the number 0 on the wire.
pub is_success-from_network_error : (n : ℕ) → (is_success (from_network_error n) ≡ true) ↔ (n ≡ 0)
unfolding is_success from_network_error
is_success-from_network_error n = (λ h. ground arith, λ h. ground arith)
