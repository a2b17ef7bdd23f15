-- ===== src/Plan/Backoff.antt =====
-- `retryBackoff` (internal/planner/executor.go:247-254).
use native.Mathlib.Nat.{pow-suc}
use sei_k8s_controller.Prelude.{ℕ, zero, suc, ◌*◌, ◌^◌, ◌≤◌, min, ◌≡◌, refl, arith}
use sei_k8s_controller.Plan.Executor.{task_poll_interval, max_retry_backoff, retry_backoff}

pow_pos : (n : ℕ) → 1 ≤ 2 ^ n
pow_pos zero = omega arith
pow_pos (suc n) = rw pow-suc (omega (arith, pow_pos n))

above_cap : (n : ℕ) → max_retry_backoff ≤ task_poll_interval * 2 ^ suc (suc (suc (suc (suc n))))
above_cap n = simp pow-suc (omega (arith, pow_pos n))

clamp : (n : ℕ) → min (suc (suc (suc (suc (suc n))))) 5 ≡ 5
clamp n = omega arith

-- The backoff is five seconds doubled at each attempt and capped at thirty seconds: the clamp of
-- the shift at five changes no delay.
pub retry_backoff_lem :
    (n : ℕ) → retry_backoff n ≡ min (task_poll_interval * 2 ^ n) max_retry_backoff
unfolding retry_backoff
retry_backoff_lem zero = refl
retry_backoff_lem (suc zero) = refl
retry_backoff_lem (suc (suc zero)) = refl
retry_backoff_lem (suc (suc (suc zero))) = refl
retry_backoff_lem (suc (suc (suc (suc zero)))) = refl
retry_backoff_lem (suc (suc (suc (suc (suc n))))) = rw (clamp n) (omega (arith, above_cap n))

-- Every delay lies between the poll interval and the cap.
pub retry_backoff_bounds :
    (n : ℕ) → (task_poll_interval ≤ retry_backoff n) × (retry_backoff n ≤ max_retry_backoff)
retry_backoff_bounds n = rw (retry_backoff_lem n) (omega (arith, pow_pos n), omega arith)
