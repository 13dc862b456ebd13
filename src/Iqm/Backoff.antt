-- ===== src/Iqm/Backoff.antt =====
-- The delay of the next poll of a job (runner/src/backend_iqm.rs).
use qscheduler.Base.{ℕ, zero, suc, ◌-◌, ◌*◌, ◌≤◌, ◌≡◌, min, arith}
use Prim.Native.Nat.{◌^◌}
use qscheduler.Iqm.{poll_backoff, max_poll_backoff}

pow_pos : (n : ℕ) → 1 ≤ 2 ^ n
pow_pos zero = omega arith
pow_pos (suc n) = omega (arith, pow_pos n)

pow_mono : (m n : ℕ) → m ≤ n → 2 ^ m ≤ 2 ^ n
pow_mono zero n h = pow_pos n
pow_mono (suc m) zero h = absurd (omega arith)
pow_mono (suc m) (suc n) h = omega (arith, pow_mono m n (omega arith))

mul_pow_mono : (p m n : ℕ) → m ≤ n → (p ≤ p * 2 ^ m) × (p * 2 ^ m ≤ p * 2 ^ n)
mul_pow_mono zero m n h = (omega arith, omega arith)
mul_pow_mono (suc p) m n h =
    let (a, b) = mul_pow_mono p m n h in (grind (arith, pow_pos m), grind (arith, pow_mono m n h))

-- The delay of the next poll is at least the poll interval, or a minute if that is less, and at
-- most a minute; it does not fall with further failures, and it is the interval doubled for each
-- further failure, up to sixteen times, as far as a minute: the saturation of the duration never
-- shows.
poll_backoff_bounds :
    (poll_interval fails fails' : ℕ)
    → fails ≤ fails'
    → (min poll_interval max_poll_backoff ≤ poll_backoff poll_interval fails)
      × (poll_backoff poll_interval fails ≤ poll_backoff poll_interval fails')
      × (poll_backoff poll_interval fails' ≤ max_poll_backoff)
      × (poll_backoff poll_interval fails
          ≡ min (poll_interval * 2 ^ min (fails - 1) 16) max_poll_backoff)
unfolding poll_backoff
poll_backoff_bounds p a b h =
    let (low, mono) = mul_pow_mono p (min (a - 1) 16) (min (b - 1) 16) (omega arith) in
    (omega arith, omega arith, omega arith, omega arith)
