-- ===== src/Callback/Worker.antt =====
-- The delivery of events to a notifier (runner/src/callback.rs).
use Prim.Native.Nat.{◌^◌}
use qscheduler.Base.{
  ℕ, zero, suc, ◌+◌, ◌-◌, ◌*◌, ◌≡◌, refl, inl, inr, Bool, some, List, [], ◌∷◌, map, min, ltb,
  if◌then◌else◌, Bool-cases, arith,
}
use qscheduler.Callback.{Delivery, deliver, notify_worker, max_notify_fails, first_delay, max_delay}

-- How many of `n` attempts from the `i`-th on fail before one succeeds.
unfoldable pub leading_failures : (ℕ → Bool) → ℕ → ℕ → ℕ
leading_failures answers i zero = 0
leading_failures answers i (suc n) =
    if answers i then 0 else suc (leading_failures answers (suc i) n)

-- The delay after the `i`-th failure doubles each time, as far as 30 seconds.
abbrev pub delay_after : ℕ → ℕ
delay_after i = min (first_delay * 2 ^ i) max_delay

unfoldable pub delays_from : ℕ → ℕ → List ℕ
delays_from i zero = []
delays_from i (suc n) = delay_after i ∷ delays_from (suc i) n

abbrev pub outcome : (ℕ → Bool) → ℕ → ℕ → Delivery
outcome answers i n = record {
  delivered = ltb (leading_failures answers i n) n;
  delays = delays_from i (min (leading_failures answers i n) (n - 1));
}

deliver-outcome :
    (n : ℕ) (answers : ℕ → Bool) (i : ℕ)
    → i + suc n ≡ max_notify_fails
    → deliver (suc n) answers i (delay_after i) ≡ some (outcome answers i (suc n))
unfolding deliver leading_failures delays_from
deliver-outcome zero answers i last = elim (Bool-cases (answers i)) [
  | inl yes_now ↦ ground (arith, yes_now)
  | inr not_now ↦ ground (arith, not_now)
]
deliver-outcome (suc n) answers i more =
    let next : min (delay_after i * 2) max_delay ≡ delay_after (suc i) = omega arith in
    let rest = deliver-outcome n answers (suc i) (omega arith) in
    elim (Bool-cases (answers i)) [
      | inl yes_now ↦ ground (arith, yes_now)
      | inr not_now ↦ ground (arith, not_now, next, rest, more)
    ]

-- Whatever the notifier answers, delivering a list of events ends, with each event in its turn: it
-- is attempted until the first success, and discarded after 16 failures; the delays between the
-- attempts are 100 ms, doubled after each failure, as far as 30 seconds.
pub notify_worker_ends :
    {E : Type 0} (answers : E → ℕ → Bool) (events : List E)
    → notify_worker answers events
      ≡ some (map (λ event. outcome (answers event) 0 max_notify_fails) events)
unfolding notify_worker
notify_worker_ends answers [] = refl
notify_worker_ends answers (event ∷ events) =
    rw (deliver-outcome 15 (answers event) 0 refl, notify_worker_ends answers events) refl
