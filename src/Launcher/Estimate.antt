-- ===== src/Launcher/Estimate.antt =====
-- runner/src/launcher.rs: the estimate of a task's running time.
use qscheduler.Base.{
  ℕ, ◌+◌, ◌-◌, ◌≤◌, ◌≡◌, true, Bool, Option, List, [], ◌∷◌, max, leb, refl, arith,
}
use qscheduler.Launcher.{RunningTask}

unfoldable pub new : ℕ → ℕ → ℕ → Option ℕ → RunningTask
new now elapsed time_limit project_id = record {
  elapsed = elapsed;
  elapsed_at = now;
  time_limit = time_limit;
  project_id = project_id;
  charged = 0;
}

unfoldable pub elapsed : ℕ → RunningTask → ℕ
elapsed now rt = rt.elapsed + (now - rt.elapsed_at)

unfoldable pub raise_elapsed : ℕ → RunningTask → ℕ → RunningTask
raise_elapsed now rt bound = record rt { elapsed = max (elapsed now rt) bound; elapsed_at = now }

unfoldable pub is_over_time_limit : ℕ → RunningTask → Bool
is_over_time_limit now rt = leb rt.time_limit (elapsed now rt)

-- The signed differences of the source are cut off at 0 only at its end, as here.
unfoldable pub elapsed_since_backend_start : ℕ → ℕ → ℕ → ℕ
elapsed_since_backend_start utc started_at max_clock_skew = utc - (started_at + max_clock_skew)

-- Reports of a running task: when each comes in, and its lower bound of the running time.
unfoldable pub raise_all : RunningTask → List (ℕ × ℕ) → RunningTask
raise_all rt [] = rt
raise_all rt ((now, bound) ∷ reports) = raise_all (raise_elapsed now rt bound) reports

-- Each report comes no earlier than the one before, and bounds the time since `start`.
abbrev pub AreBounds : ℕ → ℕ → List (ℕ × ℕ) → Type 0
AreBounds start last [] = Unit
AreBounds start last ((now, bound) ∷ reports) =
    (last ≤ now) × (start + bound ≤ now) × AreBounds start now reports

raise_all-le :
    (start last now : ℕ) (rt : RunningTask) (reports : List (ℕ × ℕ))
    → rt.elapsed_at ≤ last
    → start + rt.elapsed ≤ rt.elapsed_at
    → AreBounds start last reports
    → (raise_all rt reports).elapsed_at ≤ now
    → (start + elapsed now (raise_all rt reports) ≤ now)
      × ((raise_all rt reports).time_limit ≡ rt.time_limit)
unfolding raise_all raise_elapsed elapsed
raise_all-le start last now rt [] before low _ past = (omega arith, refl)
raise_all-le start last now rt ((at, bound) ∷ reports) before low (late, bounds, rest) past =
    raise_all-le start at now (raise_elapsed at rt bound) reports (omega arith) (omega arith) rest
      past

-- The start that the backend reports, when its clock lags by at most the configured skew.
pub elapsed_since_backend_start-le :
    (utc started_at max_clock_skew start : ℕ)
    → start ≤ started_at + max_clock_skew
    → start ≤ utc
    → start + elapsed_since_backend_start utc started_at max_clock_skew ≤ utc
unfolding elapsed_since_backend_start
elapsed_since_backend_start-le utc started_at max_clock_skew start lag past = omega arith

-- A task is never taken to be over its time limit early: if its first report and all later ones
-- are lower bounds of the time since `start`, and come in order, then the limit has passed since
-- `start` when the estimate reaches it.
pub is_over_time_limit_sound :
    (start first now bound time_limit : ℕ) (project_id : Option ℕ) (reports : List (ℕ × ℕ))
    → start + bound ≤ first
    → AreBounds start first reports
    → (raise_all (new first bound time_limit project_id) reports).elapsed_at ≤ now
    → is_over_time_limit now (raise_all (new first bound time_limit project_id) reports) ≡ true
    → start + time_limit ≤ now
unfolding is_over_time_limit new
is_over_time_limit_sound start first now bound time_limit project_id reports low bounds past over =
    let (le, same) =
      raise_all-le start first now (new first bound time_limit project_id) reports (omega arith) low
        bounds past in
    ground (arith, le, same)
