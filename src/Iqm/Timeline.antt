-- ===== src/Iqm/Timeline.antt =====
-- The times of a job, from the timeline of the server (runner/src/backend_iqm.rs).
use qscheduler.Base.{◌-◌, ◌≡◌, refl, Bool, false, true, some, List, [], ◌∷◌, ◌++◌, arith}
use qscheduler.Iqm.{
  TimelineEntry, JobStatusResponse, is_start, is_end, find_entry, position, get_exec_time,
  execution_started,
}

-- No entry is wanted.
abbrev pub Lacks : (TimelineEntry → Bool) → List TimelineEntry → Type 0
Lacks wanted [] = Unit
Lacks wanted (e ∷ timeline) = (wanted e ≡ false) × Lacks wanted timeline

find_entry-skip :
    (wanted : TimelineEntry → Bool) (before after : List TimelineEntry) (e : TimelineEntry)
    → Lacks wanted before
    → wanted e ≡ true
    → find_entry wanted (before ++ e ∷ after) ≡ some e
unfolding find_entry
find_entry-skip wanted [] after e lacks h = ground arith
find_entry-skip wanted (x ∷ before) after e lacks h =
    ground (arith, find_entry-skip wanted before after e lacks.1 h)

position-skip :
    (wanted : TimelineEntry → Bool) (before after : List TimelineEntry) (e : TimelineEntry)
    → Lacks wanted before
    → wanted e ≡ true
    → position wanted (before ++ e ∷ after) ≡ some (e, after)
unfolding position
position-skip wanted [] after e lacks h = ground arith
position-skip wanted (x ∷ before) after e lacks h =
    ground (arith, position-skip wanted before after e lacks.1 h)

-- The time of a job runs from the first start of its execution to the first end, by success,
-- failure or cancellation, after that; ends before the start and all entries after the end do not
-- count.
get_exec_time-first :
    (r : JobStatusResponse) (before between after : List TimelineEntry)
    (started ended : TimelineEntry)
    → r.timeline ≡ before ++ started ∷ (between ++ ended ∷ after)
    → Lacks is_start before
    → is_start started ≡ true
    → Lacks is_end between
    → is_end ended ≡ true
    → (get_exec_time r ≡ some (ended.timestamp, ended.timestamp - started.timestamp))
      × (execution_started r ≡ some started.timestamp)
unfolding get_exec_time execution_started
get_exec_time-first r before between after started ended shape none_before starts none_between
      ends =
    let rest = between ++ ended ∷ after in
    let at = position-skip is_start before rest started none_before starts in
    let found = find_entry-skip is_end between after ended none_between ends in
    let first = find_entry-skip is_start before rest started none_before starts in
    (rw (get_exec_time, shape, at, found) refl, rw (execution_started, shape, first) refl)
