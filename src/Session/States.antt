-- ===== src/Session/States.antt =====
-- `Session::close` (runner/src/session.rs), and what a session counts for with its owner.
use qscheduler.Base.{
  ℕ, ◌+◌, ◌<◌, ◌≡◌, refl, Option, none, some, Bool, true, false, if◌then◌else◌, arith,
}
use qscheduler.User.{UserMap, u32_mod, session_deactivated}
use qscheduler.User.Counts.{items_of, bytes_of, at, item_deactivated-Added}
use qscheduler.Session.{
  Session, SessionState, waiting, open_since, closed, close_state, close, is_closed,
}

-- What a session counts for in the counters of the user `u`.
unfoldable pub item_weight : ℕ → Session → ℕ
item_weight u s = if is_closed s.state then 0 else at s.config.owner_id u 1

-- When the session opened, if it did.
unfoldable pub opening : SessionState → Option ℕ
opening waiting = none
opening (open_since t) = some t
opening (closed o _) = o

abbrev pub is_set : Option ℕ → Bool
is_set none = false
is_set (some _) = true

-- The time of the end is recorded exactly for closed sessions.
abbrev pub IsSettled : Session → Type 0
IsSettled s = is_set s.closed_on ≡ is_closed s.state

close_state_lem :
    (s : SessionState) (closed_at : ℕ)
    → is_closed s ≡ false
    → close_state s closed_at ≡ some (closed (opening s) closed_at)
unfolding close_state is_closed opening
close_state_lem waiting c h = refl
close_state_lem (open_since _) c h = refl
close_state_lem (closed _ _) c h = cc

-- The owner's counter goes from `m` to `m'` as the session goes from `s` to `s'`.
pub record Follows (m m' : UserMap) (s s' : Session) : Type 0 where
  pub items : (u : ℕ) → items_of m' u + item_weight u s ≡ items_of m u + item_weight u s'
  pub bytes : (u : ℕ) → bytes_of m' u ≡ bytes_of m u
  pub settled : IsSettled s'
  pub same_id : s'.id ≡ s.id

-- Closing succeeds for a session that is not closed and that its owner's counter counts.
pub close-Follows :
    (now closed_at : ℕ) (s : Session) (m : UserMap)
    → is_closed s.state ≡ false
    → 0 < items_of m s.config.owner_id
    → items_of m s.config.owner_id < u32_mod
    → (s' : Session) × (m' : UserMap) × (close now s closed_at m ≡ some (s', m'))
      × (s'.state ≡ closed (opening s.state) closed_at)
      × Follows m m' s s'
unfolding close item_weight session_deactivated is_closed
close-Follows now closed_at s m unclosed hi fi =
    let (m', e, back) = item_deactivated-Added now m s.config.owner_id hi fi in
    (
      record s { state = closed (opening s.state) closed_at; closed_on = some now },
      m',
      rw (close_state_lem s.state closed_at unclosed, e),
      refl,
      record {
        items = λ u. ground (arith, back.items u);
        bytes = λ u. ground (arith, back.bytes u);
        settled = refl;
        same_id = refl;
      },
    )
