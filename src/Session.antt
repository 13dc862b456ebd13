-- ===== src/Session.antt =====
-- runner/src/session.rs: sessions and the map of those in memory. Times of day are in nanoseconds;
-- the monotonic clock is the argument `now`. `none` is a panic.
pub mod States
use qscheduler.Base.{
  ℕ, ◌-◌, String, Bool, true, false, Option, none, some, Map, length, get, insert, retain, ltb,
  ◌>>=◌, nat_key,
}
use qscheduler.User.{UserMap, insert_user, session_deactivated}

pub data SessionState : Type 0 where
  waiting : SessionState
  open_since : ℕ → SessionState
  closed : Option ℕ → ℕ → SessionState

-- `SessionState::close`; a closed session is `unreachable`.
unfoldable pub close_state : SessionState → ℕ → Option SessionState
close_state waiting closed_at = some (closed none closed_at)
close_state (open_since opened_at) closed_at = some (closed (some opened_at) closed_at)
close_state (closed _ _) closed_at = none

pub record SessionConfig : Type 0 where
  pub machine_id : ℕ
  pub project_id : ℕ
  pub owner_id : ℕ
  pub time_limit : ℕ
  pub notifier : Option ℕ

pub record Session : Type 0 where
  pub id : ℕ
  pub state : SessionState
  pub consumed : ℕ
  pub created_at : ℕ
  pub closed_on : Option ℕ
  pub config : SessionConfig

unfoldable pub new : ℕ → ℕ → SessionConfig → Session
new id created_at config = record {
  id = id;
  state = waiting;
  consumed = 0;
  created_at = created_at;
  closed_on = none;
  config = config;
}

unfoldable pub close : ℕ → Session → ℕ → UserMap → Option (Session × UserMap)
close now s closed_at user_map = do
  state ← close_state s.state closed_at
  user_map' ← session_deactivated now user_map s.config.owner_id
  some (record s { state = state; closed_on = some now }, user_map')

unfoldable pub set_restored_closed : ℕ → Session → ℕ → ℕ → String → UserMap → Session × UserMap
set_restored_closed now s opened_at closed_at owner_name user_map = (
  record s { state = closed (some opened_at) closed_at; closed_on = some now },
  insert_user now user_map s.config.owner_id owner_name,
)

unfoldable pub is_closed : SessionState → Bool
is_closed waiting = false
is_closed (open_since _) = false
is_closed (closed _ _) = true

abbrev pub SessionMap : Type 0
SessionMap = Map ℕ Session

unfoldable pub insert_session : SessionMap → Session → SessionMap
insert_session m s = insert s.id s m

-- Kept until it has been closed for `retention`.
unfoldable pub is_recent : ℕ → ℕ → Option ℕ → Bool
is_recent now retention none = true
is_recent now retention (some ended) = ltb (now - ended) retention

unfoldable pub evict_closed : ℕ → ℕ → SessionMap → SessionMap × ℕ
evict_closed now retention m =
    let kept = retain (λ s. is_recent now retention s.closed_on) m in (kept, length m - length kept)
