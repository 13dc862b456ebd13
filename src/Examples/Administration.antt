-- ===== src/Examples/Administration.antt =====
-- Notifiers and machines are added, changed and removed.
use qscheduler.Base.{ℕ, refl, none, [], ◌∷◌, get, nat_key, string_key, arith}
use qscheduler.Machine.{Machine}
use qscheduler.Core.{Core}
use qscheduler.Db.{Db, served}
use qscheduler.Reactor.Notifiers.{Request, adding, handle}
use qscheduler.Reactor.Notifiers.Registered.{IsRegistered}
use qscheduler.Reactor.Notifiers.Handled.{Outcome, handle-IsRegistered}
use qscheduler.Reactor.Machines.{Service, Others}
use qscheduler.Reactor.Machines.Removal.{Removal}
use qscheduler.Examples.Data.{whole, idle_core}
use qscheduler.Examples.Restarts.{loaded}
use qscheduler.Examples.Requests.{stored}
use qscheduler.Examples.Stored.{nobody}

nobody-IsRegistered : IsRegistered nobody stored
unfolding get
nobody-IsRegistered = record {
  by_name = λ name. refl;
  loaded = λ name id found. absurd (ground (arith, found));
  listed = λ id n found. absurd (ground (arith, found));
  below = λ name row found. absurd (ground (arith, found));
}

abbrev hook : Request
hook = adding (record { name = "hook"; url = "https://h"; token = none })

handle-IsRegistered_example : Outcome nobody stored hook (handle served nobody stored hook)
handle-IsRegistered_example = handle-IsRegistered nobody stored nobody-IsRegistered served hook

abbrev idle : Service ℕ
idle = record { core = idle_core; launchers = (1, []) ∷ [] }

-- Nobody else does anything.
abbrev quiet : Service ℕ → Service ℕ
quiet s = s

abbrev others : Others ℕ
others = record { at_statement = quiet; at_stop = quiet; loading = quiet; writing = quiet }
