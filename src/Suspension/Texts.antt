-- ===== src/Suspension/Texts.antt =====
-- The texts of a suspension policy in the database (runner/src/suspension.rs).
use qscheduler.Base.{String, ◌≡◌, refl, inl, inr, ◌↔◌, str_eq, eq_iff, Bool-cases, arith}
use qscheduler.Error.{ok}
use qscheduler.Suspension.{SuspendCancel, none, waiting, all, as_db_str, from_db_str}

from_db_str-as_db_str : (cancel : SuspendCancel) → from_db_str (as_db_str cancel) ≡ ok cancel
unfolding from_db_str as_db_str
from_db_str-as_db_str none = refl
from_db_str-as_db_str waiting = refl
from_db_str-as_db_str all = refl

from_db_str_exact :
    (s : String) (cancel : SuspendCancel) → from_db_str s ≡ ok cancel → s ≡ as_db_str cancel
unfolding from_db_str as_db_str
from_db_str_exact s cancel h = elim (Bool-cases (str_eq s "none")) [
  | inl a ↦ ground (arith, eq_iff s "none")
  | inr b ↦ elim (Bool-cases (str_eq s "waiting")) [
    | inl a ↦ ground (arith, eq_iff s "waiting")
    | inr c ↦ elim (Bool-cases (str_eq s "all")) [
      | inl a ↦ ground (arith, eq_iff s "all")
      | inr d ↦ absurd (ground arith)
    ]
  ]
]

-- The texts are read back as the policies they were written for, and no other text is read.
from_db_str_iff :
    (s : String) (cancel : SuspendCancel) → (from_db_str s ≡ ok cancel) ↔ (s ≡ as_db_str cancel)
from_db_str_iff s cancel =
    (λ h. from_db_str_exact s cancel h, λ e. rw e (from_db_str-as_db_str cancel))
