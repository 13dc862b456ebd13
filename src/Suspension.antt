-- ===== src/Suspension.antt =====
-- runner/src/suspension.rs: a suspension of a machine, and what it does to existing work.
pub mod Texts
use qscheduler.Base.{ℕ, String, Option, if◌then◌else◌, str_eq}
use qscheduler.Error.{Result, ok, err, generic_error, invalid_suspend_cancel}

pub data SuspendCancel : Type 0 where
  none waiting all : SuspendCancel

pub record Suspension : Type 0 where
  pub message : String
  pub cancel : SuspendCancel
  pub suspended_at : ℕ
  pub resumed_at : Option ℕ

-- The texts of the database.
unfoldable pub as_db_str : SuspendCancel → String
as_db_str none = "none"
as_db_str waiting = "waiting"
as_db_str all = "all"

unfoldable pub from_db_str : String → Result SuspendCancel
from_db_str s =
    if str_eq s "none"
    then ok none
    else if str_eq s "waiting"
    then ok waiting
    else if str_eq s "all"
    then ok all
    else err (generic_error (invalid_suspend_cancel s))
