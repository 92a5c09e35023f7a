-- ===== src/Client/Schedules.antt =====
-- The schedules of scheduler.go, whose operations are placeholders.
use rivo.Prelude.{ℕ, String, Bool, Option, List}
use rivo.Base.{Any, not_implemented}
use rivo.Store.{Time, M, throw}

pub record ScheduleParams : Type 0 where
  pub name : String
  pub kind : String
  pub cron_expr : String
  pub queue : String
  pub payload : Option Any
  pub timezone : String
  pub enabled : Bool

pub record PeriodicJob : Type 0 where
  pub id : ℕ
  pub name : String
  pub namespace : String
  pub kind : String
  pub queue : String
  pub cron_expr : String
  pub timezone : String
  pub enabled : Bool
  pub last_run_at : Option Time
  pub next_run_at : Time
  pub created_at : Time
  pub updated_at : Time

unfoldable pub schedule : ScheduleParams → M PeriodicJob
schedule params = throw not_implemented

unfoldable pub unschedule : (name : String) → M (Unit {0})
unschedule name = throw not_implemented

unfoldable pub get_schedule : (name : String) → M PeriodicJob
get_schedule name = throw not_implemented

unfoldable pub list_schedules : M (List PeriodicJob)
list_schedules = throw not_implemented
