-- ===== src/Health.antt =====
-- internal/platform/health/service.go: the reports that say whether the service can do its work.
pub mod Reports
mod Examples
use ai_workflow.Base.{ℕ, String, Bool, true, false, Option, none, some, List, [], ◌∷◌, ◌++◌}

pub record CheckResult : Type 0 where
  pub name : String
  pub status : String
  pub duration_ms : ℕ
  pub error : String

pub record Report : Type 0 where
  pub service : String
  pub status : String
  pub timestamp : ℕ
  pub checks : List CheckResult

-- A checker with what its `Check` does when it is called: the error, and how long it takes.
pub record Checker : Type 0 where
  pub name : String
  pub outcome : Option String
  pub duration_ms : ℕ

pub record Service : Type 0 where
  pub service_name : String
  pub checkers : List Checker

abbrev pub status_live : String
status_live = "ok"

abbrev pub status_ready : String
status_ready = "ready"

abbrev pub status_not_ready : String
status_not_ready = "not_ready"

unfoldable pub live_report : Service → ℕ → Report
live_report s now = record {
  service = s.service_name;
  status = status_live;
  timestamp = now;
  checks = [];
}

abbrev pub result_of : Checker → Option String → CheckResult
result_of c none = record {
  name = c.name;
  status = status_ready;
  duration_ms = c.duration_ms;
  error = "";
}
result_of c (some e) = record {
  name = c.name;
  status = status_not_ready;
  duration_ms = c.duration_ms;
  error = e;
}

-- What a check changes in the report and in `ready`, before its result is appended.
abbrev pub noted : Option String → Report × Bool → Report × Bool
noted none (report, ready) = (report, ready)
noted (some e) (report, ready) = (record report { status = status_not_ready }, false)

abbrev pub appended : CheckResult → Report × Bool → Report × Bool
appended result (report, ready) = (record report { checks = report.checks ++ result ∷ [] }, ready)

-- The loop of `ReadyReport`.
unfoldable pub check_all : List Checker → Report × Bool → Report × Bool
check_all [] state = state
check_all (c ∷ checkers) state =
    check_all checkers (appended (result_of c c.outcome) (noted c.outcome state))

unfoldable pub ready_report : Service → ℕ → Report × Bool
unfolding check_all
ready_report s now =
    check_all s.checkers (
      record { service = s.service_name; status = status_ready; timestamp = now; checks = [] },
      true,
    )
