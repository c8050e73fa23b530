-- ===== src/Health/Reports.antt =====
-- When internal/platform/health/service.go reports a service as ready, and how
-- internal/api/server.go answers.
use ai_workflow.Base.{
  ℕ, ◌≡◌, refl, ap, String, Bool, true, false, ◌&&◌, Option, none, some, List, [], ◌∷◌, ◌++◌, map,
  arith, if◌then◌else◌,
}
use mathlib.Core.List.{append-nil, append_assoc}
use ai_workflow.Api.{respond, health}
use ai_workflow.Api.Health.{handle_ready, report_response}
use ai_workflow.Health.{
  CheckResult, Report, Checker, Service, status_ready, status_not_ready, result_of, noted, appended,
  check_all, ready_report,
}

-- The error of no checker.
abbrev pub passes : Option String → Bool
passes none = true
passes (some e) = false

abbrev pub all_pass : List Checker → Bool
all_pass [] = true
all_pass (c ∷ checkers) = let rest = all_pass checkers in passes c.outcome && rest

abbrev pub status_text : Bool → String
status_text ready = if ready then status_ready else status_not_ready

abbrev pub results : List Checker → List CheckResult
results checkers = map (λ (c : Checker). result_of c c.outcome) checkers

reported : Report → List Checker → Bool → Report × Bool
reported report checkers ready =
    let all = ready && all_pass checkers in
    (record report { status = status_text all; checks = report.checks ++ results checkers }, all)

-- One round of the loop, when the rest of it reports what it should.
check_step :
    (c : Checker) (o : Option String) (checkers : List Checker) (report : Report) (ready : Bool)
    → ((report' : Report) (ready' : Bool)
        → report'.status ≡ status_text ready'
        → check_all checkers (report', ready') ≡ reported report' checkers ready')
    → report.status ≡ status_text ready
    → check_all checkers (appended (result_of c o) (noted o (report, ready))) ≡ (
      record report {
        status = status_text (ready && (passes o && all_pass checkers));
        checks = report.checks ++ (result_of c o ∷ results checkers);
      },
      ready && (passes o && all_pass checkers),
    )
unfolding reported
check_step c none checkers report ready rest e =
    let report' : Report = record report { checks = report.checks ++ result_of c none ∷ [] } in
    let placed = append_assoc report.checks (result_of c none ∷ []) (results checkers) in
    ground (arith, rest report' ready e, placed)
check_step c (some text) checkers report ready rest e =
    let report' : Report = record report {
      status = status_not_ready;
      checks = report.checks ++ result_of c (some text) ∷ [];
    } in
    let placed = append_assoc report.checks (result_of c (some text) ∷ []) (results checkers) in
    ground (arith, rest report' false refl, placed)

check_all_lem :
    (checkers : List Checker) (report : Report) (ready : Bool)
    → report.status ≡ status_text ready
    → check_all checkers (report, ready) ≡ reported report checkers ready
unfolding check_all reported
check_all_lem [] report ready e = ground (arith, e, append-nil report.checks)
check_all_lem (c ∷ checkers) report ready e =
    check_step c c.outcome checkers report ready (check_all_lem checkers) e

-- The answer to `GET /health/ready` has the results of all checkers in their order; its status is
-- 200 and the report says ready when no checker fails, and otherwise its status is 503 and the
-- report says not ready.
pub handle_ready_lem :
    (service : Service) (now : ℕ)
    → handle_ready service now
      ≡ respond (if all_pass service.checkers then 200 else 503) (
          health record {
            service = service.service_name;
            status = status_text (all_pass service.checkers);
            timestamp = now;
            checks = results service.checkers;
          })
unfolding handle_ready ready_report reported
handle_ready_lem service now = ap report_response (
    check_all_lem service.checkers
      (record {
        service = service.service_name;
        status = status_ready;
        timestamp = now;
        checks = [];
      })
      true refl)
