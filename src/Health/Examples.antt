-- ===== src/Health/Examples.antt =====
-- The reports of internal/platform/health/service.go on small inputs.
use ai_workflow.Base.{◌≡◌, refl, none, some, [], ◌∷◌}
use ai_workflow.Api.{respond, health}
use ai_workflow.Api.Health.{handle_live, handle_ready}
use ai_workflow.Health.{Checker, Service, status_live, live_report, result_of}
use ai_workflow.Health.Reports.{handle_ready_lem}

abbrev database : Checker
database = record { name = "postgres"; outcome = none; duration_ms = 3 }

abbrev cache : Checker
cache = record { name = "redis"; outcome = some "refused"; duration_ms = 1 }

abbrev service : Service
service = record { service_name = "api"; checkers = cache ∷ database ∷ [] }

live :
    handle_live service 7
    ≡ respond 200
        (health record { service = "api"; status = status_live; timestamp = 7; checks = [] })
unfolding handle_live live_report
live = refl

handle_ready_lem_example :
    handle_ready service 7
    ≡ respond 503 (
        health record {
          service = "api";
          status = "not_ready";
          timestamp = 7;
          checks = result_of cache (some "refused") ∷ result_of database none ∷ [];
        })
handle_ready_lem_example = handle_ready_lem service 7
