-- ===== src/Api/Health.antt =====
-- The health routes of internal/api/server.go, which need no API key.
use ai_workflow.Base.{ℕ, Bool, if◌then◌else◌}
use ai_workflow.Api.{Response, health, respond}
use ai_workflow.Health.{Report, Service, live_report, ready_report}

unfoldable pub handle_live : Service → ℕ → Response
handle_live s now = respond 200 (health (live_report s now))

abbrev pub report_response : Report × Bool → Response
report_response (report, ready) = respond (if ready then 200 else 503) (health report)

unfoldable pub handle_ready : Service → ℕ → Response
handle_ready s now = report_response (ready_report s now)
