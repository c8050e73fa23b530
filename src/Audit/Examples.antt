-- ===== src/Audit/Examples.antt =====
-- An event that is recorded and listed (internal/audit/service.go).
use ai_workflow.Base.{◌+◌, ◌≡◌, refl, Bool, [], ◌==◌, trim_space, is_blank}
use ai_workflow.Audit.{Event, RecordParams, record_event, list_by_run, make_event}
use ai_workflow.Audit.Listing.{Chronological, count, record_event-listed}
use ai_workflow.Samples.{sources, world}

abbrev params : RecordParams
params = record {
  run_id = "r";
  workflow_id = "flow";
  step_id = "";
  node_id = "";
  event_type = "run_started";
  message = "started";
  metadata = [];
}

abbrev started : Event → Bool
started e = e.event_type == "run_started"

record_event-listed_example :
    Chronological (list_by_run (record_event sources "acme" params world.journal).1 "acme" "r")
    × (count started (list_by_run (record_event sources "acme" params world.journal).1 "acme" "r")
        ≡ count started (list_by_run world.journal "acme" "r") + 1)
unfolding is_blank trim_space make_event
record_event-listed_example =
    record_event-listed sources "acme" "id" params world.journal "acme" "r" started refl refl
