-- ===== src/Audit.antt =====
-- internal/audit/service.go: the audit events of a run, and the service that records them. The
-- repository is the in-memory one; both repositories keep the events of a run in arrival order.
pub mod Listing
pub mod Examples
use ai_workflow.Base.{
  ℕ, suc, String, Bool, true, false, Option, none, some, List, [], ◌∷◌, ◌++◌, ltb, if◌then◌else◌,
  Result, ok, err, ◌==◌, trim_space, is_blank,
}
use Prim.Native.Nat.{Ordering}
use Prim.Native.String as Text
use ai_workflow.Base.Dict.{Dict, lookup_or, insert}
use ai_workflow.Base.Value.{Value}

pub data Error : Type 0 where
  invalid_tenant : Error
  generate_event_id : String → Error

-- A message is a text of the program or the text of an error that it renders.
pub record Event : Type 0 where
  pub id : String
  pub tenant_id : String
  pub run_id : String
  pub workflow_id : String
  pub step_id : String
  pub node_id : String
  pub event_type : String
  pub message : String
  pub metadata : Dict Value
  pub created_at : ℕ

pub record RecordParams : Type 0 where
  pub run_id : String
  pub workflow_id : String
  pub step_id : String
  pub node_id : String
  pub event_type : String
  pub message : String
  pub metadata : Dict Value

-- What the services take from outside: the n-th result of `ids.New` and the n-th value of the
-- clock.
pub record Sources : Type 0 where
  pub new_id : ℕ → Result String String
  pub now : ℕ → ℕ

-- How often each was asked so far, and the events recorded.
pub record Journal : Type 0 where
  pub ids_drawn : ℕ
  pub clock_reads : ℕ
  pub events : Dict (List Event)

unfoldable pub draw_id : Sources → Journal → Result String String × Journal
draw_id src j = (src.new_id j.ids_drawn, record j { ids_drawn = suc j.ids_drawn })

unfoldable pub read_clock : Sources → Journal → ℕ × Journal
read_clock src j = (src.now j.clock_reads, record j { clock_reads = suc j.clock_reads })

-- `MemoryRepository.Create`
unfoldable pub create : Event → Journal → Journal
create e j = record j {
  events = insert e.run_id (lookup_or [] e.run_id j.events ++ e ∷ []) j.events;
}

unfoldable pub make_event : String → String → RecordParams → ℕ → Event
make_event id tenant_id params now = record {
  id = id;
  tenant_id = tenant_id;
  run_id = params.run_id;
  workflow_id = params.workflow_id;
  step_id = params.step_id;
  node_id = params.node_id;
  event_type = trim_space params.event_type;
  message = trim_space params.message;
  metadata = params.metadata;
  created_at = now;
}

pub record_drawn :
    Sources → String → RecordParams → Result String String × Journal → Option Error × Journal
unfolding read_clock create make_event
record_drawn src tenant_id params (err e, j) = (some (generate_event_id e), j)
record_drawn src tenant_id params (ok id, j) =
    let (now, j') = read_clock src j in (none, create (make_event id tenant_id params now) j')

-- `Service.Record`; the first component is the error.
unfoldable pub record_event : Sources → String → RecordParams → Journal → Option Error × Journal
unfolding draw_id record_drawn
record_event src tenant_id params j =
    if is_blank tenant_id
    then (some invalid_tenant, j)
    else record_drawn src tenant_id params (draw_id src j)

pub of_tenant : String → List Event → List Event
of_tenant tenant_id [] = []
of_tenant tenant_id (e ∷ es) =
    let rest = of_tenant tenant_id es in if e.tenant_id == tenant_id then e ∷ rest else rest

-- The comparison of `ListByRun`: by time, then by id.
pub before : Event → Event → Bool
before a b =
    if ltb a.created_at b.created_at
    then true
    else if ltb b.created_at a.created_at
    then false
    else elim (Text.compare a.id b.id) [ Ordering.gt ↦ false | _ ↦ true ]

pub insert_event : Event → List Event → List Event
insert_event a [] = a ∷ []
insert_event a (b ∷ es) =
    let rest = insert_event a es in if before a b then a ∷ b ∷ es else b ∷ rest

pub sort_events : List Event → List Event
sort_events [] = []
sort_events (a ∷ es) = insert_event a (sort_events es)

-- `MemoryRepository.ListByRun`; equal keys are kept in order, where `slices.SortFunc` leaves it
-- open.
unfoldable pub list_by_run : Journal → String → String → List Event
unfolding of_tenant before insert_event sort_events
list_by_run j tenant_id run_id = sort_events (of_tenant tenant_id (lookup_or [] run_id j.events))

unfoldable pub list_run_events : Journal → String → String → Result Error (List Event)
unfolding list_by_run
list_run_events j tenant_id run_id =
    if is_blank tenant_id then err invalid_tenant else ok (list_by_run j tenant_id run_id)
