-- ===== src/Samples.antt =====
-- The definitions, sources and states that the examples run the services on.
use ai_workflow.Base.{◌==◌, suc, false, none, some, [], ◌∷◌, Result, ok, err}
use ai_workflow.Base.Int.{pos}
use ai_workflow.Workflow.{Definition, Workflow, draft, valid_status}
use ai_workflow.Workflow.Egress.{Platform}
use ai_workflow.Audit.{Sources}
use ai_workflow.Executor.{Env, World}
use ai_workflow.Executor.Graph.{Graph}
use ai_workflow.Executor.Engine.{
  Outcome, ExecutionState, finished, paused, failed_at, broken, out_of_fuel, new_execution_state,
}
use ai_workflow.Executor.Jobs.{MemoryQueue}
use ai_workflow.Executor.Repository.{empty_store}
use ai_workflow.Executor.Service.{System}

abbrev pub platform : Platform
platform = record { sprint = λ v. ""; parse_url = λ s. none; is_blocked_ip = λ s. false }

-- A condition with a note on either branch.
abbrev pub branching : Definition
branching = record {
  name = "branching";
  description = "";
  version = pos 1;
  input_schema = [];
  nodes =
      record { id = "check"; node_type = "condition"; config = [] }
      ∷ record { id = "yes"; node_type = "audit_log"; config = [] }
      ∷ record { id = "no"; node_type = "audit_log"; config = [] }
      ∷ [];
  edges =
      record { from = "check"; to = "yes"; condition = "true" }
      ∷ record { from = "check"; to = "no"; condition = "false" }
      ∷ [];
}

-- An approval and a note after it.
abbrev pub review : Definition
review = record {
  name = "review";
  description = "";
  version = pos 1;
  input_schema = [];
  nodes =
      record { id = "ask"; node_type = "approval"; config = [] }
      ∷ record { id = "note"; node_type = "audit_log"; config = [] }
      ∷ [];
  edges = record { from = "ask"; to = "note"; condition = "" } ∷ [];
}

abbrev pub sources : Sources
sources = record { new_id = λ n. ok "id"; now = λ n. suc n }

-- Texts are compared as they are, no service answers but the language model.
abbrev pub env : Env
env = record {
  sources = sources;
  has_audit = false;
  render = λ v. "";
  unmarshal = λ s. none;
  quote = λ s. s;
  decimal = λ n. "";
  to_lower = λ s. s;
  to_upper = λ s. s;
  canonical_header = λ s. s;
  equal_fold = λ s t. s == t;
  has_text = λ s t. s == t;
  platform = platform;
  generate = λ n prompt. ok "text";
  send = λ n request. err "no connection";
  execute_retrieval = λ n tenant_id config input. err "no documents";
}

abbrev pub world : World
world = record { journal = record { ids_drawn = 0; clock_reads = 0; events = [] }; node_calls = 0 }

abbrev pub stored : Definition → Workflow
stored d = record {
  id = "flow";
  tenant_id = "acme";
  name = d.name;
  description = "";
  version = d.version;
  status = draft;
  validation_status = valid_status;
  definition = d;
  created_at = 1;
  updated_at = 1;
}

abbrev pub queue : MemoryQueue
queue = record { capacity = 2; ready = []; delayed = [] }

-- A service with one workflow.
abbrev pub system : Definition → System
system d = record {
  store = empty_store;
  workflows = ("flow", stored d) ∷ [];
  jobs = some queue;
  world = world;
}

abbrev pub state_of : Outcome → ExecutionState
state_of (finished st) = st
state_of (paused st output pending) = st
state_of (failed_at st node e) = st
state_of (broken st e) = st
state_of out_of_fuel = new_execution_state []

abbrev pub graph_or_empty : {E : Type 0} → Result E Graph → Graph
graph_or_empty (ok g) = g
graph_or_empty (err e) = record { nodes = []; outbound = []; roots = [] }
