-- ===== src/Executor.antt =====
-- internal/executor: runs of workflows. The data of service.go.
pub mod Graph
pub mod Queue
pub mod Config
pub mod Nodes
pub mod Steps
pub mod Engine
pub mod Repository
pub mod Jobs
pub mod Triggers
pub mod Service
use ai_workflow.Base.{ℕ, String, Bool, Option, List, if◌then◌else◌, Result}
use ai_workflow.Base.Dict.{Dict}
use ai_workflow.Base.Value.{Value}
use ai_workflow.Workflow.Egress.{Platform}
use ai_workflow.Audit.{Sources, Journal, RecordParams, draw_id, read_clock, record_event}

pub data RunStatus : Type 0 where
  queued running waiting_approval completed failed dead_letter : RunStatus

unfoldable pub RunStatus-discrete : Discrete RunStatus
RunStatus-discrete = hlevel

-- `no_status` is the status of the zero `Step`.
pub data StepStatus : Type 0 where
  no_status step_waiting step_completed step_failed : StepStatus

pub data TriggerMode : Type 0 where
  sync async : TriggerMode

pub record Run : Type 0 where
  pub id : String
  pub tenant_id : String
  pub workflow_id : String
  pub status : RunStatus
  pub trigger_mode : TriggerMode
  pub attempt : ℕ
  pub max_attempts : ℕ
  pub input : Dict Value
  pub output : Value
  pub error : String
  pub created_at : ℕ
  pub started_at : ℕ
  pub completed_at : ℕ

pub record Step : Type 0 where
  pub id : String
  pub run_id : String
  pub node_id : String
  pub node_type : String
  pub status : StepStatus
  pub attempt : ℕ
  pub input : Dict Value
  pub output : Value
  pub error : String
  pub started_at : ℕ
  pub completed_at : ℕ

pub record PendingState : Type 0 where
  pub waiting_node_id : String
  pub queue : List String
  pub step_outputs : Dict Value
  pub executed : Dict Bool

-- What an http_tool node sends: a body is the value that is encoded.
pub record Request : Type 0 where
  pub method : String
  pub url : String
  pub headers : Dict String
  pub body : Option Value

-- What the client returns: the body as it is read, up to 1 MiB, or the error of reading it.
pub record Response : Type 0 where
  pub status_code : ℕ
  pub content_type : String
  pub body : Result String String

-- What the executor is given: ids and clock, whether an audit service is set, and from the standard
-- library `json.Marshal`, `json.Unmarshal`, `%q`, `%d`, `strings.ToLower`, `strings.ToUpper`,
-- `textproto.CanonicalMIMEHeaderKey`, `strings.EqualFold` and `strings.Contains` on texts of any
-- script. The services that nodes ask, language model, HTTP client and documents, are told how many
-- node calls were made before; an error of theirs comes with the text that the program puts before
-- it.
pub record Env : Type 0 where
  pub sources : Sources
  pub has_audit : Bool
  pub render : Value → String
  pub unmarshal : String → Option Value
  pub quote : String → String
  pub decimal : ℕ → String
  pub to_lower : String → String
  pub to_upper : String → String
  pub canonical_header : String → String
  pub equal_fold : String → String → Bool
  pub has_text : String → String → Bool
  pub platform : Platform
  pub generate : ℕ → String → Result String String
  pub send : ℕ → Request → Result String Response
  pub execute_retrieval : ℕ → String → Dict Value → Dict Value → Result String Value

-- What changes outside the run itself.
pub record World : Type 0 where
  pub journal : Journal
  pub node_calls : ℕ

abbrev pub draw : Env → World → Result String String × World
draw env w = let (r, j) = draw_id env.sources w.journal in (r, record w { journal = j })

abbrev pub read : Env → World → ℕ × World
read env w = let (t, j) = read_clock env.sources w.journal in (t, record w { journal = j })

-- `recordAudit`: without an audit service nothing happens, and an error of the service is dropped.
unfoldable pub record_audit : Env → String → RecordParams → World → World
record_audit env tenant_id params w =
    if env.has_audit
    then record w { journal = (record_event env.sources tenant_id params w.journal).1 }
    else w
