-- ===== src/Api.antt =====
-- internal/api/server.go: requests as they are decoded, responses, and what the handlers share.
pub mod Errors
pub mod Uploads
pub mod Flows
pub mod Runs
pub mod Trigger
pub mod Server
pub mod Health
pub mod Remembered
pub mod Replays
pub mod Shown
pub mod Access
pub mod Invariant
pub mod Examples
use ai_workflow.Base.{ℕ, String, Bool, Option, List, [], ◌∷◌, if◌then◌else◌, Result, ok, err}
use ai_workflow.Base.Dict.{Dict}
use ai_workflow.Base.Value.{Value}
use ai_workflow.Auth
use ai_workflow.Auth.{Identity, Credential}
use ai_workflow.Audit
use ai_workflow.Audit.{Event}
use ai_workflow.Documents
use ai_workflow.Documents.{Document, Chunk, Services}
use ai_workflow.Health.{Report}
use ai_workflow.Tenant.Service.{Tenant}
use ai_workflow.Tenant.Controls.{TriggerControl}
use ai_workflow.Workflow.{Definition, Workflow}
use ai_workflow.Workflow.Validate.{ValidationResult}
use ai_workflow.Executor.{Run, Step, Env}
use ai_workflow.Executor.Service.{System}

-- The payload of a response: one constructor for each envelope.
pub data Payload : Type 0 where
  error_message : String → Payload
  tenant_self : Identity → Payload
  document : Document → Payload
  chunks : List Chunk → Payload
  workflow : Workflow → Payload
  validation : ValidationResult → Payload
  run : Run → Payload
  runs : List Run → Payload
  steps : List Step → Payload
  events : List Event → Payload
  health : Report → Payload
  no_payload : Payload

pub record Response : Type 0 where
  pub status : ℕ
  pub headers : Dict String
  pub payload : Payload

-- A handler that panicked: the connection is closed without a response.
abbrev pub aborted : Response
aborted = record { status = 0; headers = []; payload = no_payload }

-- The outcome of decoding a JSON body.
pub data Decoded (A : Type 0) : Type 0 where
  decoded : A → Decoded A
  empty_body undecodable : Decoded A

-- The services that the handlers call, with their state. The journal of the world gives ids and
-- times to all of them.
pub record App : Type 0 where
  pub system : System
  pub documents : Documents.Store
  pub control : Option TriggerControl
  pub credentials : Dict Credential
  pub tenants : Dict Tenant

-- What does not change: the parameters of the services, which of them are set, and `json.Marshal`
-- of the request that is fingerprinted.
pub record Setup : Type 0 where
  pub env : Env
  pub services : Services
  pub hash_api_key : String → String
  pub context_error : String
  pub marshal_request : String → String → Dict Value → Result String String
  pub has_authenticator : Bool
  pub has_documents : Bool
  pub has_workflows : Bool
  pub has_executor : Bool
  pub has_audit : Bool

-- `writeJSON`; a payload of these types can always be encoded.
abbrev pub respond : ℕ → Payload → Response
respond status payload = record {
  status = status;
  headers = ("Content-Type", "application/json") ∷ [];
  payload = payload;
}

-- `writeError`
abbrev pub write_error : ℕ → String → Response
write_error status message = respond status (error_message message)

-- `serviceContext` behind `requireAPIKey`, which puts the identity into the context.
unfoldable pub with_service : Bool → String → App → Response × App → Response × App
with_service configured not_configured app handled =
    if configured then handled else (write_error 503 not_configured, app)

abbrev pub journal_of : App → Audit.Journal
journal_of app = app.system.world.journal

abbrev pub with_journal : App → Audit.Journal → App
with_journal app j = record app {
  system = record app.system { world = record app.system.world { journal = j } };
}

-- A response to the result of a call, and one to its error.
abbrev pub answer : {E A : Type 0} → (E → Response) → (A → Response) → Result E A → Response
answer failed found (err e) = failed e
answer failed found (ok a) = found a
