-- ===== src/Workflow/Service.antt =====
-- internal/workflow/service.go: the in-memory repository of workflows and the service over it.
pub mod Laws
use ai_workflow.Base.{
  ℕ, String, false, not, Option, none, some, [], if◌then◌else◌, Result, ok, err, ◌==◌, is_blank,
}
use ai_workflow.Base.Dict.{Dict, lookup, insert}
use ai_workflow.Audit.{Sources, Journal, draw_id, read_clock}
use ai_workflow.Workflow.{Definition, Workflow, draft, valid_status}
use ai_workflow.Workflow.Egress.{Platform}
use ai_workflow.Workflow.Validate.{ValidationResult, validate_definition}

pub data Error : Type 0 where
  not_found invalid_tenant invalid_definition : Error
  generate_id : String → Error

-- `Error()` on the errors that the executor stores in a run.
abbrev pub error_text : Error → String
error_text not_found = "workflow not found"
error_text invalid_tenant = "invalid tenant"
error_text invalid_definition = "invalid workflow definition"
error_text (generate_id e) = e

-- `MemoryRepository.Create`
unfoldable pub put : Workflow → Dict Workflow → Dict Workflow
put w m = insert w.id w m

pub of_tenant : String → Option Workflow → Result Error Workflow
of_tenant tenant_id none = err not_found
of_tenant tenant_id (some w) = if w.tenant_id == tenant_id then ok w else err not_found

-- `MemoryRepository.GetByID`
unfoldable pub get_by_id : String → String → Dict Workflow → Result Error Workflow
unfolding of_tenant
get_by_id tenant_id workflow_id m = of_tenant tenant_id (lookup workflow_id m)

-- `Service.Get`
unfoldable pub get : String → String → Dict Workflow → Result Error Workflow
unfolding get_by_id
get tenant_id workflow_id m =
    if is_blank tenant_id then err invalid_tenant else get_by_id tenant_id workflow_id m

empty_result : ValidationResult
empty_result = record { valid = false; errors = [] }

make_workflow : String → String → Definition → ℕ → Workflow
make_workflow id tenant_id d now = record {
  id = id;
  tenant_id = tenant_id;
  name = d.name;
  description = d.description;
  version = d.version;
  status = draft;
  validation_status = valid_status;
  definition = d;
  created_at = now;
  updated_at = now;
}

-- What `Service.Create` returns: the workflow or an error, the validation, the repository and the
-- journal.
pub record Created : Type 0 where
  pub result : Result Error Workflow
  pub validation : ValidationResult
  pub workflows : Dict Workflow
  pub journal : Journal

store_drawn :
    Sources
    → String
    → Definition
    → ValidationResult
    → Dict Workflow
    → Result String String × Journal
    → Created
unfolding empty_result make_workflow put
store_drawn src tenant_id d v m (err e, j) = record {
  result = err (generate_id e);
  validation = empty_result;
  workflows = m;
  journal = j;
}
store_drawn src tenant_id d v m (ok id, j) =
    let (now, j') = read_clock src j in
    let w = make_workflow id tenant_id d now in
    record { result = ok w; validation = v; workflows = put w m; journal = j' }

-- `Service.Create`
unfoldable pub create : Platform → Sources → String → Definition → Dict Workflow → Journal → Created
unfolding store_drawn empty_result
create p src tenant_id d m j =
    let v = validate_definition p d in
    if is_blank tenant_id
    then record {
      result = err invalid_tenant;
      validation = empty_result;
      workflows = m;
      journal = j;
    }
    else if v.valid
    then store_drawn src tenant_id d v m (draw_id src j)
    else record { result = err invalid_definition; validation = v; workflows = m; journal = j }

validate_found : Platform → Result Error Workflow → Result Error ValidationResult
validate_found p (err e) = err e
validate_found p (ok w) = ok (validate_definition p w.definition)

-- `Service.Validate`
unfoldable pub validate : Platform → String → String → Dict Workflow → Result Error ValidationResult
unfolding validate_found
validate p tenant_id workflow_id m = validate_found p (get tenant_id workflow_id m)
