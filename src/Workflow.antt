-- ===== src/Workflow.antt =====
-- internal/workflow/service.go: the definition of a workflow and what is stored of it.
pub mod Egress
pub mod Validate
pub mod Service
use ai_workflow.Base.{ℕ, String, List, []}
use ai_workflow.Base.Int.{ℤ}
use ai_workflow.Base.Dict.{Dict}
use ai_workflow.Base.Value.{Value}

pub record Node : Type 0 where
  pub id : String
  pub node_type : String
  pub config : Dict Value

-- The zero `Node`.
abbrev pub zero_node : Node
zero_node = record { id = ""; node_type = ""; config = [] }

pub record Edge : Type 0 where
  pub from : String
  pub to : String
  pub condition : String

pub record Definition : Type 0 where
  pub name : String
  pub description : String
  pub version : ℤ
  pub input_schema : Dict Value
  pub nodes : List Node
  pub edges : List Edge

pub data Status : Type 0 where
  draft : Status

pub data ValidationStatus : Type 0 where
  valid_status invalid_status : ValidationStatus

pub record Workflow : Type 0 where
  pub id : String
  pub tenant_id : String
  pub name : String
  pub description : String
  pub version : ℤ
  pub status : Status
  pub validation_status : ValidationStatus
  pub definition : Definition
  pub created_at : ℕ
  pub updated_at : ℕ
