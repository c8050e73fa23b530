-- ===== src/Workflow/Service/Laws.antt =====
-- What the repository of internal/workflow/service.go holds.
use ai_workflow.Base.{
  ◌≡◌, sym, ap, ◌∙◌, inl, inr, String, true, Option, none, some, arith, Bool-cases, Result, ok, err,
  ◌==◌, eq_iff, is_blank,
}
use ai_workflow.Base.Dict.{Dict, lookup, lookup-insert}
use ai_workflow.Audit.{Sources, Journal, draw_id, read_clock}
use ai_workflow.Workflow.{Definition, Workflow}
use ai_workflow.Workflow.Egress.{Platform}
use ai_workflow.Workflow.Validate.{validate_definition}
use ai_workflow.Workflow.Service.{
  put, of_tenant, get_by_id, get, create, store_drawn, make_workflow,
}

-- Every stored workflow stands under its id and has an accepted definition.
pub record IsSound (p : Platform) (m : Dict Workflow) : Type 0 where
  pub keyed : (id : String) (w : Workflow) → lookup id m ≡ some w → w.id ≡ id
  pub accepted :
      (id : String) (w : Workflow)
      → lookup id m ≡ some w
      → (validate_definition p w.definition).valid ≡ true

-- Storing an accepted workflow.
pub put-IsSound :
    (p : Platform) (w : Workflow) (m : Dict Workflow)
    → (validate_definition p w.definition).valid ≡ true
    → IsSound p m
    → IsSound p (put w m)
unfolding put
put-IsSound p w m v s = record {
  keyed = λ id u h. ground (arith, lookup-insert w.id id w m, s.keyed id u, eq_iff w.id id);
  accepted =
      λ id u h. ground (arith, lookup-insert w.id id w m, s.accepted id u, eq_iff w.id id, v);
}

store_drawn-IsSound :
    (p : Platform) (src : Sources) (tenant_id : String) (d : Definition) (m : Dict Workflow)
    (r : Result String String × Journal)
    → (validate_definition p d).valid ≡ true
    → IsSound p m
    → IsSound p (store_drawn src tenant_id d (validate_definition p d) m r).workflows
unfolding store_drawn
store_drawn-IsSound p src tenant_id d m (err e, j) v s = s
store_drawn-IsSound p src tenant_id d m (ok i, j) v s =
    put-IsSound p (make_workflow i tenant_id d (read_clock src j).0) m v s

-- `Create` keeps every stored workflow under its id and accepted, whatever the tenant, the
-- definition and the id source do.
pub create-IsSound :
    (p : Platform) (src : Sources) (tenant_id : String) (d : Definition) (m : Dict Workflow)
    (j : Journal)
    → IsSound p m
    → IsSound p (create p src tenant_id d m j).workflows
unfolding create
create-IsSound p src tenant_id d m j s = elim (Bool-cases (is_blank tenant_id)) [
  | inl blank ↦ rw blank s
  | inr given ↦ rw given (elim (Bool-cases (validate_definition p d).valid) [
    | inl good ↦ simp good (store_drawn-IsSound p src tenant_id d m (draw_id src j) good s)
    | inr bad ↦ rw bad s
  ])
]

of_tenant-eq-ok :
    (tenant_id : String) (x : Option Workflow) (w : Workflow)
    → of_tenant tenant_id x ≡ ok w
    → (x ≡ some w) × (w.tenant_id ≡ tenant_id)
unfolding of_tenant
of_tenant-eq-ok tenant_id none w h = absurd (cc h)
of_tenant-eq-ok tenant_id (some x) w h = elim (Bool-cases (x.tenant_id == tenant_id)) [
  | inl e ↦
      let same : ok x ≡ ok w = simp e at h in
      let x_is_w : x ≡ w = cc same in
      (
        ap some x_is_w,
        ap (λ (y : Workflow). y.tenant_id) (sym x_is_w) ∙ (eq_iff x.tenant_id tenant_id).0 e,
      )
  | inr e ↦ absurd (cc (simp e at h))
]

-- What `Get` returns is stored under the id and belongs to the tenant.
pub get-eq-ok :
    (tenant_id workflow_id : String) (w : Workflow) (m : Dict Workflow)
    → get tenant_id workflow_id m ≡ ok w
    → (lookup workflow_id m ≡ some w) × (w.tenant_id ≡ tenant_id)
unfolding get get_by_id
get-eq-ok tenant_id workflow_id w m h = elim (Bool-cases (is_blank tenant_id)) [
  | inl blank ↦ absurd (cc (simp blank at h))
  | inr given ↦ of_tenant-eq-ok tenant_id (lookup workflow_id m) w (simp given at h)
]
