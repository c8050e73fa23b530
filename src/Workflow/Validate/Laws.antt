-- ===== src/Workflow/Validate/Laws.antt =====
-- The error lists of `ValidateDefinition` (internal/workflow/service.go).
use ai_workflow.Base.{◌≡◌, ◌≢◌, refl, ◌↔◌, Bool, true, false, List, [], ◌∷◌, ◌++◌}
use ai_workflow.Workflow.Validate.{Field, Message, report, is_nil}

pub append-eq-nil {ℓ} : {A : Type ℓ} (xs ys : List A) → (xs ++ ys ≡ []) ↔ ((xs ≡ []) × (ys ≡ []))
append-eq-nil [] ys = (λ e. (refl, e), λ h. h.1)
append-eq-nil (x ∷ xs) ys = (λ e. cc, λ h. cc)

pub is_nil_iff {ℓ} : {A : Type ℓ} (xs : List A) → (is_nil xs ≡ true) ↔ (xs ≡ [])
unfolding is_nil
is_nil_iff [] = (λ _. refl, λ _. refl)
is_nil_iff (x ∷ xs) = (λ e. cc, λ e. cc)

pub report-eq-nil : (b : Bool) (f : Field) (m : Message) → (report b f m ≡ []) ↔ (b ≡ false)
report-eq-nil true f m = (λ e. cc, λ e. cc)
report-eq-nil false f m = (λ _. refl, λ _. refl)

-- An error that is added stays.
pub concat-ne-nil {ℓ} : {A : Type ℓ} (xs : List A) (x : A) → xs ++ x ∷ [] ≢ []
concat-ne-nil [] x e = cc
concat-ne-nil (y ∷ xs) x e = cc
