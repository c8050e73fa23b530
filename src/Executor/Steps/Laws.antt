-- ===== src/Executor/Steps/Laws.antt =====
-- What the steps of internal/executor/service.go and engine.go record.
use ai_workflow.Base.{ℕ, suc, ◌≡◌, ◌≢◌, sym, ap, String, arith, Result, ok, err}
use ai_workflow.Base.Dict.{Dict}
use ai_workflow.Base.Value.{Value}
use ai_workflow.Workflow.{Node}
use ai_workflow.Executor.{Step, Env, World, step_completed, step_failed, step_waiting, draw, read}
use ai_workflow.Executor.Steps.{
  execute_node, run_step, finish_step, execute_step, begun_step, wait_step, await_approval,
}

finish_step-ok :
    (s step : Step) (r : Result String Value) (now : ℕ) (out : Value)
    → finish_step s r now ≡ (step, ok out)
    → (r ≡ ok out) × (step ≡ record s { output = out; completed_at = now })
unfolding finish_step
finish_step-ok s step (err e) now out h =
    absurd (cc (ap (λ (x : Step × Result String Value). x.1) h))
finish_step-ok s step (ok o) now out h =
    let same : o ≡ out = ground arith in
    (ap ok same, rw (← same) (sym (ap (λ (x : Step × Result String Value). x.0) h)))

module _ (env : Env) (run_id tenant_id : String) (node : Node) (input outputs : Dict Value) where
  -- A step that completed: the node's executor returned its output.
  pub record StepOk (step : Step) (out : Value) : Type 0 where
    pub node_id : step.node_id ≡ node.id
    pub status : step.status ≡ step_completed
    pub output : step.output ≡ out
    pub calls : ℕ
    pub returned : execute_node env calls tenant_id node input outputs ≡ ok out

  run_step-StepOk :
      (r : Result String String × World) (step : Step) (out : Value)
      → (run_step env run_id tenant_id node input outputs r).0 ≡ (step, ok out)
      → StepOk step out
  unfolding run_step
  run_step-StepOk (err e, w) step out h =
      absurd (cc (ap (λ (x : Step × Result String Value). x.1) h))
  run_step-StepOk (ok i, w) step out h =
      let (started, w1) = read env w in
      let result = execute_node env w1.node_calls tenant_id node input outputs in
      let ended = (read env (record w1 { node_calls = suc w1.node_calls })).0 in
      let (returned, made) =
        finish_step-ok (begun_step run_id node i started) step result ended out h in
      record {
        node_id = rw made;
        status = rw made;
        output = rw made;
        calls = w1.node_calls;
        returned = returned;
      }

  pub execute_step-StepOk :
      (w : World) (step : Step) (out : Value)
      → (execute_step env run_id tenant_id node input outputs w).0 ≡ (step, ok out)
      → StepOk step out
  unfolding execute_step
  execute_step-StepOk w = run_step-StepOk (draw env w)

-- No executor serves the zero node.
pub execute_node-zero :
    (env : Env) (calls : ℕ) (tenant_id : String) (node : Node) (input outputs : Dict Value)
    (out : Value)
    → execute_node env calls tenant_id node input outputs ≡ ok out
    → node.node_type ≢ ""
unfolding execute_node
execute_node-zero env calls tenant_id node input outputs out h e = cc (rw (e, execute_node) at h)

finish_step-failed :
    (s step : Step) (r : Result String Value) (now : ℕ) (e : String)
    → finish_step s r now ≡ (step, err e)
    → step.status ≡ step_failed
unfolding finish_step
finish_step-failed s step (err x) now e h =
    ap (λ (y : Step). y.status) (sym (ap (λ (x : Step × Result String Value). x.0) h))
finish_step-failed s step (ok o) now e h =
    absurd (cc (ap (λ (x : Step × Result String Value). x.1) h))

module _ (env : Env) (run_id tenant_id : String) (node : Node) (input outputs : Dict Value) where
  run_step-failed :
      (r : Result String String × World) (step : Step) (e : String)
      → (run_step env run_id tenant_id node input outputs r).0 ≡ (step, err e)
      → step.status ≢ step_completed
  unfolding run_step
  run_step-failed (err x, w) step e h done =
      cc (ap (λ (y : Step × Result String Value). y.0.status) h, done)
  run_step-failed (ok i, w) step e h done =
      let (started, w1) = read env w in
      let result = execute_node env w1.node_calls tenant_id node input outputs in
      let ended = (read env (record w1 { node_calls = suc w1.node_calls })).0 in
      cc (finish_step-failed (begun_step run_id node i started) step result ended e h, done)

  -- The step of a node that failed, or the zero step if no id was to be had, is not completed.
  pub execute_step-failed :
      (w : World) (step : Step) (e : String)
      → (execute_step env run_id tenant_id node input outputs w).0 ≡ (step, err e)
      → step.status ≢ step_completed
  unfolding execute_step
  execute_step-failed w = run_step-failed (draw env w)

module _ (env : Env) (run_id : String) (node : Node) where
  wait_step-ok :
      (r : Result String String × World) (step : Step)
      → (wait_step env run_id node r).0 ≡ ok step
      → (step.node_id ≡ node.id) × (step.status ≡ step_waiting) × (step.run_id ≡ run_id)
  unfolding wait_step
  wait_step-ok (err e, w) step h = absurd (cc h)
  wait_step-ok (ok i, w) step h = ground arith

  pub await_approval-ok :
      (w : World) (step : Step)
      → (await_approval env run_id node w).0 ≡ ok step
      → (step.node_id ≡ node.id) × (step.status ≡ step_waiting) × (step.run_id ≡ run_id)
  unfolding await_approval
  await_approval-ok w = wait_step-ok (draw env w)
