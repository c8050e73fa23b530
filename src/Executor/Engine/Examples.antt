-- ===== src/Executor/Engine/Examples.antt =====
-- Runs of the engine (internal/executor) on small graphs.
use ai_workflow.Base.{◌≡◌, refl, ◌↔◌, true, [], ◌∷◌, arith, ok, trim_space}
use ai_workflow.Base.Dict.{lookup, insert, remove, is_set}
use ai_workflow.Executor.Graph.{Graph, build_graph}
use ai_workflow.Executor.Graph.Built.{build_graph-IsGraphOf}
use ai_workflow.Executor.Queue.{append_queue, append_queue_lem}
use ai_workflow.Executor.Engine.{
  ExecutionState, Outcome, finished, new_execution_state, continue_execution,
}
use ai_workflow.Executor.Engine.Ends.{IsKeyed}
use ai_workflow.Executor.Engine.Runs.{IsTidy, continue_execution-IsTidy, finished_reached}
use ai_workflow.Executor.Engine.Closure.{Reached}
use ai_workflow.Samples.{env, world, branching, graph_or_empty, state_of}

abbrev graph : Graph
graph = graph_or_empty (build_graph branching)

built : build_graph branching ≡ ok graph
unfolding build_graph insert lookup
built = refl

abbrev keyed : IsKeyed graph
keyed = (build_graph-IsGraphOf branching graph built).keyed

abbrev start : ExecutionState
start = new_execution_state ("check" ∷ [])

continue_execution-IsTidy_example :
    IsTidy (continue_execution env "run" "acme" graph [] 4 start world).0
unfolding new_execution_state build_graph insert lookup
continue_execution-IsTidy_example =
    continue_execution-IsTidy env "run" "acme" graph [] 4 start world keyed
      (record {
        completed = tt;
        once = tt;
        complete = λ k. refl;
        distinct = (refl, tt);
        waiting = λ k h. refl;
      })
      (omega arith)

abbrev final : ExecutionState
final = state_of (continue_execution env "run" "acme" graph [] 4 start world).0

finished_reached_example :
    (is_set "yes" final.executed ≡ true) ↔ Reached graph ("check" ∷ []) final.step_outputs "yes"
unfolding continue_execution new_execution_state lookup ai_workflow.Executor.Engine.loop
    ai_workflow.Executor.Engine.round ai_workflow.Executor.Engine.node_at build_graph insert
    ai_workflow.Executor.Engine.step_round ai_workflow.Executor.Steps.execute_step
    ai_workflow.Executor.Nodes.execute_condition ai_workflow.Executor.Nodes.execute_audit
    ai_workflow.Executor.Config.string_config ai_workflow.Audit.draw_id
    ai_workflow.Executor.Queue.offer_all ai_workflow.Executor.Graph.next ai_workflow.Base.equal_fold
    trim_space remove ai_workflow.Executor.Queue.mark_all
finished_reached_example =
    finished_reached env "run" "acme" graph [] ("check" ∷ []) 4 final world keyed (refl, tt) refl
      "yes"
