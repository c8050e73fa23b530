-- ===== src/Main/Histories.antt =====
-- The states that the server of cmd/api/main.go goes through while it answers requests and its
-- worker processes jobs, one step of either at a time.
use ai_workflow.Base.{◌≡◌, refl, sym, String, Option, some}
use mathlib.Core.Path.{subst}
use ai_workflow.Base.Dict.{lookup}
use ai_workflow.Api.{App, Setup}
use ai_workflow.Api.Invariant.{IsSound, Fresh}
use ai_workflow.Api.Invariant.Served.{serve-IsSound}
use ai_workflow.Api.Server.{Request, serve}
use ai_workflow.Bootstrap.Config.{Config}
use ai_workflow.Bootstrap.Repositories.{open_repositories}
use ai_workflow.Executor.Jobs.{MemoryQueue, Fires}
use ai_workflow.Main.{start, services_of}
use ai_workflow.Worker.{process_next}
use ai_workflow.Worker.Attempts.{process_next-IsSound}
use ai_workflow.Worker.Definitions.{process_next-Keeps}
use ai_workflow.Workflow.Service.Laws as Flows

-- What a server does after its start: it answers a request, its worker calls `ProcessNext`, or a
-- timer of the queue fires. The id of a new run is one that no run has.
pub data Runs {Float : Type 0} (setup : Setup) (cfg : Config Float) : App → Type 0 where
  started : Runs setup cfg (start setup.hash_api_key cfg)
  answers :
      (api_key : String) (request : Request) (app : App)
      → Runs setup cfg app
      → Fresh setup app
      → Runs setup cfg (serve setup api_key request app).1
  works :
      (context : Option String) (q : MemoryQueue) (app : App)
      → Runs setup cfg app
      → app.system.jobs ≡ some q
      → Runs setup cfg (record app { system = (process_next setup.env context q app.system).1 })
  fires :
      (q q' : MemoryQueue) (app : App)
      → Runs setup cfg app
      → app.system.jobs ≡ some q
      → Fires q q'
      → Runs setup cfg (record app { system = record app.system { jobs = some q' } })

module _ (setup : Setup) where
  start-IsSound :
      {Float : Type 0} (cfg : Config Float) → IsSound setup (start setup.hash_api_key cfg)
  unfolding start services_of open_repositories lookup
  start-IsSound cfg = record {
    runs = record { keyed = λ k r e. absurd (cc e); pending = λ k. refl };
    workflows = record { keyed = λ id w e. absurd (cc e); accepted = λ id w e. absurd (cc e) };
    documents = record { stored = λ id d e. absurd (cc e) };
  }

  work-IsSound :
      (context : Option String) (q : MemoryQueue) (app : App)
      → IsSound setup app
      → IsSound setup (record app { system = (process_next setup.env context q app.system).1 })
  work-IsSound context q app h = record {
    runs = process_next-IsSound setup.env context q app.system h.runs;
    workflows =
        subst (Flows.IsSound setup.env.platform)
          (sym (process_next-Keeps setup.env context q app.system)) h.workflows;
    documents = h.documents;
  }

-- Whatever requests a server answers after its start, in whatever order with the rounds of its
-- worker and the timers of its queue, its repositories stay sound: every run, workflow and document
-- is stored under its id, every workflow is accepted, every document has the chunks that it counts,
-- and a state is pending for exactly the runs that wait for an approval.
pub running-IsSound :
    {Float : Type 0} (setup : Setup) (cfg : Config Float) (app : App)
    → Runs setup cfg app
    → IsSound setup app
running-IsSound setup cfg _ started = start-IsSound setup cfg
running-IsSound setup cfg _ (answers api_key request app h fresh) =
    serve-IsSound setup api_key request app (running-IsSound setup cfg app h) fresh
running-IsSound setup cfg _ (works context q app h e) =
    work-IsSound setup context q app (running-IsSound setup cfg app h)
running-IsSound setup cfg _ (fires q q' app h e f) =
    let sound = running-IsSound setup cfg app h in
    record { runs = sound.runs; workflows = sound.workflows; documents = sound.documents }
