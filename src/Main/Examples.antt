-- ===== src/Main/Examples.antt =====
-- The server of cmd/api/main.go after its start.
use ai_workflow.Base.{refl, none}
use ai_workflow.Base.Int.{pos}
use ai_workflow.Base.Dict.{lookup}
use ai_workflow.Api.{App, decoded}
use ai_workflow.Api.Examples.{setup}
use ai_workflow.Api.Invariant.{IsSound}
use ai_workflow.Api.Server.{post_workflow, serve}
use ai_workflow.Bootstrap.Examples.{cfg}
use ai_workflow.Bootstrap.Repositories.{open_repositories}
use ai_workflow.Executor.Jobs.{MemoryQueue, new_memory_queue, dequeue}
use ai_workflow.Main.{start, services_of}
use ai_workflow.Main.Histories.{Runs, started, answers, works, running-IsSound}
use ai_workflow.Samples.{review}
use ai_workflow.Worker.{process_next}

abbrev first : App
first = start setup.hash_api_key cfg

abbrev queue : MemoryQueue
queue = new_memory_queue (pos 128)

-- The worker has found no job.
abbrev idle : App
idle = record first { system = (process_next setup.env none queue first.system).1 }

idle-Runs : Runs setup cfg idle
unfolding start services_of
idle-Runs = works none queue first started refl

-- Then a workflow is created.
served-Runs : Runs setup cfg (serve setup "one" (post_workflow (decoded review)) idle).1
unfolding start services_of open_repositories process_next new_memory_queue dequeue lookup
served-Runs = answers "one" (post_workflow (decoded review)) idle idle-Runs (λ id drawn. refl)

running-IsSound_example : IsSound setup (serve setup "one" (post_workflow (decoded review)) idle).1
running-IsSound_example =
    running-IsSound setup cfg (serve setup "one" (post_workflow (decoded review)) idle).1
      served-Runs
