-- ===== src/Tests/Threads.antt =====
-- Tasks of rustygeard/src/server.rs at concrete inputs, and schedules of their steps.
use rustygear.Job
use rustygear.Queues.{coalesce_unique, add_job, push_back, func_queues}
use rustygear.Service.{arm}
use rustygear.Service.Lifecycle.{new_service}
use rustygear.Service.State.{allocate, fetch_add, spawn_send}
use rustygear.Threads.Call.{call_steps}
use rustygear.Threads.Submit.{submit_steps}
use rustygear.Worker.{queue_wake, new_workers}
use rustygear.Packet.{next_field, position, Packet, req}
use rustygear.Prelude.{
  ◌≤◌, refl, zero, suc, none, ◌+◌, ℕ, ◌≡◌, ◌⊎◌, ◌<◌, ◌^◌, true, false, some, List, [], ◌∷◌, arith,
  Bytes, length, bytes_eq,
}
use rustygear.Prelude.Assoc
use rustygear.Queues.{new_job_storage}
use rustygear.Queues.Remotes.{Agrees}
use rustygear.Server.{new_server}
use rustygear.Server.Run.{started, Reached-Agrees}
use rustygear.Service.Numbered.{Given}
use rustygear.Service.State.{Server}
use rustygear.Tests.Instances.{list_set}
use rustygear.Tests.Runs.{submission}
use rustygear.Threads.Connections.{Task, program}
use rustygear.Threads.Exclusive.{run_exclusive, held_at}
use rustygear.Threads.Exclusive.Guards.{guards}
use rustygear.Threads.Order.{locked}
use rustygear.Threads.Machine.{turn, taken, run, step, start, Thread}
use rustygear.Threads.Numbers.{run-Agrees}
use rustygear.Threads.Program.{Lock}
use rustygear.Threads.Progress.{AllEnded}
use rustygear.Threads.Schedule.{programs, run-progress}

abbrev empty : Server (List Bytes)
empty = new_server

abbrev grabbing : Packet
grabbing = record { magic = req; ptype = 9; psize = 0; body = [] }

abbrev reader : Task
reader = Task.reads true 5 1 [] (some submission ∷ some grabbing ∷ none ∷ [])

-- Two connections that submit a job, one of which also grabs it, and a writer that fails.
abbrev tasks : List Task
tasks =
    Task.accepts 5 1
    ∷ reader
    ∷ Task.accepts 6 2
    ∷ Task.reads false 6 2 [] (some submission ∷ [])
    ∷ Task.writes 5 (true ∷ false ∷ [])
    ∷ []

abbrev schedule : List ℕ
schedule = 0 ∷ 1 ∷ 3 ∷ 1 ∷ 3 ∷ 2 ∷ 4 ∷ 1 ∷ 3 ∷ 1 ∷ []

run-progress_example :
    AllEnded (run schedule (start (programs tasks), empty)).0
    ⊎ ((i : ℕ) × ((d : List (Thread (List Bytes)) × Server (List Bytes)) × (step i
              (run schedule (start (programs tasks), empty))
            ≡ some d)))
run-progress_example = run-progress tasks schedule empty

empty-Agrees : Agrees empty.queues.value
unfolding new_server
empty-Agrees = Reached-Agrees {F = List Bytes} new_server started (omega arith)

empty-Given : Given empty.job_count empty.queues.value.jobs
unfolding new_server new_job_storage Assoc.get
empty-Given u a e = cc

few : empty.job_count + length schedule < 2 ^ 64
unfolding new_server
few = omega arith

run-Agrees_example :
    let after = (run schedule (start (programs tasks), empty)).1 in
    Agrees after.queues.value × Given after.job_count after.queues.value.jobs
run-Agrees_example = run-Agrees tasks schedule empty empty-Agrees empty-Given few

-- Two connections submit a job with one unique id, turn by turn: two numbers are drawn, and one job
-- is stored.
abbrev racing : List Task
racing =
    Task.reads false 5 1 [] (some submission ∷ [])
    ∷ Task.reads false 6 2 [] (some submission ∷ [])
    ∷ []

abbrev turns : ℕ → List ℕ
turns zero = []
turns (suc n) = 0 ∷ 1 ∷ turns n

abbrev raced : Server (List Bytes)
raced = (run (turns 40) (start (programs racing), empty)).1

raced-counts : ◌≡◌ {A = ℕ × ℕ} (raced.job_count, length raced.queues.value.jobs) (2, 1)
unfolding run start program new_service allocate new_server call_steps arm submit_steps
    coalesce_unique Assoc.get queue_wake fetch_add add_job push_back func_queues Assoc.insert
    Job.new new_job_storage new_workers next_field position spawn_send
raced-counts = refl

-- The first of them is about to look for the unique id, and holds the mutex of the storage.
abbrev looking : List (Thread (List Bytes)) × Server (List Bytes)
looking = run (0 ∷ 0 ∷ 0 ∷ 0 ∷ 0 ∷ 0 ∷ []) (start (programs racing), empty)

abbrev looked : List (Thread (List Bytes)) × Server (List Bytes)
looked = turn looking (step 0 looking)

steps_once : step 0 looking ≡ some looked
unfolding run start program new_service allocate new_server call_steps arm submit_steps
steps_once = refl

run_exclusive_example :
    (guards Lock.queues (taken looking.0) ≤ 1)
    × ((looked.1.queues.value ≡ looking.1.queues.value)
        ⊎ (locked Lock.queues (held_at 0 looking.0) ≡ true))
run_exclusive_example =
    run_exclusive racing (0 ∷ 0 ∷ 0 ∷ 0 ∷ 0 ∷ 0 ∷ []) empty Lock.queues 0 looked steps_once

looking_holds : locked Lock.queues (held_at 0 looking.0) ≡ true
unfolding run start program new_service allocate new_server call_steps arm submit_steps
looking_holds = refl
