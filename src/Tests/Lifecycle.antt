-- ===== src/Tests/Lifecycle.antt =====
-- The end of a job and the life of a connection at concrete inputs: rustygeard/src/service.rs and
-- rustygeard/src/server.rs.
use rustygear.Prelude.Finite
use rustygear.Job.{Arc}
use rustygear.Outcome.{ok}
use rustygear.Packet.{Packet, new_res, no_response, next_field, position}
use rustygear.Prelude.{
  ◌==◌, if◌then◌else◌, ℕ, true, ◌++◌, codes, ◌≡◌, refl, false, none, some, List, [], ◌∷◌, Bytes,
  bytes_eq, nat_eq,
}
use rustygear.Prelude.Assoc
use rustygear.Server.{accept, hang_up, hang_up-accept}
use rustygear.Constants
use rustygear.Service.Answers.{get_status-answers}
use rustygear.Service.Completed.{Connected, deliveries}
use rustygear.Service.Ended.{handle_work_complete-deliveries}
use rustygear.Service.Created.{fname_of, Healthy}
use rustygear.Service.Handlers.{
  handle_pre_sleep, flag, is_some, status_body, handle_get_status, handle_work_complete,
}
use rustygear.Service.State.{GearmanService, Server}
use rustygear.Tests.Instances.{list_set}
use rustygear.Service.Wake.{Among, handle_submit_job-handle_pre_sleep}
use rustygear.Service.Submit.{handle_of, handle_submit_job, job_created, new_noop}
use rustygear.Tests.Runs.{
  submission, able, staffed, staffed-Healthy, able_cell, five_sender, no_job, fits_first,
}
use rustygear.Worker.Presence.{can}
use rustygear.Tests.Service.{start, five, progress}
use rustygear.Worker.{Worker, get_assigned_job}

-- Connection 5 has a job that is stored, and waits for it itself.
abbrev job : Arc
job = record {
  alloc = 0;
  job = record { handle = b'h' ∷ []; fname = b'f' ∷ []; unique = b'u' ∷ []; payload = [] };
}

abbrev busy : Worker (List Bytes)
busy = record { peer_addr = []; functions = []; client_id = []; jobs = (b'h' ∷ [], job) ∷ [] }

abbrev working : Server (List Bytes)
working = record start {
  queues = record {
    value = record {
      jobs = (b'u' ∷ [], job) ∷ [];
      queues = [];
      remotes_by_unique = (b'u' ∷ [], 5 ∷ []) ∷ [];
      remotes_by_handle = (b'h' ∷ [], 5 ∷ []) ∷ [];
    };
    poisoned = false;
  };
  cells = (5, record { value = busy; poisoned = false }) ∷ [];
  job_waiters = record { value = (b'h' ∷ [], 5 ∷ []) ∷ []; poisoned = false };
}

working-Healthy : Healthy working
working-Healthy = record { queues = refl; workers = refl; senders = refl; waiters = refl }

busy_cell : Assoc.get 5 working.cells ≡ some (record { value = busy; poisoned = false })
unfolding Assoc.get
busy_cell = refl

busy_job : get_assigned_job (next_field progress.body).0 busy ≡ some job
unfolding get_assigned_job next_field Assoc.get position
busy_job = refl

busy_waiters : Assoc.get (next_field progress.body).0 working.job_waiters.value ≡ some (5 ∷ [])
unfolding next_field Assoc.get position
busy_waiters = refl

five_Connected : Connected (5 ∷ []) working.senders.value
unfolding Assoc.get is_some
five_Connected = (refl, tt)

handle_work_complete-deliveries_example :
    let (answer, after) = handle_work_complete five progress working in
    let handle : Bytes = (next_field progress.body).0 in
    (answer ≡ ok no_response)
    × (after.sent ≡ working.sent ++ deliveries (5 ∷ []) progress working.senders.value)
    × (Assoc.get (b'u' ∷ []) after.queues.value.jobs ≡ (
        if job.job.unique == (b'u' ∷ [])
        then none
        else Assoc.get (b'u' ∷ []) working.queues.value.jobs))
    × (Assoc.get (b'u' ∷ []) after.queues.value.remotes_by_unique ≡ (
        if job.job.unique == (b'u' ∷ [])
        then none
        else Assoc.get (b'u' ∷ []) working.queues.value.remotes_by_unique))
    × (Assoc.get (b'h' ∷ []) after.queues.value.remotes_by_handle
        ≡ (elim (Assoc.get job.job.unique working.queues.value.jobs) [
          | none ↦ Assoc.get (b'h' ∷ []) working.queues.value.remotes_by_handle
          | some b ↦
              if b.job.handle == (b'h' ∷ [])
              then none
              else Assoc.get (b'h' ∷ []) working.queues.value.remotes_by_handle
        ]))
    × (after.queues.value.queues ≡ working.queues.value.queues)
    × (Assoc.get (b'h' ∷ []) after.job_waiters.value
        ≡ (if handle == (b'h' ∷ []) then none else Assoc.get (b'h' ∷ []) working.job_waiters.value))
    × ((worker' : Worker (List Bytes)) × (Assoc.get 5 after.cells ≡ (
          if five.worker == 5
          then some (record { value = worker'; poisoned = false })
          else Assoc.get 5 working.cells))
        × (get_assigned_job (b'h' ∷ []) worker'
            ≡ (if handle == (b'h' ∷ []) then none else get_assigned_job (b'h' ∷ []) busy))
        × (worker'.functions ≡ busy.functions))
    × (after.workers ≡ working.workers)
    × (after.senders ≡ working.senders)
handle_work_complete-deliveries_example =
    handle_work_complete-deliveries five progress working busy job (5 ∷ []) (b'u' ∷ []) (b'h' ∷ [])
      5 working-Healthy busy_cell busy_job busy_waiters five_Connected

hang_up-accept_example :
    let up = (accept 6 2 [] start).1 in
    let down = (hang_up 6 up).1 in
    (Assoc.get 6 up.senders.value ≡ some 2)
    × (Assoc.get 6 up.workers_by_conn.value ≡ some 0)
    × (Assoc.get 6 down.senders.value ≡ none)
    × (Assoc.get 6 down.workers_by_conn.value ≡ none)
hang_up-accept_example = hang_up-accept 6 6 2 [] start refl refl

get_status-answers_example :
    let known = is_some (Assoc.get (next_field progress.body).0 working.job_waiters.value) in
    let running = is_some (get_assigned_job (next_field progress.body).0 busy) in
    let body = status_body (next_field progress.body).0 known running in
    let handle = next_field body in
    let known_field = next_field handle.1 in
    let running_field = next_field known_field.1 in
    (handle_get_status five progress working ≡ (ok (new_res Constants.status_res body), working))
    × (handle.0 ≡ (next_field progress.body).0)
    × (known_field.0 ≡ flag known)
    × (running_field.0 ≡ flag running)
    × (running_field.1 ≡ codes "0" ++ 0 ∷ codes "0")
get_status-answers_example = get_status-answers five progress working busy refl busy_cell

-- The worker of connection 5 sleeps until connection 5 submits a job, too.
abbrev sleeper : GearmanService
sleeper = record { conn_id = 5; worker = 6 }

function_known : can (fname_of submission) able ≡ true
unfolding Finite.contains next_field position
function_known = refl

handle_submit_job-handle_pre_sleep_example :
    let (rested, st1) = handle_pre_sleep sleeper staffed in
    let (answer, st2) = handle_submit_job five 1 true submission st1 in
    (rested ≡ ok no_response)
    × (answer ≡ ok (job_created (handle_of 3)))
    × ((sends : List (ℕ × Packet)) × (st2.sent ≡ [] ++ sends) × Among (1, new_noop) sends)
handle_submit_job-handle_pre_sleep_example =
    handle_submit_job-handle_pre_sleep sleeper five 1 true submission staffed able 1 staffed-Healthy
      able_cell function_known five_sender no_job fits_first
