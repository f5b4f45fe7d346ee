-- ===== src/Tests/Runs.antt =====
-- Runs of the server at concrete inputs: rustygeard/src/server.rs and rustygeard/src/service.rs.
use rustygear.Text.Decimal.{show_padded}
use rustygear.Job
use rustygear.Constants
use rustygear.Service.Journey.{handle_work_complete-handle_submit_job}
use rustygear.Service.Handlers.{assign_body, handle_grab_job, handle_work_complete}
use rustygear.Queues.{empty_queues, coalesce_unique, add_job, push_back, push_back}
use rustygear.Queues.{coalesce_unique, add_job, push_back, add_job}
use rustygear.Packet.{res, next_field, new_res, no_response, position}
use rustygear.Packet.{next_field}
use rustygear.Outcome.{ok}
use rustygear.Packet.{Packet, req}
use rustygear.Prelude.{
  ◌++◌, codes, ◌≡◌, ◌<◌, ◌≤◌, ◌^◌, ◌⊎◌, refl, true, false, none, some, List, [], ◌∷◌, arith, Bytes,
  bytes_eq, nat_eq, length,
}
use rustygear.Prelude.Assoc
use rustygear.Queues.{coalesce_unique, add_job, push_back, func_queues, holds, new_job_storage}
use rustygear.Queues.Remotes.{Agrees}
use rustygear.Server.{new_server, accept, serve}
use rustygear.Server.Run.{Reached, started, accepted, served, Reached-Agrees}
use rustygear.Service.{call, arm, dispatch}
use rustygear.Worker.{Worker, queue_wake, new_workers}
use rustygear.Service.Created.{Healthy, fname_of, unique_of, job_of, created}
use rustygear.Service.Handles.{length-handle_of}
use rustygear.Service.Race.{submit_both, submit_both-replaces}
use rustygear.Service.State.{
  GearmanService, with_queues, with_senders, with_conns, with_workers, with_waiters, allocate,
  fetch_add, Server, held_by,
}
use rustygear.Service.Submit.{handle_submit_job, handle_of, job_created}
use rustygear.Tests.Instances.{list_set}
use rustygear.Tests.Service.{start, five, start-Healthy}

abbrev pub submission : Packet
submission = record { magic = req; ptype = 7; psize = 5; body = b'f' ∷ 0 ∷ b'u' ∷ 0 ∷ b'x' ∷ [] }

abbrev other : Packet
other = record { magic = req; ptype = 7; psize = 5; body = b'g' ∷ 0 ∷ b'u' ∷ 0 ∷ b'y' ∷ [] }

-- A connection comes and submits a job.
abbrev up : Server (List Bytes)
up = (accept 5 1 [] new_server).1

abbrev busy : Server (List Bytes)
busy = (serve false (record { conn_id = 5; worker = 0 }) 1 submission up).1

busy-Reached : Reached (List Bytes) busy
busy-Reached =
    served false (record { conn_id = 5; worker = 0 }) 1 submission (accepted 5 1 [] started)

busy_allocs : busy.next_alloc ≡ 2
unfolding serve call handle_submit_job with_queues accept with_senders new_server allocate
    with_conns coalesce_unique Assoc.get with_workers queue_wake fetch_add add_job push_back
    func_queues Assoc.insert arm dispatch new_job_storage new_workers with_waiters
busy_allocs = refl

few : busy.next_alloc < 2 ^ 64
few = omega (arith, busy_allocs)

Reached-Agrees_example : Agrees busy.queues.value
Reached-Agrees_example = Reached-Agrees busy busy-Reached few

length-handle_of_example :
    (12 ≤ length (handle_of 3))
    × (length (handle_of 3) ≤ 22)
    × ((10 ^ 10 ≤ 3) ⊎ (length (handle_of 3) ≡ 12))
    × ((job_created (handle_of 3)).psize ≡ length (handle_of 3))
length-handle_of_example = length-handle_of 3 (omega arith)

-- Two clients of the same connection submit at once, for different functions.
abbrev first_stored : Server (List Bytes)
first_stored = created 1 (some 5) submission start

same_unique : unique_of submission ≡ unique_of other
unfolding next_field position
same_unique = refl

pub no_job : Assoc.get (unique_of submission) start.queues.value.jobs ≡ none
unfolding Assoc.get new_job_storage
no_job = refl

pub fits_first : 1 < length (func_queues (fname_of submission) start.queues.value.queues)
unfolding func_queues Assoc.get new_job_storage
fits_first = omega arith

fits_second : 0 < length (func_queues (fname_of other) first_stored.queues.value.queues)
unfolding func_queues Assoc.get add_job push_back new_job_storage Assoc.insert Job.new next_field
    position
fits_second = omega arith

unheld : holds start.next_alloc start.queues.value.jobs ≡ false
unfolding holds new_job_storage
unheld = refl

unowned : held_by start.cells start.next_alloc ≡ false
unfolding held_by holds
unowned = refl

submit_both-replaces_example :
    let (answers, after) = submit_both five five 1 0 true false submission other start in
    (answers ≡ ok (job_created (handle_of 3), job_created (handle_of first_stored.job_count)))
    × (Assoc.get (unique_of submission) after.queues.value.jobs ≡ some (job_of other first_stored))
    × (holds 0 after.queues.value.jobs ≡ false)
    × (held_by after.cells 0 ≡ false)
submit_both-replaces_example =
    submit_both-replaces five five 1 0 true false submission other start start-Healthy same_unique
      no_job fits_first fits_second unheld unowned

-- A worker, 6, that can do `f`, and its report on the job.
abbrev pub able : Worker (List Bytes)
able = record { peer_addr = []; functions = (b'f' ∷ []) ∷ []; client_id = []; jobs = [] }

abbrev pub staffed : Server (List Bytes)
staffed = record start { cells = (6, record { value = able; poisoned = false }) ∷ [] }

abbrev pub six : GearmanService
six = record { conn_id = 6; worker = 6 }

abbrev report : Packet
report = record {
  magic = res;
  ptype = 13;
  psize = 15;
  body = codes "H:0000000003" ++ 0 ∷ codes "ok";
}

pub staffed-Healthy : Healthy staffed
staffed-Healthy = record { queues = refl; workers = refl; senders = refl; waiters = refl }

no_queues : func_queues (fname_of submission) staffed.queues.value.queues ≡ empty_queues
unfolding func_queues Assoc.get new_job_storage
no_queues = refl

pub able_cell : Assoc.get 6 staffed.cells ≡ some (record { value = able; poisoned = false })
unfolding Assoc.get
able_cell = refl

only_function : (list_set.iter able.functions).0 ≡ fname_of submission ∷ []
unfolding next_field position
only_function = refl

pub five_sender : Assoc.get 5 staffed.senders.value ≡ some 1
unfolding Assoc.get
five_sender = refl

pub no_waiters : Assoc.get (handle_of 3) staffed.job_waiters.value ≡ none
unfolding Assoc.get
no_waiters = refl

report_handle : (next_field report.body).0 ≡ handle_of 3
unfolding handle_of next_field position show_padded
report_handle = refl

handle_work_complete-handle_submit_job_example :
    let (answer, st1) = handle_submit_job five 1 true submission staffed in
    let (assigned, st2) = handle_grab_job six st1 in
    let (reported, st3) = handle_work_complete six report st2 in
    (answer ≡ ok (job_created (handle_of 3)))
    × (assigned ≡ ok (new_res Constants.job_assign (assign_body (job_of submission staffed).job)))
    × (reported ≡ ok no_response)
    × (st3.sent ≡ st1.sent ++ (1, report) ∷ [])
    × (Assoc.get (unique_of submission) st3.queues.value.jobs ≡ none)
    × (Assoc.get (handle_of 3) st3.job_waiters.value ≡ none)
handle_work_complete-handle_submit_job_example =
    handle_work_complete-handle_submit_job five six 1 submission report staffed able 1
      staffed-Healthy (omega arith) no_job no_queues able_cell only_function five_sender no_waiters
      report_handle
