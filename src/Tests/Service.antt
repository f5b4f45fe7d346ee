-- ===== src/Tests/Service.antt =====
-- Requests at concrete inputs: rustygeard/src/service.rs and rustygeard/src/admin.rs.
use rustygear.Text.Decimal.{show, digits, show_padded, zeros}
use rustygear.Admin.{queue_total, status_line, status_lines}
use rustygear.Job
use rustygear.Worker.{queue_wake, count_workers}
use rustygear.Queues.{add_job, push_back}
use rustygear.Service.Submit.{
  answer_created, coalesce, create_job, obtain_handle, store_job, wake_all, wake_list,
}
use rustygear.Service.State.{
  with_queues, with_workers, with_waiters, with_senders, fetch_add, allocate,
}
use rustygear.Packet.{position, new_text_res}
use rustygear.Packet.{position}
use rustygear.Text.Decimal.{show_padded}
use rustygear.Service.State.{with_waiters}
use rustygear.Queues.{push_back}
use rustygear.Queues.{add_job}
use rustygear.Service.State.{allocate}
use rustygear.Service.State.{fetch_add}
use rustygear.Worker.{queue_wake}
use rustygear.Service.State.{with_workers}
use rustygear.Service.State.{with_queues}
use rustygear.Admin.{admin_command_status}
use rustygear.Job.{Arc}
use rustygear.Outcome.{ok, panic}
use rustygear.Packet.{new_text_res, Packet, req, next_field}
use rustygear.Prelude.{
  suc, ◌^◌, ◌%◌, ◌+◌, nat_beq, ◌++◌, ◌||◌, if◌then◌else◌, ◌==◌, ◌&&◌, ℕ, ◌≡◌, ◌<◌, refl, true,
  false, none, some, List, [], ◌∷◌, arith, Bytes, bytes_eq, nat_eq, codes, length,
}
use rustygear.Prelude.Assoc
use rustygear.Prelude.Finite
use rustygear.Queues.{new_job_storage, coalesce_unique, func_queues}
use rustygear.Service.{call, arm, submit, update}
use rustygear.Service.Created.{noops, payload_of, Healthy, fname_of, unique_of, job_of}
use rustygear.Service.Begun.{handle_submit_job_new, queue_at}
use rustygear.Service.Known.{handle_submit_job_known, is_remote}
use rustygear.Service.Waiters.{waiters_of, joining}
use rustygear.Tests.Queues.{first, one-Agrees}
use rustygear.Service.Missing.{missing_waiter-Silent}
use rustygear.Service.Poison.{run, Silent, WaitersPoisoned, poisoned-Silent}
use rustygear.Service.State.{Server, GearmanService}
use rustygear.Service.Submit.{handle_submit_job, handle_of, job_created, add_waiter}
use rustygear.Tests.Instances.{list_set}
use rustygear.Worker.{new_workers}
use rustygear.Worker.Presence.{presence, woken, is_sleeper}

-- A server with one connection, 5, on the channel 1.
abbrev pub start : Server (List Bytes)
start = record {
  queues = record { value = new_job_storage; poisoned = false };
  workers = record { value = new_workers; poisoned = false };
  job_count = 3;
  senders = record { value = (5, 1) ∷ []; poisoned = false };
  cells =
      (
        5,
        record {
          value = record { peer_addr = []; functions = []; client_id = []; jobs = [] };
          poisoned = false;
        },
      )
      ∷ [];
  workers_by_conn = record { value = (5, 5) ∷ []; poisoned = false };
  job_waiters = record { value = []; poisoned = false };
  next_alloc = 0;
  sent = [];
}

abbrev pub five : GearmanService
five = record { conn_id = 5; worker = 5 }

abbrev submission : Packet
submission = record { magic = req; ptype = 7; psize = 5; body = b'f' ∷ 0 ∷ b'u' ∷ 0 ∷ b'x' ∷ [] }

-- The state after the submission, with connection 5 as the waiter.
abbrev pub after : Server (List Bytes)
after = (handle_submit_job five 1 true submission start).1

submission-run :
    (handle_submit_job five 1 true submission start).0 ≡ ok (job_created (codes "H:0000000003"))
unfolding handle_submit_job with_queues coalesce_unique Assoc.get new_job_storage with_workers
    queue_wake new_workers fetch_add allocate add_job push_back func_queues with_waiters handle_of
    show_padded
submission-run = refl

status-run : (admin_command_status after).0 ≡ ok (new_text_res (codes "f\t1\t0\t0\n.\n"))
unfolding admin_command_status queue_total status_line status_lines new_text_res count_workers
    handle_submit_job with_queues coalesce_unique Assoc.get new_job_storage with_workers queue_wake
    new_workers fetch_add allocate add_job push_back func_queues with_waiters Assoc.insert Job.new
    next_field position with_senders add_waiter answer_created coalesce create_job handle_of
    job_created obtain_handle store_job wake_all wake_list show digits show_padded zeros
status-run = refl

pub start-Healthy : Healthy start
start-Healthy = record { queues = refl; workers = refl; senders = refl; waiters = refl }

no_job : Assoc.get (unique_of submission) start.queues.value.jobs ≡ none
unfolding new_job_storage Assoc.get
no_job = refl

fits : 1 < length (func_queues (fname_of submission) start.queues.value.queues)
unfolding new_job_storage Assoc.get func_queues
fits = omega arith

pub after-Healthy : Healthy after
unfolding handle_submit_job with_queues coalesce_unique Assoc.get new_job_storage with_workers
    queue_wake new_workers fetch_add allocate add_job push_back func_queues with_waiters
after-Healthy = record { queues = refl; workers = refl; senders = refl; waiters = refl }

known_job :
    Assoc.get (unique_of submission) after.queues.value.jobs ≡ some (job_of submission start)
unfolding handle_submit_job with_queues coalesce_unique Assoc.get new_job_storage with_workers
    queue_wake new_workers fetch_add allocate add_job push_back func_queues with_waiters
    Assoc.insert Job.new next_field position with_senders add_waiter answer_created coalesce
    create_job handle_of job_created obtain_handle store_job wake_all wake_list show digits
    show_padded zeros
known_job = refl

-- A worker, 6, reports on the job of a handle for which a connection waits that has gone.
abbrev pub progress : Packet
progress = record { magic = req; ptype = 12; psize = 4; body = b'h' ∷ 0 ∷ b'1' ∷ [] }

abbrev gone : Server (List Bytes)
gone = record start { job_waiters = record { value = (b'h' ∷ [], 9 ∷ []) ∷ []; poisoned = false } }

progress-arm : arm progress.ptype ≡ update
unfolding arm
progress-arm = refl

submission-arm : arm submission.ptype ≡ submit 1 true
unfolding arm
submission-arm = refl

progress-waiters : Assoc.get (next_field progress.body).0 gone.job_waiters.value ≡ some (9 ∷ [])
unfolding next_field Assoc.get position
progress-waiters = refl

nine_waits : Finite.contains {A = ℕ} 9 (9 ∷ []) ≡ true
unfolding Finite.contains
nine_waits = refl

nine_gone : Assoc.get 9 gone.senders.value ≡ none
unfolding Assoc.get
nine_gone = refl

missing_waiter-Silent_example :
    ((call false five progress gone).0 ≡ panic)
    × Silent (
        call true five submission
          (run ((false, five, submission) ∷ []) (call false five progress gone).1))
missing_waiter-Silent_example =
    missing_waiter-Silent five five progress submission gone (9 ∷ []) 9 1
      ((false, five, submission) ∷ []) true true progress-arm progress-waiters nine_waits nine_gone
      submission-arm

abbrev poisoned : Server (List Bytes)
poisoned = record start { job_waiters = record { value = []; poisoned = true } }

poisoned-Silent_example :
    WaitersPoisoned (run ((false, five, progress) ∷ []) poisoned)
    × Silent (call false five submission (run ((false, five, progress) ∷ []) poisoned))
poisoned-Silent_example =
    poisoned-Silent ((false, five, progress) ∷ []) poisoned false five submission 1 true refl
      submission-arm

-- The worker of connection 5 sleeps when connection 5 submits a job.
abbrev resting : Server (List Bytes)
resting = record start {
  workers = record {
    value = record {
      allworkers = (b'f' ∷ [], record { inactive = 5 ∷ []; active = [] }) ∷ [];
      wakeworkers = [];
    };
    poisoned = false;
  };
}

resting-Healthy : Healthy resting
resting-Healthy = record { queues = refl; workers = refl; senders = refl; waiters = refl }

handle_submit_job_new_example :
    let (answer, left) = handle_submit_job five 1 true submission resting in
    let handle = handle_of resting.job_count in
    let before = resting.queues.value in
    let now = left.queues.value in
    let job : Arc = record {
      alloc = resting.next_alloc;
      job = record {
        handle = handle;
        fname = fname_of submission;
        unique = unique_of submission;
        payload = payload_of submission;
      };
    } in
    (answer ≡ ok (job_created handle))
    × (Assoc.get (b'u' ∷ []) now.jobs ≡ (
        if unique_of submission == (b'u' ∷ [])
        then some job
        else Assoc.get (b'u' ∷ []) before.jobs))
    × (queue_at 1 (func_queues (b'f' ∷ []) now.queues) ≡ (
        if fname_of submission == (b'f' ∷ []) && nat_beq 1 1
        then queue_at 1 (func_queues (b'f' ∷ []) before.queues) ++ job ∷ []
        else queue_at 1 (func_queues (b'f' ∷ []) before.queues)))
    × (Assoc.get (b'u' ∷ []) now.remotes_by_unique ≡ (
        if unique_of submission == (b'u' ∷ [])
        then some (joining true 5)
        else Assoc.get (b'u' ∷ []) before.remotes_by_unique))
    × (Assoc.get (handle_of 3) now.remotes_by_handle ≡ (
        if handle == (handle_of 3)
        then some (joining true 5)
        else Assoc.get (handle_of 3) before.remotes_by_handle))
    × (Assoc.get (handle_of 3) left.job_waiters.value ≡ (
        if handle == (handle_of 3)
        then some (waiters_of handle resting.job_waiters.value ++ joining true 5)
        else Assoc.get (handle_of 3) resting.job_waiters.value))
    × (presence (b'f' ∷ []) 5 left.workers.value.allworkers ≡ (
        if fname_of submission == (b'f' ∷ [])
        then woken (presence (b'f' ∷ []) 5 resting.workers.value.allworkers)
        else presence (b'f' ∷ []) 5 resting.workers.value.allworkers))
    × ((cs : List ℕ) × (left.sent ≡ resting.sent ++ noops cs resting.senders.value)
        × ((k : ℕ)
            → Finite.contains k cs
              ≡ is_sleeper (presence (fname_of submission) k resting.workers.value.allworkers)))
    × (left.job_count ≡ (resting.job_count + 1) % 2 ^ 64)
    × (left.next_alloc ≡ suc resting.next_alloc)
    × (left.cells ≡ resting.cells)
    × (left.senders ≡ resting.senders)
handle_submit_job_new_example =
    handle_submit_job_new five 1 true submission resting (b'f' ∷ []) (b'u' ∷ []) (handle_of 3) 1 5
      resting-Healthy no_job fits

-- Connection 6 asks for the job for which connection 7 waits.
abbrev six : GearmanService
six = record { conn_id = 6; worker = 5 }

abbrev shared : Server (List Bytes)
shared = record start {
  queues = record { value = (add_job first 0 (some 7) new_job_storage).1; poisoned = false };
}

shared-Healthy : Healthy shared
shared-Healthy = record { queues = refl; workers = refl; senders = refl; waiters = refl }

shared_job : Assoc.get (unique_of submission) shared.queues.value.jobs ≡ some first
unfolding next_field position new_job_storage Assoc.get Assoc.insert add_job push_back func_queues
    Job.new
shared_job = refl

handle_submit_job_known_example :
    let (answer, left) = handle_submit_job six 0 true submission shared in
    let before = shared.queues.value in
    let now = left.queues.value in
    (answer ≡ ok (job_created first.job.handle))
    × (now.jobs ≡ before.jobs)
    × (now.queues ≡ before.queues)
    × (is_remote 6 (Assoc.get (unique_of submission) now.remotes_by_unique) ≡ (
        true && six.conn_id == 6
        || is_remote 6 (Assoc.get (unique_of submission) before.remotes_by_unique)))
    × (is_remote 6 (Assoc.get first.job.handle now.remotes_by_handle) ≡ (
        true && six.conn_id == 6
        || is_remote 6 (Assoc.get first.job.handle before.remotes_by_handle)))
    × (Assoc.get first.job.handle left.job_waiters.value ≡ (
        if first.job.handle == first.job.handle
        then some (waiters_of first.job.handle shared.job_waiters.value ++ joining true 6)
        else Assoc.get first.job.handle shared.job_waiters.value))
    × (left.sent ≡ shared.sent)
    × (left.workers ≡ shared.workers)
    × (left.job_count ≡ shared.job_count)
    × (left.cells ≡ shared.cells)
handle_submit_job_known_example =
    handle_submit_job_known six 0 true submission shared first 6 first.job.handle shared-Healthy
      one-Agrees shared_job
