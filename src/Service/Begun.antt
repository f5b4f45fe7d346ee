-- ===== src/Service/Begun.antt =====
-- What `handle_submit_job` of rustygeard/src/service.rs makes of a submission whose unique id is new.
use rustygear.Job
use rustygear.Job.{Arc}
use rustygear.Outcome.{ok}
use rustygear.Packet.{Packet}
use rustygear.Prelude.{
  ℕ, zero, suc, ◌+◌, ◌%◌, ◌^◌, ◌<◌, ◌≡◌, refl, Bool, true, false, ◌&&◌, Option, none, some, List,
  [], ◌∷◌, ◌++◌, Bytes, bytes_eq, nat_eq, bytes_beq_iff, nat_beq_iff, ◌==◌, if◌then◌else◌, length,
  arith, inl, inr, Bool-cases, ap, sym,
}
use rustygear.Prelude.Assoc
use rustygear.Prelude.Assoc.{get-insert}
use rustygear.Prelude.Finite
use rustygear.Queues.{first_remotes, JobQueue, JobStorage, add_job, func_queues, push_back}
use rustygear.Queues.Jobs.{push_back-some}
use rustygear.Queues.Search.{func_queues-insert}
use rustygear.Service.Created.{
  Healthy, fname_of, unique_of, payload_of, remote_of, noops, submit-new, job_of,
}
use rustygear.Service.State.{Server, GearmanService}
use rustygear.Service.Submit.{handle_submit_job, job_created, handle_of}
use rustygear.Service.Waiters.{waiters_of, joining, get-add_waiter}
use rustygear.Worker.{queue_wake}
use rustygear.Worker.Presence.{presence, woken, is_sleeper, queue_wake-presence}

-- The queue of a priority, empty out of range.
unfoldable pub queue_at : ℕ → List JobQueue → JobQueue
queue_at j [] = []
queue_at zero (q ∷ qs) = q
queue_at (suc j) (q ∷ qs) = queue_at j qs

-- `push_back` puts the job at the end of one queue, and leaves the others.
abbrev Pushed : ℕ → Arc → List JobQueue → List JobQueue → ℕ → Type 0
Pushed i a qs rs j = queue_at j rs ≡ (if i == j then queue_at j qs ++ a ∷ [] else queue_at j qs)

Pushed-front :
    (j : ℕ) (a : Arc) (q : JobQueue) (qs : List JobQueue)
    → Pushed 0 a (q ∷ qs) ((q ++ a ∷ []) ∷ qs) j
unfolding queue_at
Pushed-front zero a q qs = refl
Pushed-front (suc j) a q qs = ground (arith, nat_beq_iff 0 (suc j))

Pushed-later :
    (i j : ℕ) (a : Arc) (q : JobQueue) (qs rs : List JobQueue)
    → ((k : ℕ) → Pushed i a qs rs k)
    → Pushed (suc i) a (q ∷ qs) (q ∷ rs) j
unfolding queue_at
Pushed-later i zero a q qs rs h = ground (arith, nat_beq_iff (suc i) 0)
Pushed-later i (suc j) a q qs rs h =
    ground (arith, nat_beq_iff i j, nat_beq_iff (suc i) (suc j), h j)

push_back-Pushed :
    (i : ℕ) (a : Arc) (qs : List JobQueue)
    → i < length qs
    → (rs : List JobQueue) × (push_back i a qs ≡ some rs) × ((j : ℕ) → Pushed i a qs rs j)
unfolding push_back
push_back-Pushed i a [] l = absurd (omega arith)
push_back-Pushed zero a (q ∷ qs) l = ((q ++ a ∷ []) ∷ qs, refl, (λ j. Pushed-front j a q qs))
push_back-Pushed (suc i) a (q ∷ qs) l =
    let (rs, e, h) = push_back-Pushed i a qs (omega arith) in
    (q ∷ rs, rw (e, push_back) refl, (λ j. Pushed-later i j a q qs rs h))

-- The tables of the storage after a job was added with a priority in range.
module _ (a : Arc) (i : ℕ) (r : Option ℕ) (s : JobStorage)
    (fits : i < length (func_queues a.job.fname s.queues)) where
  queue_at-add_job :
      (f : Bytes) (j : ℕ)
      → queue_at j (func_queues f (add_job a i r s).1.queues) ≡ (
          if a.job.fname == f && i == j
          then queue_at j (func_queues f s.queues) ++ a ∷ []
          else queue_at j (func_queues f s.queues))
  unfolding add_job
  queue_at-add_job f j =
      let (rs, e, h) = push_back-Pushed i a (func_queues a.job.fname s.queues) fits in
      rw (e, add_job)
        (rw (func_queues-insert a.job.fname f rs s.queues) (elim (Bool-cases (a.job.fname == f)) [
          | inl same ↦
              rw
                (
                  same,
                  ap (λ (k : Bytes). func_queues k s.queues)
                      (sym ((bytes_beq_iff a.job.fname f).0 same)),
                )
                (h j)
          | inr other ↦ rw other refl
        ]))

  add_job-entries :
      (u h : Bytes)
      → (Assoc.get u (add_job a i r s).1.jobs
          ≡ (if a.job.unique == u then some a else Assoc.get u s.jobs))
        × (Assoc.get u (add_job a i r s).1.remotes_by_unique ≡ (
            if a.job.unique == u then some (first_remotes r) else Assoc.get u s.remotes_by_unique))
        × (Assoc.get h (add_job a i r s).1.remotes_by_handle ≡ (
            if a.job.handle == h then some (first_remotes r) else Assoc.get h s.remotes_by_handle))
  unfolding add_job
  add_job-entries u h =
      let (rs, e) = push_back-some i a (func_queues a.job.fname s.queues) fits in
      rw (e, add_job)
        (
          get-insert a.job.unique u a s.jobs,
          get-insert a.job.unique u (first_remotes r) s.remotes_by_unique,
          get-insert a.job.handle h (first_remotes r) s.remotes_by_handle,
        )

first_remotes-joining :
    (wait : Bool) (c : ℕ) → first_remotes (if wait then some c else none) ≡ joining wait c
first_remotes-joining true c = refl
first_remotes-joining false c = refl

module _ {F : Type 0} where
  -- While no mutex that a submission takes is poisoned, a submission whose unique id has no job and
  -- whose priority is in range answers JOB_CREATED with the handle of the job count and leaves:
  -- under its unique id a job with the next allocation, that handle and the three fields of the
  -- packet, and every other job as it was; that job at the end of the queue of its function and
  -- priority, and every other queue as it was; the connection, if it waits, as the one remote in
  -- both entries of the new job, and the other entries as they were; the connection, if it waits,
  -- after the waiters that the handle had, and the other waiters as they were; for the job's
  -- function everyone awake who was in a set, and other functions as they were; new sends that are
  -- a NOOP for each sender of those who slept for the function, and no others; the job count one
  -- further, wrapping at 2 ^ 64, and the worker cells and the senders as they were.
  pub handle_submit_job_new :
      (svc : GearmanService) (i : ℕ) (wait : Bool) (p : Packet) (st : Server F) (f u h : Bytes)
      (j c : ℕ)
      → Healthy st
      → Assoc.get (unique_of p) st.queues.value.jobs ≡ none
      → i < length (func_queues (fname_of p) st.queues.value.queues)
      → let (answer, after) = handle_submit_job svc i wait p st in
        let handle = handle_of st.job_count in
        let before = st.queues.value in
        let now = after.queues.value in
        let job : Arc = record {
          alloc = st.next_alloc;
          job = record {
            handle = handle;
            fname = fname_of p;
            unique = unique_of p;
            payload = payload_of p;
          };
        } in
        (answer ≡ ok (job_created handle))
        × (Assoc.get u now.jobs ≡ (if unique_of p == u then some job else Assoc.get u before.jobs))
        × (queue_at j (func_queues f now.queues) ≡ (
            if fname_of p == f && i == j
            then queue_at j (func_queues f before.queues) ++ job ∷ []
            else queue_at j (func_queues f before.queues)))
        × (Assoc.get u now.remotes_by_unique ≡ (
            if unique_of p == u
            then some (joining wait svc.conn_id)
            else Assoc.get u before.remotes_by_unique))
        × (Assoc.get h now.remotes_by_handle ≡ (
            if handle == h
            then some (joining wait svc.conn_id)
            else Assoc.get h before.remotes_by_handle))
        × (Assoc.get h after.job_waiters.value ≡ (
            if handle == h
            then some (waiters_of handle st.job_waiters.value ++ joining wait svc.conn_id)
            else Assoc.get h st.job_waiters.value))
        × (presence f c after.workers.value.allworkers ≡ (
            if fname_of p == f
            then woken (presence f c st.workers.value.allworkers)
            else presence f c st.workers.value.allworkers))
        × ((cs : List ℕ) × (after.sent ≡ st.sent ++ noops cs st.senders.value)
            × ((k : ℕ)
                → Finite.contains k cs
                  ≡ is_sleeper (presence (fname_of p) k st.workers.value.allworkers)))
        × (after.job_count ≡ (st.job_count + 1) % 2 ^ 64)
        × (after.next_alloc ≡ suc st.next_alloc)
        × (after.cells ≡ st.cells)
        × (after.senders ≡ st.senders)
  unfolding Job.new
  handle_submit_job_new svc i wait p st f u h j c good new fits =
      let a = job_of p st in
      let r = remote_of svc wait in
      let first = first_remotes-joining wait svc.conn_id in
      let (by_unique, by_set, by_vector) = add_job-entries a i r st.queues.value fits u h in
      let wakes = λ (k : ℕ). queue_wake-presence (fname_of p) f k st.workers.value in
      rw (submit-new svc i wait p st good new fits) (
        refl,
        by_unique,
        queue_at-add_job a i r st.queues.value fits f j,
        rw first at by_set,
        rw first at by_vector,
        get-add_waiter (handle_of st.job_count) h wait svc.conn_id st.job_waiters.value,
        (wakes c).1,
        ((queue_wake (fname_of p) st.workers.value).0, refl, (λ k. (wakes k).0)),
        refl,
        refl,
        refl,
        refl,
      )
