-- ===== src/Service/Journey.antt =====
-- A job from its submission to its end, over the handlers of rustygeard/src/service.rs.
use rustygear.Constants
use rustygear.Job
use rustygear.Job.{Arc}
use rustygear.Outcome.{ok}
use rustygear.Packet.{Packet, no_response, new_res, next_field}
use rustygear.Prelude.{
  ℕ, zero, suc, ◌<◌, ◌≡◌, refl, ap, ◌∙◌, Bool, true, false, Option, none, some, List, [], ◌∷◌, ◌++◌,
  arith, Bytes, bytes_eq, nat_eq, nat_beq_iff, bytes_beq_iff, ◌==◌, length,
}
use rustygear.Prelude.Assoc
use rustygear.Prelude.Assoc.{Map, get-insert, get-remove}
use rustygear.Queues.{
  JobQueue, JobStorage, add_job, func_queues, holds, push_back, empty_queues, get_job, remove_job,
}
use rustygear.Queues.Grab.{owned, get_job-Serves}
use rustygear.Queues.Jobs.{push_back-some}
use rustygear.Queues.Remotes.{beq_false}
use rustygear.Queues.Search.{func_queues-insert, in_order, Serves}
use rustygear.Service.Completed.{deliveries, Connected, put_worker-some, work_complete-delivers}
use rustygear.Service.Created.{Healthy, fname_of, unique_of, remote_of, job_of, created, submit-new}
use rustygear.Service.Handlers.{
  is_some, assign_body, handle_grab, handle_grab_job, handle_work_complete, job_answer, take_job,
}
use rustygear.Service.Locks.{with_queues-open, with_worker-open}
use rustygear.Service.Race.{add_job-jobs}
use rustygear.Service.State.{Server, GearmanService, put_waiters, held_by}
use rustygear.Service.Submit.{add_waiter, handle_of, job_created, handle_submit_job}
use rustygear.Worker.{WrappingSet, Worker, get_assigned_job}

-- A job that comes into empty queues is the only one.
pushed :
    (i : ℕ) (a : Arc) (rs : List JobQueue)
    → i < 3
    → push_back i a empty_queues ≡ some rs
    → in_order rs ≡ a ∷ []
unfolding push_back in_order
pushed zero a rs l e = ground (arith, e)
pushed (suc zero) a rs l e = ground (arith, e)
pushed (suc (suc zero)) a rs l e = ground (arith, e)
pushed (suc (suc (suc n))) a rs l e = absurd (omega arith)

add_job-in_order :
    (a : Arc) (i : ℕ) (r : Option ℕ) (s : JobStorage)
    → i < 3
    → func_queues a.job.fname s.queues ≡ empty_queues
    → in_order (func_queues a.job.fname (add_job a i r s).1.queues) ≡ a ∷ []
unfolding add_job
add_job-in_order a i r s l e =
    let (rs, p) = push_back-some i a empty_queues (omega arith) in
    rw (e, add_job)
      (rw (p, add_job)
        (rw
          (
            func_queues-insert a.job.fname a.job.fname rs s.queues,
            (bytes_beq_iff a.job.fname a.job.fname).1 refl,
          )
          (pushed i a rs l p)))

holds-insert_own :
    (u : Bytes) (a : Arc) (m : Map Bytes Arc) → holds a.alloc (Assoc.insert u a m) ≡ true
unfolding holds Assoc.insert
holds-insert_own u a [] = ground (arith, nat_beq_iff a.alloc a.alloc)
holds-insert_own u a ((t, c) ∷ m) =
    ground (arith, nat_beq_iff a.alloc a.alloc, holds-insert_own u a m)

-- From a queue of one live job, that job is served.
Serves-one :
    (alive : ℕ → Bool) (a : Arc) (o : Option Arc) (rest : JobQueue)
    → alive a.alloc ≡ true
    → Serves alive (a ∷ []) o rest
    → o ≡ some a
Serves-one alive a none rest l (d, r) = absurd (ground (arith, l, d.0))
Serves-one alive a (some b) rest l ([], d, m, e) = cc
Serves-one alive a (some b) rest l (x ∷ [], d, m, e) = absurd (ground (arith, e))
Serves-one alive a (some b) rest l (x ∷ (y ∷ dead), d, m, e) = absurd (ground (arith, e))

module _ {F : Type 0} ⦃w : WrappingSet F⦄ where
  -- The state after a worker took a job.
  abbrev taken : ℕ → Worker F → Server F → Server F
  taken k worker st =
      let r = get_job (held_by st.cells) worker st.queues.value in
      record st {
        queues = record st.queues { value = r.2 };
        cells = Assoc.insert k (record { value = r.1; poisoned = false }) st.cells;
      }

  grab-Open :
      (svc : GearmanService) (worker : Worker F) (a : Arc) (st : Server F)
      → st.queues.poisoned ≡ false
      → Assoc.get svc.worker st.cells ≡ some (record { value = worker; poisoned = false })
      → (get_job (held_by st.cells) worker st.queues.value).0 ≡ some a
      → handle_grab_job svc st
        ≡ (ok (new_res Constants.job_assign (assign_body a.job)), taken svc.worker worker st)
  unfolding handle_grab_job handle_grab take_job job_answer
  grab-Open svc worker a st good e found =
      with_worker-open svc.worker _ st _ e refl
      ∙ rw (with_queues-open _ st good) (
          rw
            (put_worker-some svc.worker (get_job (held_by st.cells) worker st.queues.value).1 _ st
              e)
            (rw (found, job_answer) refl))

-- The first connection that waits for a handle, and an entry that was taken out.
add_waiter-first :
    (h : Bytes) (c : ℕ) (m : Map Bytes (List ℕ))
    → Assoc.get h m ≡ none
    → Assoc.get h (add_waiter h true c m) ≡ some (c ∷ [])
unfolding add_waiter
add_waiter-first h c m e =
    rw (e, add_waiter) (get-insert h h (c ∷ []) m ∙ rw ((bytes_beq_iff h h).1 refl) refl)

removed_key {ℓ} : {A : Type ℓ} (k : Bytes) (m : Map Bytes A) → Assoc.get k (Assoc.remove k m) ≡ none
removed_key k m = get-remove k k m ∙ rw ((bytes_beq_iff k k).1 refl) refl

deliveries-one :
    (c tx : ℕ) (p : Packet) (m : Map ℕ ℕ)
    → Assoc.get c m ≡ some tx
    → deliveries (c ∷ []) p m ≡ (tx, p) ∷ []
unfolding deliveries
deliveries-one c tx p m e = rw (e, deliveries) refl

Connected-one : (c tx : ℕ) (m : Map ℕ ℕ) → Assoc.get c m ≡ some tx → Connected (c ∷ []) m
unfolding is_some
Connected-one c tx m e = (rw (e, is_some) refl, tt)

-- What `get_job` gives to a worker with one function, of which there is one job.
longer : (f : Bytes) → (f == 0 ∷ f) ≡ false
longer f =
    beq_false f (0 ∷ f) λ e. let n : length f ≡ length (0 ∷ f) = ap length e in absurd (omega arith)

module _ {F : Type 0} ⦃w : WrappingSet F⦄ (held : ℕ → Bool) (worker : Worker F) (a : Arc) (i : ℕ)
    (r : Option ℕ) (s : JobStorage) where
  abbrev grabbed : Option Arc × Worker F × JobStorage
  grabbed = get_job held worker (add_job a i r s).1

  get_job-add_job :
      i < 3
      → func_queues a.job.fname s.queues ≡ empty_queues
      → (w.iter worker.functions).0 ≡ a.job.fname ∷ []
      → (grabbed.0 ≡ some a)
        × (get_assigned_job a.job.handle grabbed.1 ≡ some a)
        × (grabbed.2.jobs ≡ Assoc.insert a.job.unique a s.jobs)
  get_job-add_job l e only =
      let (served, has, others, jobs) =
        get_job-Serves held worker (add_job a i r s).1 a.job.fname (0 ∷ a.job.fname) only
          (longer a.job.fname) in
      let stored = add_job-jobs a i s r (rw e (omega arith)) in
      let alive : owned held (add_job a i r s).1 a.alloc ≡ true =
        rw stored (ground (arith, holds-insert_own a.job.unique a s.jobs)) in
      let found : grabbed.0 ≡ some a =
        Serves-one (owned held (add_job a i r s).1) a grabbed.0
          (in_order (func_queues a.job.fname grabbed.2.queues)) alive
          (rw (add_job-in_order a i r s l e) at served) in
      (found, rw found at has, jobs ∙ stored)

module _ {F : Type 0} ⦃w : WrappingSet F⦄ (client maker : GearmanService) (i : ℕ) (p q : Packet)
    (st : Server F) (worker : Worker F) (tx : ℕ) where
  abbrev submitted : Server F
  submitted =
      put_waiters (add_waiter (handle_of st.job_count) true client.conn_id st.job_waiters.value)
        (created i (remote_of client true) p st)

  -- A job that a waiting client submits, a worker grabs and the same worker completes, one after
  -- the other: while no mutex that a submission takes is poisoned nor that of the worker, the
  -- unique id is new, the function has no queued jobs and is the only one of the worker, the client
  -- is connected, and the new handle has no waiters, the client is answered with the handle, the
  -- worker with the job, and WORK_COMPLETE for that handle adds one send, of that packet to the
  -- client, after which neither the job nor waiters of the handle are left.
  pub handle_work_complete-handle_submit_job :
      Healthy st
      → i < 3
      → Assoc.get (unique_of p) st.queues.value.jobs ≡ none
      → func_queues (fname_of p) st.queues.value.queues ≡ empty_queues
      → Assoc.get maker.worker st.cells ≡ some (record { value = worker; poisoned = false })
      → (w.iter worker.functions).0 ≡ fname_of p ∷ []
      → Assoc.get client.conn_id st.senders.value ≡ some tx
      → Assoc.get (handle_of st.job_count) st.job_waiters.value ≡ none
      → (next_field q.body).0 ≡ handle_of st.job_count
      → let (answer, st1) = handle_submit_job client i true p st in
        let (assigned, st2) = handle_grab_job maker st1 in
        let (reported, st3) = handle_work_complete maker q st2 in
        (answer ≡ ok (job_created (handle_of st.job_count)))
        × (assigned ≡ ok (new_res Constants.job_assign (assign_body (job_of p st).job)))
        × (reported ≡ ok no_response)
        × (st3.sent ≡ st1.sent ++ (tx, q) ∷ [])
        × (Assoc.get (unique_of p) st3.queues.value.jobs ≡ none)
        × (Assoc.get (handle_of st.job_count) st3.job_waiters.value ≡ none)
  unfolding Job.new remove_job
  handle_work_complete-handle_submit_job good l new empty here only linked fresh names =
      let a = job_of p st in
      let (found, has, jobs) =
        get_job-add_job (held_by st.cells) worker a i (remote_of client true) st.queues.value l
          empty only in
      let worker' = (get_job (held_by st.cells) worker submitted.queues.value).1 in
      let after = taken maker.worker worker submitted in
      let still : Healthy after = record {
        queues = good.queues;
        workers = good.workers;
        senders = good.senders;
        waiters = good.waiters;
      } in
      let cell : Assoc.get maker.worker after.cells
          ≡ some (record { value = worker'; poisoned = false }) =
        get-insert maker.worker maker.worker _ st.cells
        ∙ rw ((nat_beq_iff maker.worker maker.worker).1 refl) refl in
      let waits : Assoc.get (next_field q.body).0 after.job_waiters.value
          ≡ some (client.conn_id ∷ []) =
        rw names
          (add_waiter-first (handle_of st.job_count) client.conn_id st.job_waiters.value fresh) in
      rw (submit-new client i true p st good new (rw empty (omega arith))) (
        rw (grab-Open maker worker a submitted good.queues here found) (
          rw
            (work_complete-delivers maker q after worker' a (client.conn_id ∷ []) still cell
              (rw names has) waits (Connected-one client.conn_id tx st.senders.value linked))
            (
              refl,
              refl,
              refl,
              ap (λ (l : List (ℕ × Packet)). submitted.sent ++ l)
                  (deliveries-one client.conn_id tx q st.senders.value linked),
              removed_key (unique_of p) _,
              rw names (removed_key (handle_of st.job_count) _),
            )))
