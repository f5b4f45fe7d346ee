-- ===== src/Service/Created.antt =====
-- What `handle_submit_job` of rustygeard/src/service.rs does with a job, new or known, while no
-- mutex is poisoned.
use rustygear.Job
use rustygear.Job.{Arc}
use rustygear.Outcome.{Outcome, ok}
use rustygear.Packet.{Packet, next_field}
use rustygear.Prelude.{
  length, ℕ, suc, ◌+◌, ◌%◌, ◌^◌, ◌<◌, ◌≡◌, refl, ap, sym, ◌∙◌, Bool, false, Option, none, some,
  List, [], ◌∷◌, ◌++◌, append_assoc, append-nil, Bytes, bytes_eq, nat_eq, if◌then◌else◌,
}
use rustygear.Prelude.Assoc
use rustygear.Prelude.Assoc.{Map}
use rustygear.Queues.{coalesce_unique, add_job, func_queues}
use rustygear.Queues.Jobs.{add_job-ok}
use rustygear.Queues.Remotes.{coalesce_unique-known, coalesce_unique-new}
use rustygear.Service.Locks.{
  with_senders-open, with_waiters-open, with_queues-open, with_workers-open,
}
use rustygear.Service.State.{
  Server, GearmanService, pure, continue, release, poison_senders, spawn_send, put_queues,
  put_waiters, put_workers, fetch_add, allocate,
}
use rustygear.Service.Submit.{
  handle_submit_job, coalesce, obtain_handle, answer_created, create_job, wake_list, wake_one,
  wake_all, store_job, add_waiter, job_created, handle_of, new_noop,
}
use rustygear.Worker.{queue_wake}

-- No lock that a submission takes is poisoned.
pub record Healthy {F : Type 0} (st : Server F) : Type 0 where
  pub queues : st.queues.poisoned ≡ false
  pub workers : st.workers.poisoned ≡ false
  pub senders : st.senders.poisoned ≡ false
  pub waiters : st.job_waiters.poisoned ≡ false

-- The three fields of a submission, and the connection that waits for it.
abbrev pub fname_of : Packet → Bytes
fname_of p = (next_field p.body).0

abbrev pub unique_of : Packet → Bytes
unique_of p = (next_field (next_field p.body).1).0

abbrev pub payload_of : Packet → Bytes
payload_of p = (next_field (next_field p.body).1).1

abbrev pub remote_of : GearmanService → Bool → Option ℕ
remote_of svc wait = if wait then some svc.conn_id else none

-- The sends of NOOP to those of some connections that are there.
abbrev pub noop_to : Option ℕ → List (ℕ × Packet)
noop_to none = []
noop_to (some tx) = (tx, new_noop) ∷ []

unfoldable pub noops : List ℕ → Map ℕ ℕ → List (ℕ × Packet)
noops [] m = []
noops (c ∷ cs) m = noop_to (Assoc.get c m) ++ noops cs m

module _ {F : Type 0} where
  -- The answer, and the waiters of the handle.
  pub answer_created-Healthy :
      (svc : GearmanService) (wait : Bool) (h : Bytes) (st : Server F)
      → st.job_waiters.poisoned ≡ false
      → answer_created svc wait h st
        ≡ (ok (job_created h), put_waiters (add_waiter h wait svc.conn_id st.job_waiters.value) st)
  unfolding answer_created
  answer_created-Healthy svc wait h st good =
      ap (λ (r : Outcome (Unit {0}) × Server F). continue r (λ _. pure (job_created h)))
        (with_waiters-open _ st good)

  pub coalesce-Healthy :
      (u : Bytes) (r : Option ℕ) (st : Server F)
      → st.queues.poisoned ≡ false
      → coalesce u r st ≡ (
        ok (coalesce_unique u r st.queues.value).0,
        put_queues (coalesce_unique u r st.queues.value).1 st,
      )
  unfolding coalesce
  coalesce-Healthy u r st good = with_queues-open _ st good

  wake_list-Healthy :
      (f : Bytes) (st : Server F)
      → st.workers.poisoned ≡ false
      → wake_list f st
        ≡ (ok (queue_wake f st.workers.value).0, put_workers (queue_wake f st.workers.value).1 st)
  unfolding wake_list
  wake_list-Healthy f st good = with_workers-open _ st good

  abbrev pub sending : List (ℕ × Packet) → Server F → Server F
  sending ps st = record st { sent = st.sent ++ ps }

  wake_one-Healthy :
      (o : Option ℕ) (st : Server F)
      → release poison_senders (wake_one o st) ≡ (ok tt, sending (noop_to o) st)
  unfolding wake_one spawn_send
  wake_one-Healthy none st =
      ap
        (λ (l : List (ℕ × Packet)).
          let r : Outcome (Unit {0}) × Server F = (ok tt, record st { sent = l }) in r)
        (sym (append-nil st.sent))
  wake_one-Healthy (some tx) st = refl

  -- The sleepers that are there get a NOOP each, in order, and nothing else changes.
  wake_all-Healthy :
      (cs : List ℕ) (st : Server F)
      → st.senders.poisoned ≡ false
      → wake_all cs st ≡ (ok tt, sending (noops cs st.senders.value) st)
  unfolding wake_all noops
  wake_all-Healthy [] st good = wake_one-Healthy none st
  wake_all-Healthy (c ∷ cs) st good =
      let o = Assoc.get c st.senders.value in
      ap (λ (r : Outcome (Unit {0}) × Server F). continue r (λ _. wake_all cs))
        (with_senders-open (λ senders. wake_one (Assoc.get c senders)) st good
          ∙ wake_one-Healthy o st)
      ∙ wake_all-Healthy cs (sending (noop_to o) st) good
      ∙ ap
          (λ (l : List (ℕ × Packet)).
            let r : Outcome (Unit {0}) × Server F = (ok tt, record st { sent = l }) in r)
          (append_assoc st.sent (noop_to o) (noops cs st.senders.value))

  store_job-Healthy :
      (a : Arc) (i : ℕ) (r : Option ℕ) (st : Server F)
      → st.queues.poisoned ≡ false
      → (add_job a i r st.queues.value).0 ≡ ok tt
      → store_job a i r st ≡ (ok tt, put_queues (add_job a i r st.queues.value).1 st)
  unfolding store_job
  store_job-Healthy a i r st good e = with_queues-open _ st good ∙ rw e refl

  -- The job that a submission makes.
  abbrev pub job_of : Packet → Server F → Arc
  job_of p st = record {
    alloc = st.next_alloc;
    job = Job.new (fname_of p) (unique_of p) (payload_of p) (handle_of st.job_count);
  }

  -- The state after a job was created, before the waiters are told.
  abbrev pub created : ℕ → Option ℕ → Packet → Server F → Server F
  created i remote p st = record st {
    queues = record st.queues { value = (add_job (job_of p st) i remote st.queues.value).1 };
    workers = record st.workers { value = (queue_wake (fname_of p) st.workers.value).1 };
    job_count = (st.job_count + 1) % 2 ^ 64;
    next_alloc = suc st.next_alloc;
    sent = st.sent ++ noops (queue_wake (fname_of p) st.workers.value).0 st.senders.value;
  }

  pub create_job-Healthy :
      (i : ℕ) (remote : Option ℕ) (p : Packet) (st : Server F)
      → Healthy st
      → (add_job (job_of p st) i remote st.queues.value).0 ≡ ok tt
      → create_job i remote (fname_of p) (unique_of p) (payload_of p) st
        ≡ (ok (handle_of st.job_count), created i remote p st)
  unfolding create_job fetch_add allocate
  create_job-Healthy i remote p st good e =
      let woken = put_workers (queue_wake (fname_of p) st.workers.value).1 st in
      let told =
        sending (noops (queue_wake (fname_of p) st.workers.value).0 st.senders.value) woken in
      let counted = record told {
        job_count = (st.job_count + 1) % 2 ^ 64;
        next_alloc = suc st.next_alloc;
      } in
      rw (wake_list-Healthy (fname_of p) st good.workers) (
        rw (wake_all-Healthy (queue_wake (fname_of p) st.workers.value).0 woken good.senders)
          (rw (store_job-Healthy (job_of p st) i remote counted good.queues e)))

  -- While no mutex that a submission takes is poisoned, a submission whose unique id has a job is
  -- answered with the handle of that job, whatever its function and payload, no job is made and
  -- nobody is woken, and the client joins the remotes and the waiters of that job.
  pub submit-known :
      (svc : GearmanService) (i : ℕ) (wait : Bool) (p : Packet) (st : Server F) (a : Arc)
      → Healthy st
      → Assoc.get (unique_of p) st.queues.value.jobs ≡ some a
      → handle_submit_job svc i wait p st ≡ (
        ok (job_created a.job.handle),
        put_waiters
            (add_waiter a.job.handle wait svc.conn_id st.job_waiters.value)
            (put_queues (coalesce_unique (unique_of p) (remote_of svc wait) st.queues.value).1 st),
      )
  unfolding handle_submit_job obtain_handle
  submit-known svc i wait p st a good e =
      rw (coalesce-Healthy (unique_of p) (remote_of svc wait) st good.queues) (
        rw (coalesce_unique-known (unique_of p) (remote_of svc wait) st.queues.value a e).0
          (answer_created-Healthy svc wait a.job.handle _ good.waiters))

  -- While no mutex that a submission takes is poisoned, a submission whose unique id has no job and
  -- whose priority is in range answers JOB_CREATED with the handle of the job count; the job is
  -- stored with the three fields of the packet and the connection that waits, the sleepers of its
  -- function that are connected get a NOOP each, the counters go on, and the client joins the
  -- waiters of the handle.
  pub submit-new :
      (svc : GearmanService) (i : ℕ) (wait : Bool) (p : Packet) (st : Server F)
      → Healthy st
      → Assoc.get (unique_of p) st.queues.value.jobs ≡ none
      → i < length (func_queues (fname_of p) st.queues.value.queues)
      → handle_submit_job svc i wait p st ≡ (
        ok (job_created (handle_of st.job_count)),
        put_waiters
            (add_waiter (handle_of st.job_count) wait svc.conn_id st.job_waiters.value)
            (created i (remote_of svc wait) p st),
      )
  unfolding handle_submit_job obtain_handle
  submit-new svc i wait p st good e fits =
      let stored =
        add_job-ok (job_of p st) i (remote_of svc wait) st.queues.value (unfold Job.new in fits) in
      rw (coalesce-Healthy (unique_of p) (remote_of svc wait) st good.queues) (
        rw (coalesce_unique-new (unique_of p) (remote_of svc wait) st.queues.value e) (
          rw (create_job-Healthy i (remote_of svc wait) p st good stored.0)
            (answer_created-Healthy svc wait (handle_of st.job_count) _ good.waiters)))
