-- ===== src/Service/Ended.antt =====
-- What is left of a job after `handle_work_complete` of rustygeard/src/service.rs.
use rustygear.Job.{Arc}
use rustygear.Outcome.{ok}
use rustygear.Packet.{Packet, no_response, next_field}
use rustygear.Prelude.{
  inl, inr, Option-cases, ℕ, ◌≡◌, refl, false, none, some, List, ◌++◌, Bytes, bytes_eq, nat_eq,
  ◌==◌, if◌then◌else◌,
}
use rustygear.Prelude.Assoc
use rustygear.Prelude.Assoc.{get-insert, get-remove}
use rustygear.Queues.{JobStorage, remove_job}
use rustygear.Service.Completed.{deliveries, Connected, work_complete-delivers}
use rustygear.Service.Created.{Healthy}
use rustygear.Service.Handlers.{handle_work_complete}
use rustygear.Service.State.{Server, GearmanService}
use rustygear.Worker.{Worker, get_assigned_job, unassign_job}

-- The vector of remotes of the job that is removed goes with it, and the others stay.
remotes_left :
    (u h : Bytes) (s : JobStorage)
    → Assoc.get h (remove_job u s).remotes_by_handle ≡ (elim (Assoc.get u s.jobs) [
      | none ↦ Assoc.get h s.remotes_by_handle
      | some b ↦ if b.job.handle == h then none else Assoc.get h s.remotes_by_handle
    ])
unfolding remove_job
remotes_left u h s = elim (Option-cases (Assoc.get u s.jobs)) [
  | inl e ↦ rw (e, remove_job) refl
  | inr (b, e) ↦ rw (e, remove_job) (get-remove b.job.handle h s.remotes_by_handle)
]

module _ {F : Type 0} where
  -- While no mutex that a submission takes is poisoned nor that of the worker and all the waiters
  -- of the job are connected, WORK_COMPLETE for a job that the worker has answers nothing and adds
  -- one send of the packet for each waiter, in order; afterwards the storage has no job under the
  -- unique id and no set of remotes for it, nor the vector of remotes of a job that was stored
  -- under it, the handle has no entry in the table of waiters, and the worker has no job under the
  -- handle; every other job, set and vector of remotes, entry of waiters, cell, and job of the
  -- worker stays as it was, as do the queues, the worker's functions, the table of workers and the
  -- senders.
  pub handle_work_complete-deliveries :
      (svc : GearmanService) (p : Packet) (st : Server F) (worker : Worker F) (a : Arc)
      (cs : List ℕ) (u h : Bytes) (k : ℕ)
      → Healthy st
      → Assoc.get svc.worker st.cells ≡ some (record { value = worker; poisoned = false })
      → get_assigned_job (next_field p.body).0 worker ≡ some a
      → Assoc.get (next_field p.body).0 st.job_waiters.value ≡ some cs
      → Connected cs st.senders.value
      → let (answer, after) = handle_work_complete svc p st in
        let handle : Bytes = (next_field p.body).0 in
        (answer ≡ ok no_response)
        × (after.sent ≡ st.sent ++ deliveries cs p st.senders.value)
        × (Assoc.get u after.queues.value.jobs
            ≡ (if a.job.unique == u then none else Assoc.get u st.queues.value.jobs))
        × (Assoc.get u after.queues.value.remotes_by_unique
            ≡ (if a.job.unique == u then none else Assoc.get u st.queues.value.remotes_by_unique))
        × (Assoc.get h after.queues.value.remotes_by_handle
            ≡ (elim (Assoc.get a.job.unique st.queues.value.jobs) [
              | none ↦ Assoc.get h st.queues.value.remotes_by_handle
              | some b ↦
                  if b.job.handle == h then none else Assoc.get h st.queues.value.remotes_by_handle
            ]))
        × (after.queues.value.queues ≡ st.queues.value.queues)
        × (Assoc.get h after.job_waiters.value
            ≡ (if handle == h then none else Assoc.get h st.job_waiters.value))
        × ((worker' : Worker F) × (Assoc.get k after.cells ≡ (
              if svc.worker == k
              then some (record { value = worker'; poisoned = false })
              else Assoc.get k st.cells))
            × (get_assigned_job h worker'
                ≡ (if handle == h then none else get_assigned_job h worker))
            × (worker'.functions ≡ worker.functions))
        × (after.workers ≡ st.workers)
        × (after.senders ≡ st.senders)
  unfolding remove_job unassign_job get_assigned_job
  handle_work_complete-deliveries svc p st worker a cs u h k good e has waits here =
      let handle : Bytes = (next_field p.body).0 in
      rw (work_complete-delivers svc p st worker a cs good e has waits here) (
        refl,
        refl,
        get-remove a.job.unique u st.queues.value.jobs,
        get-remove a.job.unique u st.queues.value.remotes_by_unique,
        remotes_left a.job.unique h st.queues.value,
        refl,
        get-remove handle h st.job_waiters.value,
        (
          unassign_job handle worker,
          get-insert svc.worker k _ st.cells,
          get-remove handle h worker.jobs,
          refl,
        ),
        refl,
        refl,
      )
