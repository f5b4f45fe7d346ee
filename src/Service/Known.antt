-- ===== src/Service/Known.antt =====
-- What `handle_submit_job` of rustygeard/src/service.rs changes when the unique id has a job.
use rustygear.Job.{Arc}
use rustygear.Outcome.{ok}
use rustygear.Packet.{Packet}
use rustygear.Prelude.{
  ℕ, ◌≡◌, refl, ◌∙◌, Bool, true, false, ◌&&◌, ◌||◌, Option, none, some, List, ◌++◌, Bytes, sym,
  bytes_eq, nat_eq, bytes_beq_iff, ◌==◌, if◌then◌else◌, ap, not,
}
use rustygear.Prelude.Assoc
use rustygear.Prelude.Finite
use rustygear.Prelude.Finite.{contains-insert}
use rustygear.Queues.{insert_remote, add_remote, JobStorage, coalesce_unique}
use rustygear.Queues.Remotes.{
  Agrees, Matched-cases, Matched-add, get-insert_remote, get-push_remote, coalesce_unique-known,
}
use rustygear.Service.Created.{Healthy, unique_of, submit-known}
use rustygear.Service.State.{Server, GearmanService}
use rustygear.Service.Submit.{handle_submit_job, job_created}
use rustygear.Service.Waiters.{waiters_of, joining, get-add_waiter}

-- Whether a connection is among those of an entry.
abbrev pub is_remote : ℕ → Option (List ℕ) → Bool
is_remote r none = false
is_remote r (some xs) = Finite.contains r xs

-- The connections of a job after one asked for it: in the set and in the vector.
module _ (u : Bytes) (c r : ℕ) (a : Arc) (s : JobStorage) (here : Assoc.get u s.jobs ≡ some a) where
  coalesce_unique-is_remote :
      Agrees s
      → let s' = (coalesce_unique u (some c) s).1 in
        (is_remote r (Assoc.get u s'.remotes_by_unique)
          ≡ (c == r || is_remote r (Assoc.get u s.remotes_by_unique)))
        × (is_remote r (Assoc.get a.job.handle s'.remotes_by_handle)
            ≡ (c == r || is_remote r (Assoc.get a.job.handle s.remotes_by_handle)))
  unfolding coalesce_unique add_remote
  coalesce_unique-is_remote v =
      let (xs, ys, ex, ey, m) = Matched-cases _ _ (v.remotes u a here) in
      let self = (bytes_beq_iff u u).1 refl in
      let self' = (bytes_beq_iff a.job.handle a.job.handle).1 refl in
      let by_set = contains-insert c r xs in
      rw (here, coalesce_unique)
        (
          rw (get-insert_remote c u u xs s.remotes_by_unique ex, self, ex) by_set,
          rw
              (
                ex,
                get-push_remote c a.job.handle a.job.handle ys (not (Finite.contains c xs))
                    s.remotes_by_handle ey,
                self',
                ey,
              )
              (sym ((Matched-add c xs ys m).0 r) ∙ by_set ∙ ap (λ (b : Bool). c == r || b) (m.0 r)),
        )

module _ {F : Type 0} where
  -- While no mutex that a submission takes is poisoned and the tables of the storage are in step, a
  -- submission whose unique id has a job is answered with JOB_CREATED for the handle of that job,
  -- whatever its function, payload and priority; no job and no queue changes, nothing is sent, the
  -- table of workers, the worker cells and the job count stay; a connection is in the set, and in
  -- the vector, of remotes of the job exactly if it was there before or is the client's and the
  -- client waits; and the waiters of the handle are those before, followed by the client if it
  -- waits, those of other handles as they were.
  pub handle_submit_job_known :
      (svc : GearmanService) (i : ℕ) (wait : Bool) (p : Packet) (st : Server F) (a : Arc) (r : ℕ)
      (h : Bytes)
      → Healthy st
      → Agrees st.queues.value
      → Assoc.get (unique_of p) st.queues.value.jobs ≡ some a
      → let (answer, after) = handle_submit_job svc i wait p st in
        let before = st.queues.value in
        let now = after.queues.value in
        (answer ≡ ok (job_created a.job.handle))
        × (now.jobs ≡ before.jobs)
        × (now.queues ≡ before.queues)
        × (is_remote r (Assoc.get (unique_of p) now.remotes_by_unique) ≡ (
            wait && svc.conn_id == r
            || is_remote r (Assoc.get (unique_of p) before.remotes_by_unique)))
        × (is_remote r (Assoc.get a.job.handle now.remotes_by_handle) ≡ (
            wait && svc.conn_id == r
            || is_remote r (Assoc.get a.job.handle before.remotes_by_handle)))
        × (Assoc.get h after.job_waiters.value ≡ (
            if a.job.handle == h
            then some (waiters_of a.job.handle st.job_waiters.value ++ joining wait svc.conn_id)
            else Assoc.get h st.job_waiters.value))
        × (after.sent ≡ st.sent)
        × (after.workers ≡ st.workers)
        × (after.job_count ≡ st.job_count)
        × (after.cells ≡ st.cells)
  unfolding coalesce_unique add_remote insert_remote
  handle_submit_job_known svc i true p st a r h good v e =
      let (answer, jobs, queues) =
        coalesce_unique-known (unique_of p) (some svc.conn_id) st.queues.value a e in
      let (by_unique, by_handle) =
        coalesce_unique-is_remote (unique_of p) svc.conn_id r a st.queues.value e v in
      rw (submit-known svc i true p st a good e) (
        refl,
        jobs,
        queues,
        by_unique,
        by_handle,
        get-add_waiter a.job.handle h true svc.conn_id st.job_waiters.value,
        refl,
        refl,
        refl,
        refl,
      )
  handle_submit_job_known svc i false p st a r h good v e =
      let (answer, jobs, queues) = coalesce_unique-known (unique_of p) none st.queues.value a e in
      rw (submit-known svc i false p st a good e) (
        refl,
        jobs,
        queues,
        rw (e, coalesce_unique) refl,
        rw (e, coalesce_unique) refl,
        get-add_waiter a.job.handle h false svc.conn_id st.job_waiters.value,
        refl,
        refl,
        refl,
        refl,
      )
