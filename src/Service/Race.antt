-- ===== src/Service/Race.antt =====
-- Two submissions in rustygeard/src/service.rs whose steps interleave: `handle_submit_job` gives up
-- the lock of the storage between `coalesce_unique` and `add_job`.
use rustygear.Job
use rustygear.Job.{Arc}
use rustygear.Outcome.{Outcome, ok}
use rustygear.Packet.{Packet}
use rustygear.Prelude.{
  ap, Option, ℕ, ◌<◌, ◌≡◌, ◌≢◌, refl, ◌∙◌, Bool, false, none, some, [], ◌∷◌, arith, Bytes, bytes_eq,
  nat_eq, nat_beq_iff, bytes_beq_iff, length,
}
use rustygear.Prelude.Assoc
use rustygear.Prelude.Assoc.{Map, get-insert}
use rustygear.Queues.{JobStorage, add_job, func_queues, holds}
use rustygear.Queues.Jobs.{add_job-ok, push_back-some}
use rustygear.Queues.Remotes.{coalesce_unique-new}
use rustygear.Service.Created.{
  Healthy, fname_of, unique_of, payload_of, remote_of, job_of, created, answer_created-Healthy,
  coalesce-Healthy, create_job-Healthy,
}
use rustygear.Service.State.{continue, Server, GearmanService, M, pure, ◌>>=◌, put_waiters, held_by}
use rustygear.Service.Submit.{
  coalesce, obtain_handle, answer_created, add_waiter, job_created, handle_of,
}

module _ {F : Type 0} where
  -- One order of the parts of two calls of `handle_submit_job`, which holds no lock between them:
  -- both clients ask for the unique id before either stores a job.
  unfoldable pub submit_both :
      GearmanService
      → GearmanService
      → ℕ
      → ℕ
      → Bool
      → Bool
      → Packet
      → Packet
      → M F (Packet × Packet)
  unfolding coalesce obtain_handle answer_created
  submit_both one two i j wait_one wait_two p q = do
    found_one ← coalesce (unique_of p) (remote_of one wait_one)
    found_two ← coalesce (unique_of q) (remote_of two wait_two)
    h ← obtain_handle i (remote_of one wait_one) (fname_of p) (unique_of p) (payload_of p) found_one
    k ← obtain_handle j (remote_of two wait_two) (fname_of q) (unique_of q) (payload_of q) found_two
    answer_one ← answer_created one wait_one h
    answer_two ← answer_created two wait_two k
    pure (answer_one, answer_two)

-- A map that does not hold an allocation still does not when a job of another one comes in.
holds-insert :
    (n : ℕ) (u : Bytes) (b : Arc) (m : Map Bytes Arc)
    → b.alloc ≢ n
    → holds n m ≡ false
    → holds n (Assoc.insert u b m) ≡ false
unfolding holds Assoc.insert
holds-insert n u b [] d h = ground (arith, nat_beq_iff b.alloc n)
holds-insert n u b ((t, c) ∷ m) d h = ground (arith, nat_beq_iff b.alloc n, holds-insert n u b m d)

-- The second insertion under a key undoes the first.
insert-insert :
    (u v : Bytes) (a b : Arc) (m : Map Bytes Arc)
    → u ≡ v
    → Assoc.insert v b (Assoc.insert u a m) ≡ Assoc.insert v b m
unfolding Assoc.insert
insert-insert u v a b [] e = ground (arith, bytes_beq_iff u v)
insert-insert u v a b ((t, c) ∷ m) e =
    ground (arith, bytes_beq_iff t u, bytes_beq_iff t v, bytes_beq_iff u v, insert-insert u v a b m)

pub add_job-jobs :
    (a : Arc) (i : ℕ) (s : JobStorage) (r : Option ℕ)
    → i < length (func_queues a.job.fname s.queues)
    → (add_job a i r s).1.jobs ≡ Assoc.insert a.job.unique a s.jobs
unfolding add_job
add_job-jobs a i s r h =
    let (rs, e) = push_back-some i a (func_queues a.job.fname s.queues) h in rw (e, add_job) refl

module _ {F : Type 0} (one two : GearmanService) (i j : ℕ) (wait_one wait_two : Bool) (p q : Packet)
    (st : Server F) where
  abbrev first : Server F
  first = created i (remote_of one wait_one) p st

  abbrev second : Server F
  second = created j (remote_of two wait_two) q first

  submit_both_lem :
      Healthy st
      → Assoc.get (unique_of p) st.queues.value.jobs ≡ none
      → Assoc.get (unique_of q) st.queues.value.jobs ≡ none
      → i < length (func_queues (fname_of p) st.queues.value.queues)
      → j < length (func_queues (fname_of q) first.queues.value.queues)
      → let told = add_waiter (handle_of st.job_count) wait_one one.conn_id st.job_waiters.value in
        submit_both one two i j wait_one wait_two p q st ≡ (
          ok (job_created (handle_of st.job_count), job_created (handle_of first.job_count)),
          put_waiters (add_waiter (handle_of first.job_count) wait_two two.conn_id told) second,
        )
  unfolding submit_both obtain_handle
  submit_both_lem good e f fits fits_two =
      let stored =
        add_job-ok (job_of p st) i (remote_of one wait_one) st.queues.value
          (unfold Job.new in fits) in
      let stored_two =
        add_job-ok (job_of q first) j (remote_of two wait_two) first.queues.value
          (unfold Job.new in fits_two) in
      let still : Healthy first = record {
        queues = good.queues;
        workers = good.workers;
        senders = good.senders;
        waiters = good.waiters;
      } in
      rw (coalesce-Healthy (unique_of p) (remote_of one wait_one) st good.queues) (
        rw (coalesce_unique-new (unique_of p) (remote_of one wait_one) st.queues.value e) (
          rw (coalesce-Healthy (unique_of q) (remote_of two wait_two) st good.queues) (
            rw (coalesce_unique-new (unique_of q) (remote_of two wait_two) st.queues.value f) (
              rw (create_job-Healthy i (remote_of one wait_one) p st good stored.0) (
                rw (create_job-Healthy j (remote_of two wait_two) q first still stored_two.0) (
                  rw
                    (answer_created-Healthy one wait_one (handle_of st.job_count) second
                      good.waiters)
                    (ap
                      (λ (r : Outcome Packet × Server F).
                        continue r (λ b. pure (job_created (handle_of st.job_count), b)))
                      (answer_created-Healthy two wait_two (handle_of first.job_count) _
                        good.waiters))))))))

  -- If two submissions with one new unique id both ask for it before either stores its job (no
  -- mutex that they take poisoned, the priorities in range, the next allocation owned by nothing
  -- yet), both are answered with JOB_CREATED for the handles of two jobs, but the second job has
  -- taken the place of the first, and neither the storage nor a worker owns the allocation of the
  -- first.
  pub submit_both-replaces :
      Healthy st
      → unique_of p ≡ unique_of q
      → Assoc.get (unique_of p) st.queues.value.jobs ≡ none
      → i < length (func_queues (fname_of p) st.queues.value.queues)
      → j < length (func_queues (fname_of q) first.queues.value.queues)
      → holds st.next_alloc st.queues.value.jobs ≡ false
      → held_by st.cells st.next_alloc ≡ false
      → let (answers, after) = submit_both one two i j wait_one wait_two p q st in
        (answers
          ≡ ok (job_created (handle_of st.job_count), job_created (handle_of first.job_count)))
        × (Assoc.get (unique_of p) after.queues.value.jobs ≡ some (job_of q first))
        × (holds st.next_alloc after.queues.value.jobs ≡ false)
        × (held_by after.cells st.next_alloc ≡ false)
  unfolding Job.new
  submit_both-replaces good same e fits fits_two unheld idle =
      let f : Assoc.get (unique_of q) st.queues.value.jobs ≡ none = rw (← same) e in
      let jobs : second.queues.value.jobs
          ≡ Assoc.insert (unique_of q) (job_of q first) st.queues.value.jobs =
        add_job-jobs (job_of q first) j first.queues.value (remote_of two wait_two) fits_two
        ∙ ap (λ (m : Map Bytes Arc). Assoc.insert (unique_of q) (job_of q first) m)
            (add_job-jobs (job_of p st) i st.queues.value (remote_of one wait_one) fits)
        ∙ insert-insert (unique_of p) (unique_of q) (job_of p st) (job_of q first)
            st.queues.value.jobs same in
      rw (submit_both_lem good e f fits fits_two) (
        refl,
        rw (jobs, same)
            (get-insert (unique_of q) (unique_of q) (job_of q first) st.queues.value.jobs
              ∙ rw ((bytes_beq_iff (unique_of q) (unique_of q)).1 refl) refl),
        rw jobs (
            holds-insert st.next_alloc (unique_of q) (job_of q first) st.queues.value.jobs
              (λ h. omega arith) unheld),
        idle,
      )
