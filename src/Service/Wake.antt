-- ===== src/Service/Wake.antt =====
-- A worker of rustygeard/src/service.rs that sleeps, and the submission that wakes it.
use rustygear.Outcome.{ok}
use rustygear.Packet.{Packet, no_response}
use rustygear.Prelude.{
  ℕ, ◌<◌, ◌≡◌, refl, sym, ap, ◌∙◌, inl, inr, Bool, true, false, none, some, List, [], ◌∷◌, ◌++◌,
  append_assoc, arith, bytes_eq, nat_eq, nat_beq_iff, ◌==◌, length, Bool-cases,
}
use rustygear.Prelude.Assoc
use rustygear.Prelude.Assoc.{Map}
use rustygear.Prelude.Finite
use rustygear.Queues.{func_queues}
use rustygear.Service.Completed.{put_worker-some}
use rustygear.Service.Created.{Healthy, fname_of, unique_of, noop_to, noops, submit-new}
use rustygear.Service.Handlers.{handle_pre_sleep}
use rustygear.Service.Locks.{with_worker-open, with_workers-open}
use rustygear.Service.State.{Server, GearmanService}
use rustygear.Service.Submit.{handle_of, handle_submit_job, job_created, new_noop}
use rustygear.Worker.{WrappingSet, Worker, sleep, queue_wake}
use rustygear.Worker.Presence.{
  can, sleeping, is_sleeper, presence, sleep-presence, queue_wake-presence,
}

-- A list with one member shown.
abbrev pub Among {ℓ} : {A : Type ℓ} → A → List A → Type ℓ
Among {A} x xs = (before : List A) × (after : List A) × (xs ≡ before ++ x ∷ after)

Among-append {ℓ} : {A : Type ℓ} (x : A) (xs ys : List A) → Among x ys → Among x (xs ++ ys)
Among-append {A = A} x xs ys (before, after, e) =
    (xs ++ before, after, ap (λ (l : List A). xs ++ l) e ∙ sym (append_assoc xs before (x ∷ after)))

-- A connection that is there is sent its NOOP.
noops-Among :
    (c tx : ℕ) (cs : List ℕ) (m : Map ℕ ℕ)
    → Finite.contains c cs ≡ true
    → Assoc.get c m ≡ some tx
    → Among (tx, new_noop) (noops cs m)
unfolding noops Finite.contains
noops-Among c tx [] m h e = cc
noops-Among c tx (d ∷ cs) m h e = elim (Bool-cases (d == c)) [
  | inl same ↦
      let here : Assoc.get d m ≡ some tx = rw ((nat_beq_iff d c).0 same) e in
      rw (here, noops) ([], noops cs m, refl)
  | inr other ↦
      Among-append (tx, new_noop) (noop_to (Assoc.get d m)) (noops cs m)
        (noops-Among c tx cs m (ground arith) e)
]

module _ {F : Type 0} ⦃w : WrappingSet F⦄ where
  abbrev asleep : GearmanService → Worker F → Server F → Server F
  asleep svc worker st =
      let r = sleep worker svc.conn_id st.workers.value in
      record st {
        workers = record st.workers { value = r.1 };
        cells = Assoc.insert svc.worker (record { value = r.0; poisoned = false }) st.cells;
      }

  pre_sleep-Open :
      (svc : GearmanService) (worker : Worker F) (st : Server F)
      → st.workers.poisoned ≡ false
      → Assoc.get svc.worker st.cells ≡ some (record { value = worker; poisoned = false })
      → handle_pre_sleep svc st ≡ (ok no_response, asleep svc worker st)
  unfolding handle_pre_sleep
  pre_sleep-Open svc worker st good e =
      with_worker-open svc.worker _ st _ e refl
      ∙ rw (with_workers-open _ st good) (
          rw (put_worker-some svc.worker (sleep worker svc.conn_id st.workers.value).0 _ st e) refl)

  -- A worker that says PRE_SLEEP is woken by the next submission for a function that it can do:
  -- while no mutex that a submission takes is poisoned nor that of the worker, its connection has a
  -- sender, the unique id is new and the priority in range, PRE_SLEEP is answered with nothing to
  -- send, the submission with JOB_CREATED, and a NOOP on the channel of the worker's connection is
  -- among the sends that the two add.
  pub handle_submit_job-handle_pre_sleep :
      (sleeper client : GearmanService) (i : ℕ) (wait : Bool) (p : Packet) (st : Server F)
      (worker : Worker F) (tx : ℕ)
      → Healthy st
      → Assoc.get sleeper.worker st.cells ≡ some (record { value = worker; poisoned = false })
      → can (fname_of p) worker ≡ true
      → Assoc.get sleeper.conn_id st.senders.value ≡ some tx
      → Assoc.get (unique_of p) st.queues.value.jobs ≡ none
      → i < length (func_queues (fname_of p) st.queues.value.queues)
      → let (rested, st1) = handle_pre_sleep sleeper st in
        let (answer, st2) = handle_submit_job client i wait p st1 in
        (rested ≡ ok no_response)
        × (answer ≡ ok (job_created (handle_of st.job_count)))
        × ((sends : List (ℕ × Packet)) × (st2.sent ≡ st.sent ++ sends) × Among (tx, new_noop) sends)
  handle_submit_job-handle_pre_sleep sleeper client i wait p st worker tx good e able linked new
        fits =
      let after = asleep sleeper worker st in
      let still : Healthy after = record {
        queues = good.queues;
        workers = good.workers;
        senders = good.senders;
        waiters = good.waiters;
      } in
      let f = fname_of p in
      let c = sleeper.conn_id in
      let lies : presence f c after.workers.value.allworkers ≡ sleeping =
        (sleep-presence worker c st.workers.value f c).0
        ∙ rw (able, (nat_beq_iff c c).1 refl) refl in
      let woken : Finite.contains c (queue_wake f after.workers.value).0 ≡ true =
        (queue_wake-presence f f c after.workers.value).0 ∙ ap is_sleeper lies in
      rw (pre_sleep-Open sleeper worker st good.workers e) (
        rw (submit-new client i wait p after still new fits) (
          refl,
          refl,
          (
            noops (queue_wake f after.workers.value).0 st.senders.value,
            refl,
            noops-Among c tx (queue_wake f after.workers.value).0 st.senders.value woken linked,
          ),
        ))
