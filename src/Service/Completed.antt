-- ===== src/Service/Completed.antt =====
-- What `handle_work_complete` of rustygeard/src/service.rs does with a job that its worker has.
use rustygear.Outcome.{Outcome, ok}
use rustygear.Packet.{Packet, no_response, next_field}
use rustygear.Job.{Arc}
use rustygear.Prelude.{
  ℕ, ◌≡◌, refl, ap, sym, ◌∙◌, inl, inr, false, none, some, List, [], ◌∷◌, ◌++◌, append_assoc,
  append-nil, arith, Bytes, bytes_eq, nat_eq, Option-cases,
}
use rustygear.Prelude.All.{All}
use rustygear.Prelude.Assoc
use rustygear.Prelude.Assoc.{Map}
use rustygear.Queues.{remove_job}
use rustygear.Service.Created.{Healthy, sending}
use rustygear.Service.Handlers.{is_some, forget_job, tell_waiters, handle_work_complete}
use rustygear.Service.Locks.{
  with_senders-open, with_waiters-open, with_queues-open, with_worker-open,
}
use rustygear.Service.State.{
  Mutex, Server, GearmanService, continue, spawn_send, put_queues, put_waiters, put_worker,
}
use rustygear.Service.Submit.{send_to_conn_id, send_all}
use rustygear.Worker.{Worker, get_assigned_job, unassign_job}

-- One packet for each connection, on its channel.
unfoldable pub deliveries : List ℕ → Packet → Map ℕ ℕ → List (ℕ × Packet)
deliveries [] p m = []
deliveries (c ∷ cs) p m = elim (Assoc.get c m) [
  | none ↦ deliveries cs p m
  | some tx ↦ (tx, p) ∷ deliveries cs p m
]

abbrev pub Connected : List ℕ → Map ℕ ℕ → Type 0
Connected cs m = All (λ c. is_some (Assoc.get c m)) cs

module _ {F : Type 0} where
  send_to-Connected :
      (c tx : ℕ) (p : Packet) (st : Server F)
      → st.senders.poisoned ≡ false
      → Assoc.get c st.senders.value ≡ some tx
      → send_to_conn_id c p st ≡ (ok tt, sending ((tx, p) ∷ []) st)
  unfolding send_to_conn_id spawn_send
  send_to-Connected c tx p st good e = with_senders-open _ st good ∙ rw e refl

  -- Each connection gets the packet, in order, and nothing else changes.
  pub send_all-Connected :
      (cs : List ℕ) (p : Packet) (st : Server F)
      → st.senders.poisoned ≡ false
      → Connected cs st.senders.value
      → send_all cs p st ≡ (ok tt, sending (deliveries cs p st.senders.value) st)
  unfolding send_all deliveries is_some
  send_all-Connected [] p st good h =
      ap
        (λ (l : List (ℕ × Packet)).
          let r : Outcome (Unit {0}) × Server F = (ok tt, record st { sent = l }) in r)
        (sym (append-nil st.sent))
  send_all-Connected (c ∷ cs) p st good h = elim (Option-cases (Assoc.get c st.senders.value)) [
    | inl e ↦ absurd (ground (arith, e, h.0))
    | inr (tx, e) ↦
        ap (λ (r : Outcome (Unit {0}) × Server F). continue r (λ _. send_all cs p))
          (send_to-Connected c tx p st good e)
        ∙ send_all-Connected cs p (sending ((tx, p) ∷ []) st) good h.1
        ∙ rw (e, deliveries)
            (ap
              (λ (l : List (ℕ × Packet)).
                let r : Outcome (Unit {0}) × Server F = (ok tt, record st { sent = l }) in r)
              (append_assoc st.sent ((tx, p) ∷ []) (deliveries cs p st.senders.value)))
  ]

  -- The state after a job was completed.
  abbrev pub completed : GearmanService → Packet → Arc → Worker F → List ℕ → Server F → Server F
  completed svc p a worker cs st =
      let handle : Bytes = (next_field p.body).0 in
      record st {
        queues = record st.queues { value = remove_job a.job.unique st.queues.value };
        cells =
            Assoc.insert svc.worker
              (record { value = unassign_job handle worker; poisoned = false }) st.cells;
        job_waiters = record st.job_waiters { value = Assoc.remove handle st.job_waiters.value };
        sent = st.sent ++ deliveries cs p st.senders.value;
      }

  pub tell_waiters-Connected :
      (h : Bytes) (p : Packet) (cs : List ℕ) (st : Server F)
      → st.senders.poisoned ≡ false
      → st.job_waiters.poisoned ≡ false
      → Assoc.get h st.job_waiters.value ≡ some cs
      → Connected cs st.senders.value
      → tell_waiters h p st ≡ (
        ok tt,
        sending
            (deliveries cs p st.senders.value)
            (put_waiters (Assoc.remove h st.job_waiters.value) st),
      )
  unfolding tell_waiters
  tell_waiters-Connected h p cs st ready good e here =
      with_waiters-open _ st good
      ∙ rw (e, tell_waiters)
          (rw
            (send_all-Connected cs p (put_waiters (Assoc.remove h st.job_waiters.value) st) ready
              here)
            refl)

  forget_job-some :
      (a : Arc) (st : Server F)
      → st.queues.poisoned ≡ false
      → forget_job (some a) st ≡ (ok tt, put_queues (remove_job a.job.unique st.queues.value) st)
  unfolding forget_job
  forget_job-some a st good = with_queues-open _ st good

  pub put_worker-some :
      (k : ℕ) (w : Worker F) (c : Mutex (Worker F)) (st : Server F)
      → Assoc.get k st.cells ≡ some c
      → put_worker k w st ≡ record st { cells = Assoc.insert k (record c { value = w }) st.cells }
  put_worker-some k w c st e = rw (e, put_worker) refl

  -- While no mutex that it takes is poisoned and all the waiters of the job are connected,
  -- WORK_COMPLETE for a job that the worker has takes the job out of the storage and from the
  -- worker, sends the packet to each waiter once, in order, forgets the waiters, and answers
  -- nothing.
  pub work_complete-delivers :
      (svc : GearmanService) (p : Packet) (st : Server F) (worker : Worker F) (a : Arc)
      (cs : List ℕ)
      → Healthy st
      → Assoc.get svc.worker st.cells ≡ some (record { value = worker; poisoned = false })
      → get_assigned_job (next_field p.body).0 worker ≡ some a
      → Assoc.get (next_field p.body).0 st.job_waiters.value ≡ some cs
      → Connected cs st.senders.value
      → handle_work_complete svc p st ≡ (ok no_response, completed svc p a worker cs st)
  unfolding handle_work_complete
  work_complete-delivers svc p st worker a cs good e has waits here =
      let handle : Bytes = (next_field p.body).0 in
      let gone = put_queues (remove_job a.job.unique st.queues.value) st in
      let told = record gone {
        cells =
            Assoc.insert svc.worker
              (record { value = unassign_job handle worker; poisoned = false }) st.cells;
      } in
      with_worker-open svc.worker _ st _ e refl
      ∙ rw (has, handle_work_complete)
          (rw (forget_job-some a st good.queues) (
            rw (put_worker-some svc.worker (unassign_job handle worker) _ gone e) (
              rw (tell_waiters-Connected handle p cs told good.senders good.waiters waits here)
                refl)))
