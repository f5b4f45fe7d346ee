-- ===== src/Threads/Equal/Submit.antt =====
-- The programs of rustygeard/src/service.rs and rustygeard/src/admin.rs, run alone, do what the
-- handlers do.
use rustygear.Job
use rustygear.Job.{Arc}
use rustygear.Outcome.{ok}
use rustygear.Packet.{Packet, next_field}
use rustygear.Prelude.{
  ◌≡◌, refl, arith, ℕ, Bool, Option, none, some, List, [], ◌∷◌, Bytes, bytes_eq, nat_eq,
  if◌then◌else◌,
}
use rustygear.Prelude.Assoc
use rustygear.Prelude.Assoc.{Map}
use rustygear.Service.State
use rustygear.Service.State.{
  GearmanService, spawn_send, fetch_add, allocate, panics, put_workers, put_queues, put_waiters,
}
use rustygear.Queues.{coalesce_unique, add_job}
use rustygear.Worker.{queue_wake}
use rustygear.Service.Submit.{
  send_to_conn_id, send_all, wake_one, wake_all, wake_list, coalesce, store_job, new_job,
  create_job, obtain_handle, answer_created, handle_submit_job, handle_of, new_noop, add_waiter,
}
use rustygear.Threads.Does.{storage-Does, calm-Does, Does, pure-Does, bind-Does}
use rustygear.Threads.Does.Scopes.{
  allocate-Does, spawn_send-Does, fetch-Does, panics-Does, workers-Does, senders-Does, waiters-Does,
}
use rustygear.Threads.Program.{atomic}
use rustygear.Threads.Tickets.Draws.{coalesce-Moves, store-Moves}
use rustygear.Threads.Submit.{
  send_to_steps, send_all_steps, wake_all_steps, wake_list_steps, coalesce_steps, store_steps,
  new_job_steps, create_steps, obtain_steps, answer_steps, submit_steps,
}

module _ {F : Type 0} where
  send_found :
      (o : Option ℕ) (p : Packet)
      → Does {F = F} {A = Unit {0}} 6 none
          (elim o [ none ↦ panics | some tx ↦ spawn_send tx p ])
          (elim o [ none ↦ atomic panics | some tx ↦ atomic (spawn_send tx p) ])
  send_found none p = panics-Does
  send_found (some tx) p = spawn_send-Does tx p

  send_to-Does :
      (c : ℕ) (p : Packet) → Does {F = F} 5 none (send_to_conn_id c p) (send_to_steps c p)
  unfolding send_to_conn_id send_to_steps
  send_to-Does c p = senders-Does _ _ (omega arith) (λ senders. send_found (Assoc.get c senders) p)

  pub send_all-Does :
      (cs : List ℕ) (p : Packet) → Does {F = F} 5 none (send_all cs p) (send_all_steps cs p)
  unfolding send_all send_all_steps
  send_all-Does [] p = pure-Does tt
  send_all-Does (c ∷ cs) p = bind-Does _ _ _ _ (send_to-Does c p) (λ u. send_all-Does cs p)

  wake_one-Does : {n : ℕ} (o : Option ℕ) → Does {F = F} n none (wake_one o) (atomic (wake_one o))
  unfolding wake_one
  wake_one-Does none = calm-Does (State.pure tt) (λ st. (refl, refl))
  wake_one-Does (some tx) = spawn_send-Does tx new_noop

  wake_all-Does : (cs : List ℕ) → Does {F = F} 0 none (wake_all cs) (wake_all_steps cs)
  unfolding wake_all wake_all_steps
  wake_all-Does [] = pure-Does tt
  wake_all-Does (c ∷ cs) =
      bind-Does _ _ _ _
        (senders-Does _ _ (omega arith) (λ senders. wake_one-Does (Assoc.get c senders)))
        (λ u. wake_all-Does cs)

  wake_list-Does : (f : Bytes) → Does {F = F} 0 none (wake_list f) (wake_list_steps f)
  unfolding wake_list wake_list_steps
  wake_list-Does f = workers-Does _ _ (omega arith) (λ workers.
      calm-Does (λ st. (ok (queue_wake f workers).0, put_workers (queue_wake f workers).1 st))
        (λ st. (refl, refl)))

  coalesce-Does :
      (u : Bytes) (r : Option ℕ) → Does {F = F} 0 none (coalesce u r) (coalesce_steps u r)
  unfolding coalesce coalesce_steps
  coalesce-Does u r =
      storage-Does (λ s st. (ok (coalesce_unique u r s).0, put_queues (coalesce_unique u r s).1 st))
        (omega arith) (λ st. coalesce-Moves st u r)

  store_job-Does :
      (a : Arc) (i : ℕ) (r : Option ℕ) (j : ℕ)
      → a.job.handle ≡ handle_of j
      → Does {F = F} 0 (some j) (store_job a i r) (store_steps a i r)
  unfolding store_job store_steps
  store_job-Does a i r j h =
      storage-Does (λ s st. ((add_job a i r s).0, put_queues (add_job a i r s).1 st)) (omega arith)
        (λ st. store-Moves st a i r j h)

  new_job-Does :
      (i : ℕ) (r : Option ℕ) (f u d : Bytes)
      → Does {F = F} 0 none (new_job i r f u d) (new_job_steps i r f u d)
  unfolding new_job new_job_steps Job.new
  new_job-Does i r f u d = fetch-Does _ _ λ j. allocate-Does (some j) _ _ λ k.
      bind-Does _ _ _ _
        (store_job-Does (record { alloc = k; job = Job.new f u d (handle_of j) }) i r j refl)
        (λ t. pure-Does (handle_of j))

  create_job-Does :
      (i : ℕ) (r : Option ℕ) (f u d : Bytes)
      → Does {F = F} 0 none (create_job i r f u d) (create_steps i r f u d)
  unfolding create_job create_steps
  create_job-Does i r f u d =
      bind-Does _ _ _ _ (wake_list-Does f)
        (λ conns. bind-Does _ _ _ _ (wake_all-Does conns) (λ t. new_job-Does i r f u d))

  obtain_handle-Does :
      (i : ℕ) (r : Option ℕ) (f u d : Bytes) (o : Option Bytes)
      → Does {F = F} 0 none (obtain_handle i r f u d o) (obtain_steps i r f u d o)
  unfolding obtain_handle obtain_steps
  obtain_handle-Does i r f u d none = create_job-Does i r f u d
  obtain_handle-Does i r f u d (some h) = pure-Does h

  answer_created-Does :
      (svc : GearmanService) (wait : Bool) (h : Bytes)
      → Does {F = F} 0 none (answer_created svc wait h) (answer_steps svc wait h)
  unfolding answer_created answer_steps
  answer_created-Does svc wait h =
      bind-Does _ _ _ _
        (waiters-Does _ _ (omega arith) (λ m.
          calm-Does (λ st. (ok tt, put_waiters (add_waiter h wait svc.conn_id m) st))
            (λ st. (refl, refl))))
        (λ u. pure-Does _)

  pub submit-Does :
      (svc : GearmanService) (i : ℕ) (wait : Bool) (p : Packet)
      → Does {F = F} 0 none (handle_submit_job svc i wait p) (submit_steps svc i wait p)
  unfolding handle_submit_job submit_steps
  submit-Does svc i wait p =
      let remote : Option ℕ = if wait then some svc.conn_id else none in
      bind-Does _ _ _ _ (coalesce-Does (next_field (next_field p.body).1).0 remote) (λ found.
        bind-Does _ _ _ _
          (obtain_handle-Does i remote (next_field p.body).0 (next_field (next_field p.body).1).0
            (next_field (next_field p.body).1).1 found)
          (λ h. answer_created-Does svc wait h))
