-- ===== src/Threads/Equal/Handlers.antt =====
-- The programs of the other handlers of rustygeard/src/service.rs, run alone.
use rustygear.Job.{Arc, Job}
use rustygear.Outcome.{ok}
use rustygear.Packet.{Packet, no_response, next_field}
use rustygear.Prelude.{refl, arith, ℕ, Option, none, some, List, Bytes, bytes_eq, nat_eq}
use rustygear.Prelude.Assoc
use rustygear.Prelude.Assoc.{Map}
use rustygear.Queues.{get_job, remove_job}
use rustygear.Service.Handlers.{
  handle_can_do, handle_cant_do, handle_pre_sleep, take_job, handle_grab, forget_job, tell_waiters,
  handle_work_complete, handle_work_update, handle_set_client_id, handle_get_status, job_answer,
}
use rustygear.Service.State
use rustygear.Service.State.{
  M, Server, GearmanService, panics, put_workers, put_queues, put_waiters, put_worker, held_by,
  modify, with_workers, ◌>>=◌, ◌>>◌,
}
use rustygear.Service.Submit.{send_all}
use rustygear.Threads.Does.{storage-Does, Does, calm-Does, pure-Does, bind-Does}
use rustygear.Threads.Does.Scopes.{
  put_worker-Does, put_worker-same, workers-Does, waiters-Does, worker-Does,
}
use rustygear.Threads.Equal.Submit.{send_all-Does}
use rustygear.Threads.Handlers.{
  can_do_steps, cant_do_steps, pre_sleep_steps, take_steps, grab_steps, forget_steps, tell_steps,
  complete_steps, update_steps, client_id_steps, get_status_steps,
}
use rustygear.Threads.Program
use rustygear.Threads.Program.{Prog, pure, atomic}
use rustygear.Threads.Tickets.Draws.{remove-Moves, take-Moves}
use rustygear.Threads.Submit.{send_all_steps}
use rustygear.Worker.{
  WrappingSet, Worker, Workers, can_do, cant_do, wakeup, sleep, unassign_job, get_assigned_job,
}

module _ {F : Type 0} ⦃w : WrappingSet F⦄ where
  pub can_do-Does :
      (svc : GearmanService) (p : Packet)
      → Does {F = F} 0 none (handle_can_do svc p) (can_do_steps svc p)
  unfolding handle_can_do can_do_steps
  can_do-Does svc p = worker-Does _ _ _ (omega arith) (λ worker.
      let able = can_do p.body worker in
      let wake : Workers → M F (Unit {0}) = λ workers st.
        let r = wakeup able svc.conn_id workers in
        (ok tt, put_workers r.1 (put_worker svc.worker r.0 st)) in
      bind-Does (modify (put_worker svc.worker able)) _
        (λ t. do with_workers wake; State.pure no_response) _ (put_worker-Does svc.worker _)
        (λ t.
          bind-Does _ _ (λ t. State.pure no_response) _
            (workers-Does wake _ (omega arith) (λ workers.
              calm-Does (wake workers)
                (λ st. put_worker-same svc.worker (wakeup able svc.conn_id workers).0 st)))
            (λ t. pure-Does no_response)))

  pub cant_do-Does :
      (svc : GearmanService) (p : Packet)
      → Does {F = F} 0 none (handle_cant_do svc p) (cant_do_steps svc p)
  unfolding handle_cant_do cant_do_steps
  cant_do-Does svc p = worker-Does _ _ _ (omega arith) (λ worker.
      bind-Does (modify (put_worker svc.worker (cant_do p.body worker))) _
        (λ t. State.pure no_response) _ (put_worker-Does svc.worker _) (λ t. pure-Does no_response))

  pub pre_sleep-Does :
      (svc : GearmanService) → Does {F = F} 0 none (handle_pre_sleep svc) (pre_sleep_steps svc)
  unfolding handle_pre_sleep pre_sleep_steps
  pre_sleep-Does svc = worker-Does _ _ _ (omega arith) (λ worker.
      workers-Does _ _ (omega arith) (λ workers.
        calm-Does
          (λ st.
            let r = sleep worker svc.conn_id workers in
            (ok no_response, put_workers r.1 (put_worker svc.worker r.0 st)))
          (λ st. put_worker-same svc.worker (sleep worker svc.conn_id workers).0 st)))

  take-Does :
      (svc : GearmanService) (worker : Worker F)
      → Does {F = F} 2 none (take_job svc worker) (take_steps svc worker)
  unfolding take_job take_steps
  take-Does svc worker =
      storage-Does
        (λ s st.
          let (job, worker', s') = get_job (held_by st.cells) worker s in
          (ok job, put_queues s' (put_worker svc.worker worker' st)))
        (omega arith) (λ st. take-Moves st svc.worker worker)

  pub grab-Does :
      (svc : GearmanService) (t : ℕ) (body : Job → Bytes)
      → Does {F = F} 0 none (handle_grab svc t body) (grab_steps svc t body)
  unfolding handle_grab grab_steps
  grab-Does svc t body =
      worker-Does _ _ _ (omega arith)
        (λ worker. bind-Does _ _ _ _ (take-Does svc worker) (λ o. pure-Does (job_answer t body o)))

module _ {F : Type 0} where
  forget-Does : (o : Option Arc) → Does {F = F} 2 none (forget_job o) (forget_steps o)
  unfolding forget_job forget_steps
  forget-Does none = pure-Does tt
  forget-Does (some a) =
      storage-Does (λ s. modify (put_queues (remove_job a.job.unique s))) (omega arith)
        (λ st. remove-Moves st a.job.unique)

  tell_found :
      (o : Option (List ℕ)) (h : Bytes) (m : Map Bytes (List ℕ)) (p : Packet)
      → Does {F = F} {A = Unit {0}} 5 none
          (elim o [
            | none ↦ State.pure tt
            | some conns ↦ do modify (put_waiters (Assoc.remove h m)); send_all conns p
          ])
          (elim o [
            | none ↦ pure tt
            | some conns ↦
                Program.◌>>◌
                  (atomic (modify (put_waiters (Assoc.remove h m))))
                  (send_all_steps conns p)
          ])
  tell_found none h m p = pure-Does tt
  tell_found (some conns) h m p =
      bind-Does (modify (put_waiters (Assoc.remove h m))) _ _ _
        (calm-Does (modify (put_waiters (Assoc.remove h m))) (λ st. (refl, refl)))
        (λ t. send_all-Does conns p)

  tell-Does : (h : Bytes) (p : Packet) → Does {F = F} 2 none (tell_waiters h p) (tell_steps h p)
  unfolding tell_waiters tell_steps
  tell-Does h p = waiters-Does _ _ (omega arith) (λ m. tell_found (Assoc.get h m) h m p)

  pub complete-Does :
      (svc : GearmanService) (p : Packet)
      → Does {F = F} 0 none (handle_work_complete svc p) (complete_steps svc p)
  unfolding handle_work_complete complete_steps
  complete-Does svc p =
      let h : Bytes = (next_field p.body).0 in
      worker-Does _ _ _ (omega arith) (λ worker.
        bind-Does _ _ _ _ (forget-Does (get_assigned_job h worker)) (λ t.
          bind-Does (modify (put_worker svc.worker (unassign_job h worker))) _
            (λ t. do tell_waiters h p; State.pure no_response) _ (put_worker-Does svc.worker _)
            (λ t. bind-Does _ _ _ _ (tell-Does h p) (λ t. pure-Does no_response))))

  update_found :
      (o : Option (List ℕ)) (p : Packet)
      → Does {F = F} {A = Packet} 5 none
          (elim o [
            | none ↦ State.pure no_response
            | some conns ↦ do send_all conns p; State.pure no_response
          ])
          (elim o [
            | none ↦ pure no_response
            | some conns ↦ Program.◌>>◌ (send_all_steps conns p) (pure no_response)
          ])
  update_found none p = pure-Does no_response
  update_found (some conns) p =
      bind-Does _ _ _ _ (send_all-Does conns p) (λ t. pure-Does no_response)

  pub update-Does :
      (svc : GearmanService) (p : Packet)
      → Does {F = F} 0 none (handle_work_update svc p) (update_steps svc p)
  unfolding handle_work_update update_steps
  update-Does svc p =
      waiters-Does _ _ (omega arith) (λ m. update_found (Assoc.get (next_field p.body).0 m) p)

  pub client_id-Does :
      (svc : GearmanService) (p : Packet)
      → Does {F = F} 0 none (handle_set_client_id svc p) (client_id_steps svc p)
  unfolding handle_set_client_id client_id_steps
  client_id-Does svc p = worker-Does _ _ _ (omega arith) (λ worker.
      bind-Does (modify (put_worker svc.worker (record worker { client_id = p.body }))) _
        (λ t. State.pure no_response) _ (put_worker-Does svc.worker _) (λ t. pure-Does no_response))

  pub get_status-Does :
      (svc : GearmanService) (p : Packet)
      → Does {F = F} 0 none (handle_get_status svc p) (get_status_steps svc p)
  unfolding handle_get_status get_status_steps
  get_status-Does svc p =
      bind-Does _ _ _ _ (waiters-Does _ _ (omega arith) (λ m. pure-Does _)) (λ known.
        bind-Does _ _ _ _ (worker-Does _ _ _ (omega arith) (λ worker. pure-Does _))
          (λ running. pure-Does _))
