-- ===== src/Service/Stability/Handlers.antt =====
-- The other handlers and the reports keep what their writes and a poisoning keep.
use rustygear.Admin.{
  status_line, queue_total, worker_line, status_lines, admin_command_status, worker_lines,
  admin_command_workers,
}
use rustygear.Constants
use rustygear.Job.{Job}
use rustygear.Outcome.{ok}
use rustygear.Packet.{no_response, new_res, new_text_res, next_field, Packet}
use rustygear.Prelude.{ℕ, List, [], ◌∷◌, ◌++◌, Bytes, bytes_eq, nat_eq}
use rustygear.Prelude.Assoc
use rustygear.Prelude.Assoc.{Map}
use rustygear.Queues.{JobQueues}
use rustygear.Service.Handlers.{
  status_body, is_some, job_answer, handle_can_do, handle_cant_do, handle_pre_sleep, handle_grab,
  tell_waiters, handle_work_complete, handle_work_update, handle_set_client_id, handle_get_status,
}
use rustygear.Service.Keeps.{
  Keeps, Keeps-pure, Keeps-panics, Keeps-bind, Keeps-option, Keeps-with_queues, Keeps-with_workers,
  Keeps-with_waiters, Keeps-with_conns, Keeps-with_worker,
}
use rustygear.Service.Stability.Submit.{Keeps-send_all}
use rustygear.Service.Secure.{Secure}
use rustygear.Service.State.{Server, GearmanService, modify, put_worker, put_workers, put_waiters}
use rustygear.Text.{from_utf8}
use rustygear.Worker.{
  WrappingSet, Worker, Workers, count_workers, iter, sleep, wakeup, can_do, cant_do, unassign_job,
  get_assigned_job,
}

module _ {F : Type 0} ⦃w : WrappingSet F⦄ {P : Server F → Type 0} (v : Secure P) where
  Keeps-put_waiters : (m : Map Bytes (List ℕ)) → Keeps P (modify (put_waiters m))
  Keeps-put_waiters m = record { kept = v.stable.waiters m }

  Keeps-put_worker : (k : ℕ) (w : Worker F) → Keeps P (modify (put_worker k w))
  Keeps-put_worker k w = record { kept = v.stable.worker k w }

  Keeps-tell_waiters : (h : Bytes) (p : Packet) → Keeps P (tell_waiters h p)
  unfolding tell_waiters
  Keeps-tell_waiters h p = Keeps-with_waiters v.stable _ λ m.
      Keeps-option (Assoc.get h m) _ _ (Keeps-pure tt)
        λ cs. Keeps-bind _ _ (Keeps-put_waiters (Assoc.remove h m)) λ _. Keeps-send_all v cs p

  pub Keeps-complete : (svc : GearmanService) (p : Packet) → Keeps P (handle_work_complete svc p)
  unfolding handle_work_complete
  Keeps-complete svc p = Keeps-with_worker v.stable svc.worker _ λ worker.
      Keeps-bind _ _ (v.removed (get_assigned_job (next_field p.body).0 worker)) λ _.
        Keeps-bind _ _ (Keeps-put_worker svc.worker (unassign_job (next_field p.body).0 worker))
          λ _.
            Keeps-bind _ _ (Keeps-tell_waiters (next_field p.body).0 p) λ _. Keeps-pure no_response

  pub Keeps-update : (svc : GearmanService) (p : Packet) → Keeps P (handle_work_update svc p)
  unfolding handle_work_update
  Keeps-update svc p = Keeps-with_waiters v.stable _ λ m.
      Keeps-option (Assoc.get (next_field p.body).0 m) _ _ (Keeps-pure no_response)
        λ cs. Keeps-bind _ _ (Keeps-send_all v cs p) λ _. Keeps-pure no_response

  pub Keeps-set_client_id :
      (svc : GearmanService) (p : Packet) → Keeps P (handle_set_client_id svc p)
  unfolding handle_set_client_id
  Keeps-set_client_id svc p = Keeps-with_worker v.stable svc.worker _ λ worker.
      Keeps-bind _ _ (Keeps-put_worker svc.worker (record worker { client_id = p.body }))
        λ _. Keeps-pure no_response

  pub Keeps-get_status : (svc : GearmanService) (p : Packet) → Keeps P (handle_get_status svc p)
  unfolding handle_get_status
  Keeps-get_status svc p =
      Keeps-bind _ _
        (Keeps-with_waiters v.stable _
          λ m. Keeps-pure (is_some (Assoc.get (next_field p.body).0 m)))
        λ known.
          Keeps-bind _ _
            (Keeps-with_worker v.stable svc.worker _
              λ worker. Keeps-pure (is_some (get_assigned_job (next_field p.body).0 worker)))
            λ running.
              Keeps-pure
                (new_res Constants.status_res (status_body (next_field p.body).0 known running))

  Keeps-status_lines : (m : JobQueues) → Keeps P (status_lines m)
  unfolding status_lines
  Keeps-status_lines [] = Keeps-pure _
  Keeps-status_lines ((f, qs) ∷ m) =
      Keeps-bind _ _ (Keeps-with_workers v.stable _ λ ws. Keeps-pure (count_workers f ws)) λ c.
        Keeps-bind _ _ (Keeps-status_lines m)
          λ rest. Keeps-pure (status_line f (queue_total qs) c ++ rest)

  pub Keeps-admin_status : Keeps P admin_command_status
  unfolding admin_command_status
  Keeps-admin_status =
      Keeps-with_queues v.stable _
        λ s. Keeps-bind _ _ (Keeps-status_lines s.queues) λ r. Keeps-pure (new_text_res r)

module _ {F : Type 0} ⦃w : WrappingSet F⦄ {P : Server F → Type 0} (v : Secure P) where
  pub Keeps-can_do : (svc : GearmanService) (p : Packet) → Keeps P (handle_can_do svc p)
  unfolding handle_can_do
  Keeps-can_do svc p = Keeps-with_worker v.stable svc.worker _ λ k.
      Keeps-bind _ _ (Keeps-put_worker v svc.worker (can_do p.body k)) λ _.
        Keeps-bind _ _
          (Keeps-with_workers v.stable _ λ ws. both_put (wakeup (can_do p.body k) svc.conn_id ws))
          λ _. Keeps-pure no_response
    where
      both_put :
          (r : Worker F × Workers)
          → Keeps P (λ st. (ok tt, put_workers r.1 (put_worker svc.worker r.0 st)))
      both_put r = record {
        kept = λ st h. v.stable.workers r.1 _ (v.stable.worker svc.worker r.0 st h);
      }

  pub Keeps-cant_do : (svc : GearmanService) (p : Packet) → Keeps P (handle_cant_do svc p)
  unfolding handle_cant_do
  Keeps-cant_do svc p = Keeps-with_worker v.stable svc.worker _ λ k.
      Keeps-bind _ _ (Keeps-put_worker v svc.worker (cant_do p.body k)) λ _. Keeps-pure no_response

  pub Keeps-pre_sleep : (svc : GearmanService) → Keeps P (handle_pre_sleep svc)
  unfolding handle_pre_sleep
  Keeps-pre_sleep svc = Keeps-with_worker v.stable svc.worker _ λ k.
      Keeps-with_workers v.stable _ λ ws. record {
        kept = λ st h.
            let r = sleep k svc.conn_id ws in
            v.stable.workers r.1 _ (v.stable.worker svc.worker r.0 st h);
      }

  pub Keeps-grab :
      (svc : GearmanService) (t : ℕ) (body : Job → Bytes) → Keeps P (handle_grab svc t body)
  unfolding handle_grab
  Keeps-grab svc t body =
      Keeps-with_worker v.stable svc.worker _
        λ k. Keeps-bind _ _ (v.taken svc k) λ o. Keeps-pure (job_answer t body o)

  Keeps-worker_lines : (m : Map ℕ ℕ) → Keeps P (worker_lines m)
  unfolding worker_lines
  Keeps-worker_lines [] = Keeps-pure _
  Keeps-worker_lines ((c, k) ∷ m) =
      Keeps-bind _ _
        (Keeps-with_worker v.stable k _ λ worker.
          Keeps-option (from_utf8 worker.client_id) _ _ Keeps-panics λ _.
            Keeps-bind _ _ (Keeps-put_worker v k (iter worker).1)
              λ _. Keeps-pure (worker_line c worker.peer_addr worker.client_id (iter worker).0))
        λ line. Keeps-bind _ _ (Keeps-worker_lines m) λ rest. Keeps-pure (line ++ rest)

  pub Keeps-admin_workers : Keeps P admin_command_workers
  unfolding admin_command_workers
  Keeps-admin_workers =
      Keeps-with_conns v.stable _
        λ conns. Keeps-bind _ _ (Keeps-worker_lines conns) λ r. Keeps-pure (new_text_res r)
