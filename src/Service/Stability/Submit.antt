-- ===== src/Service/Stability/Submit.antt =====
-- `handle_submit_job` and the sends keep what their writes and a poisoning keep.
use rustygear.Outcome.{ok}
use rustygear.Packet.{Packet}
use rustygear.Prelude.{none, some, some, ℕ, Bool, Option, List, [], ◌∷◌, Bytes, bytes_eq, nat_eq}
use rustygear.Prelude.Assoc
use rustygear.Prelude.Assoc.{Map}
use rustygear.Service.Keeps.{
  Keeps-option, Keeps, Keeps-pure, Keeps-panics, Keeps-bind, Keeps-with_workers, Keeps-with_senders,
  Keeps-with_waiters,
}
use rustygear.Service.Secure.{Secure}
use rustygear.Worker.{WrappingSet}
use rustygear.Service.State.{Server, GearmanService, spawn_send, put_waiters}
use rustygear.Service.Submit.{
  send_to_conn_id, send_all, wake_one, wake_all, wake_list, obtain_handle, answer_created,
  create_job, obtain_handle, answer_created, handle_submit_job, add_waiter, job_created, new_noop,
}
use rustygear.Worker.{queue_wake}

module _ {F : Type 0} ⦃w : WrappingSet F⦄ {P : Server F → Type 0} (v : Secure P) where
  pub Keeps-spawn : (tx : ℕ) (p : Packet) → Keeps P (spawn_send tx p)
  Keeps-spawn tx p = record { kept = v.stable.sent tx p }

  pub Keeps-send_to : (c : ℕ) (p : Packet) → Keeps P (send_to_conn_id c p)
  unfolding send_to_conn_id
  Keeps-send_to c p =
      Keeps-with_senders v.stable _
        λ s. Keeps-option (Assoc.get c s) _ _ Keeps-panics (λ tx. Keeps-spawn tx p)

  pub Keeps-send_all : (cs : List ℕ) (p : Packet) → Keeps P (send_all cs p)
  unfolding send_all
  Keeps-send_all [] p = Keeps-pure tt
  Keeps-send_all (c ∷ cs) p = Keeps-bind _ _ (Keeps-send_to c p) λ _. Keeps-send_all cs p

  Keeps-wake_one : (o : Option ℕ) → Keeps P (wake_one o)
  unfolding wake_one
  Keeps-wake_one none = Keeps-pure tt
  Keeps-wake_one (some tx) = Keeps-spawn tx new_noop

  pub Keeps-wake_all : (cs : List ℕ) → Keeps P (wake_all cs)
  unfolding wake_all
  Keeps-wake_all [] = Keeps-pure tt
  Keeps-wake_all (c ∷ cs) =
      Keeps-bind _ _ (Keeps-with_senders v.stable _ λ s. Keeps-wake_one (Assoc.get c s))
        λ _. Keeps-wake_all cs

  pub Keeps-wake_list : (fname : Bytes) → Keeps P (wake_list fname)
  unfolding wake_list
  Keeps-wake_list fname =
      Keeps-with_workers v.stable _ λ ws. record { kept = v.stable.workers (queue_wake fname ws).1 }

  pub Keeps-create_job : (i : ℕ) (r : Option ℕ) (f u d : Bytes) → Keeps P (create_job i r f u d)
  unfolding create_job
  Keeps-create_job i r f u d =
      Keeps-bind _ _ (Keeps-wake_list f)
        λ conns. Keeps-bind _ _ (Keeps-wake_all conns) λ _. v.stored i r f u d

  pub Keeps-obtain_handle :
      (i : ℕ) (r : Option ℕ) (f u d : Bytes) (found : Option Bytes)
      → Keeps P (obtain_handle i r f u d found)
  unfolding obtain_handle
  Keeps-obtain_handle i r f u d (some h) = Keeps-pure h
  Keeps-obtain_handle i r f u d none = Keeps-create_job i r f u d

  Keeps-answer_created :
      (svc : GearmanService) (wait : Bool) (h : Bytes) → Keeps P (answer_created svc wait h)
  unfolding answer_created
  Keeps-answer_created svc wait h =
      Keeps-bind _ _
        (Keeps-with_waiters v.stable
          (λ m st. (ok tt, put_waiters (add_waiter h wait svc.conn_id m) st))
          λ m. record { kept = v.stable.waiters (add_waiter h wait svc.conn_id m) })
        λ _. Keeps-pure (job_created h)

  pub Keeps-submit :
      (svc : GearmanService) (i : ℕ) (wait : Bool) (p : Packet)
      → Keeps P (handle_submit_job svc i wait p)
  unfolding handle_submit_job
  Keeps-submit svc i wait p = Keeps-bind _ _ (v.coalesced _ _) λ found.
      Keeps-bind _ _ (Keeps-obtain_handle i _ _ _ _ found) λ h. Keeps-answer_created svc wait h
