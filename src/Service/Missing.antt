-- ===== src/Service/Missing.antt =====
-- What rustygeard/src/service.rs does when a packet is due to a connection that has gone.
use rustygear.Outcome.{IoError, Outcome, ok, err, panic}
use rustygear.Packet.{no_response, Packet, next_field}
use rustygear.Prelude.{
  ℕ, ◌≡◌, ◌≢◌, refl, ◌∙◌, inl, inr, Bool, true, false, none, some, List, [], ◌∷◌, arith, bytes_eq,
  nat_eq, nat_beq_iff, ◌==◌, Bool-cases,
}
use rustygear.Prelude.Assoc
use rustygear.Prelude.Assoc.{Map}
use rustygear.Prelude.Finite
use rustygear.Service.{update, dispatch, arm, submit, call}
use rustygear.Service.Handlers.{handle_work_update}
use rustygear.Service.Locks.{with_waiters-open}
use rustygear.Service.Poison.{with_waiters-poisoned, WaitersPoisoned, Silent, run, poisoned-Silent}
use rustygear.Service.State.{
  Server, GearmanService, M, pure, continue, release, with_senders, poison_waiters, spawn_send,
}
use rustygear.Service.Submit.{send_to_conn_id, send_all}
use rustygear.Worker.{WrappingSet}

module _ {F : Type 0} where
  send_to-missing :
      (c : ℕ) (p : Packet) (st : Server F)
      → Assoc.get c st.senders.value ≡ none
      → (send_to_conn_id c p st).0 ≡ panic
  unfolding send_to_conn_id with_senders
  send_to-missing c p st e = ground arith

  -- A send leaves the table of senders as it is, or panics.
  send_to-senders :
      (c : ℕ) (p : Packet) (st : Server F)
      → (send_to_conn_id c p st).1.senders.value ≡ st.senders.value
  unfolding send_to_conn_id with_senders spawn_send
  send_to-senders c p st = ground arith

  pub continue-panic :
      {A B : Type 0} (r : Outcome A × Server F) (f : A → M F B)
      → r.0 ≡ panic
      → (continue r f).0 ≡ panic
  continue-panic (ok a, st) f e = cc
  continue-panic (err x, st) f e = cc
  continue-panic (panic, st) f e = refl

  send_to-no_err :
      (c : ℕ) (p : Packet) (st : Server F) (x : IoError) → (send_to_conn_id c p st).0 ≢ err x
  unfolding send_to_conn_id with_senders spawn_send
  send_to-no_err c p st x e = ground arith

  continue-next :
      (v : Map ℕ ℕ) (r : Outcome (Unit {0}) × Server F) (f : Unit {0} → M F (Unit {0}))
      → r.1.senders.value ≡ v
      → ((x : IoError) → r.0 ≢ err x)
      → ((st : Server F) → st.senders.value ≡ v → (f tt st).0 ≡ panic)
      → (continue r f).0 ≡ panic
  continue-next v (ok tt, st) f e n k = k st e
  continue-next v (err x, st) f e n k = absurd (n x refl)
  continue-next v (panic, st) f e n k = refl

  -- One missing connection among those that a packet goes to is a panic.
  send_all-missing :
      (v : Map ℕ ℕ) (cs : List ℕ) (c : ℕ) (p : Packet) (st : Server F)
      → Finite.contains c cs ≡ true
      → Assoc.get c v ≡ none
      → st.senders.value ≡ v
      → (send_all cs p st).0 ≡ panic
  unfolding send_all Finite.contains
  send_all-missing v [] c p st h e s = cc
  send_all-missing v (d ∷ cs) c p st h e s = elim (Bool-cases (d == c)) [
    | inl same ↦
        continue-panic (send_to_conn_id d p st) (λ _. send_all cs p)
          (send_to-missing d p st (ground (arith, nat_beq_iff d c)))
    | inr other ↦
        continue-next v (send_to_conn_id d p st) (λ _. send_all cs p) (send_to-senders d p st ∙ s)
          (send_to-no_err d p st) (λ st' s'. send_all-missing v cs c p st' (ground arith) e s')
  ]

  release-panic :
      {A : Type 0} (r : Outcome A × Server F)
      → r.0 ≡ panic
      → ((release poison_waiters r).0 ≡ panic) × WaitersPoisoned (release poison_waiters r).1
  release-panic (ok a, st) e = cc
  release-panic (err x, st) e = cc
  release-panic (panic, st) e = (refl, refl)

  -- Progress on a job that a connection waits for which is gone: the request panics, and leaves
  -- the mutex of the waiters poisoned.
  handle_work_update-missing :
      (svc : GearmanService) (p : Packet) (st : Server F) (cs : List ℕ) (c : ℕ)
      → Assoc.get (next_field p.body).0 st.job_waiters.value ≡ some cs
      → Finite.contains c cs ≡ true
      → Assoc.get c st.senders.value ≡ none
      → ((handle_work_update svc p st).0 ≡ panic) × WaitersPoisoned (handle_work_update svc p st).1
  unfolding handle_work_update
  handle_work_update-missing svc p st cs c w m g = elim (Bool-cases st.job_waiters.poisoned) [
    | inl bad ↦ rw (with_waiters-poisoned _ st bad) (refl, bad)
    | inr good ↦ rw (with_waiters-open _ st good) (
        rw (w, handle_work_update)
          (release-panic (continue (send_all cs p st) λ _. pure no_response) (
            continue-panic (send_all cs p st) _
              (send_all-missing st.senders.value cs c p st m g refl))))
  ]

module _ {F : Type 0} ⦃w : WrappingSet F⦄ where
  call-update :
      (svc : GearmanService) (p : Packet) (st : Server F)
      → arm p.ptype ≡ update
      → call false svc p st ≡ handle_work_update svc p st
  unfolding call dispatch
  call-update svc p st e = rw (e, dispatch)

  -- If a connection that waits for a handle has no sender any more, a WORK_STATUS, WORK_DATA or
  -- WORK_WARNING for that handle (read with debug logging off) panics, and after it no submission
  -- of a job is answered with a packet, whatever requests come in between.
  pub missing_waiter-Silent :
      (svc other : GearmanService) (p q : Packet) (st : Server F) (cs : List ℕ) (c i : ℕ)
      (hs : List (Bool × GearmanService × Packet)) (debug wait : Bool)
      → arm p.ptype ≡ update
      → Assoc.get (next_field p.body).0 st.job_waiters.value ≡ some cs
      → Finite.contains c cs ≡ true
      → Assoc.get c st.senders.value ≡ none
      → arm q.ptype ≡ submit i wait
      → ((call false svc p st).0 ≡ panic)
        × Silent (call debug other q (run hs (call false svc p st).1))
  missing_waiter-Silent svc other p q st cs c i hs debug wait e h m g a =
      let (fails, bad) = handle_work_update-missing svc p st cs c h m g in
      rw (call-update svc p st e) (fails, (poisoned-Silent hs _ debug other q i wait bad a).1)
