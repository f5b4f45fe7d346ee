-- ===== src/Service/Poison.antt =====
-- What a panic leaves behind in rustygeard/src/service.rs: a poisoned mutex is never healed.
use rustygear.Outcome.{Outcome, ok, err, panic}
use rustygear.Packet.{Packet, next_field}
use rustygear.Prelude.{
  ℕ, ◌≡◌, ◌≢◌, refl, Bool, true, Option, none, some, List, [], ◌∷◌, Bytes, bytes_eq, nat_eq,
  if◌then◌else◌,
}
use rustygear.Prelude.Assoc.{Map}
use rustygear.Service.{arm, submit, call, dispatch}
use rustygear.Service.Keeps.{
  put_worker-keeps, poison_cell-keeps, Keeps-pure, Keeps-if, Keeps-with_worker, Stable, Keeps,
}
use rustygear.Service.Stability.{Keeps-call}
use rustygear.Service.Stability.Submit.{Keeps-obtain_handle}
use rustygear.Service.Secure.{Secure, Blind, Blind-Secure}
use rustygear.Service.State.{
  put_waiters, fetch_add, allocate, Server, GearmanService, M, pure, continue, ◌>>=◌, with_waiters,
  with_worker, spawn_send,
}
use rustygear.Service.Submit.{
  obtain_handle, answer_created, add_waiter, handle_submit_job, coalesce,
}
use rustygear.Worker.{WrappingSet}

abbrev pub WaitersPoisoned : {F : Type 0} → Server F → Type 0
WaitersPoisoned st = st.job_waiters.poisoned ≡ true

module _ {F : Type 0} where
  WaitersPoisoned-Stable : Stable {F = F} WaitersPoisoned
  unfolding spawn_send
  WaitersPoisoned-Stable = record {
    workers = λ ws st h. h;
    waiters = λ m st h. h;
    worker = put_worker-keeps λ m st h. h;
    sent = λ tx p st h. h;
    bad_queues = λ st h. h;
    bad_workers = λ st h. h;
    bad_senders = λ st h. h;
    bad_waiters = λ st h. refl;
    bad_conns = λ st h. h;
    bad_cell = poison_cell-keeps λ m st h. h;
  }

  WaitersPoisoned-Blind : Blind {F = F} WaitersPoisoned
  unfolding fetch_add allocate
  WaitersPoisoned-Blind = record {
    stable = WaitersPoisoned-Stable;
    queues = λ s st h. h;
    counted = λ st h. h;
    allocated = λ st h. h;
  }

  -- A call that ends with no answer to its client.
  abbrev pub Silent : Outcome Packet × Server F → Type 0
  Silent r = (p : Packet) → r.0 ≢ ok p

  continue-Silent :
      {A : Type 0} (r : Outcome A × Server F) (f : A → M F Packet)
      → WaitersPoisoned r.1
      → ((a : A) (st : Server F) → WaitersPoisoned st → Silent (f a st))
      → Silent (continue r f)
  continue-Silent (ok a, st) f h k = k a st h
  continue-Silent (err e, st) f h k = λ p x. cc
  continue-Silent (panic, st) f h k = λ p x. cc

  pub with_waiters-poisoned :
      {A : Type 0} (m : Map Bytes (List ℕ) → M F A) (st : Server F)
      → WaitersPoisoned st
      → with_waiters m st ≡ (panic, st)
  unfolding with_waiters
  with_waiters-poisoned m st h = rw (h, with_waiters)

  answer_created-Silent :
      (svc : GearmanService) (wait : Bool) (h : Bytes) (st : Server F)
      → WaitersPoisoned st
      → Silent (answer_created svc wait h st)
  unfolding answer_created
  answer_created-Silent svc wait h st bad =
      rw
        (with_waiters-poisoned (λ m st. (ok tt, put_waiters (add_waiter h wait svc.conn_id m) st))
          st bad)
        (λ q x. cc)

module _ {F : Type 0} ⦃w : WrappingSet F⦄ where
  submit-Silent :
      (svc : GearmanService) (i : ℕ) (wait : Bool) (p : Packet) (st : Server F)
      → WaitersPoisoned st
      → Silent (handle_submit_job svc i wait p st)
  unfolding handle_submit_job
  submit-Silent svc i wait p st h =
      let secure : Secure {F = F} WaitersPoisoned = Blind-Secure WaitersPoisoned-Blind in
      let remote : Option ℕ = if wait then some svc.conn_id else none in
      let name = next_field p.body in
      let unique = next_field name.1 in
      continue-Silent (coalesce unique.0 remote st)
        (λ found. obtain_handle i remote name.0 unique.0 unique.1 found >>= answer_created svc wait)
        ((secure.coalesced unique.0 remote).kept st h)
        λ found st1 h1.
          continue-Silent (obtain_handle i remote name.0 unique.0 unique.1 found st1)
            (answer_created svc wait)
            ((Keeps-obtain_handle secure i remote name.0 unique.0 unique.1 found).kept st1 h1)
            λ handle st2 h2. answer_created-Silent svc wait handle st2 h2

  -- A history of requests: for each, whether debug logging is on, who asks, and what.
  pub run : List (Bool × GearmanService × Packet) → Server F → Server F
  run [] st = st
  run ((debug, svc, p) ∷ hs) st = run hs (call debug svc p st).1

  pub run-keeps :
      {P : Server F → Type 0} (v : Secure P) (hs : List (Bool × GearmanService × Packet))
      (st : Server F)
      → P st
      → P (run hs st)
  unfolding run
  run-keeps v [] st h = h
  run-keeps v ((debug, svc, p) ∷ hs) st h = run-keeps v hs _ ((Keeps-call v debug svc p).kept st h)

  Keeps-peek :
      (debug : Bool) (svc : GearmanService)
      → Keeps {F = F} WaitersPoisoned
          (if debug then with_worker svc.worker (λ worker. pure tt) else pure tt)
  Keeps-peek debug svc =
      Keeps-if debug _ _ (Keeps-with_worker WaitersPoisoned-Stable svc.worker _ λ k. Keeps-pure tt)
        (Keeps-pure tt)

  call-Silent :
      (debug : Bool) (svc : GearmanService) (p : Packet) (i : ℕ) (wait : Bool) (st : Server F)
      → arm p.ptype ≡ submit i wait
      → WaitersPoisoned st
      → Silent (call debug svc p st)
  unfolding call dispatch
  call-Silent debug svc p i wait st e h =
      continue-Silent ((if debug then with_worker svc.worker (λ worker. pure tt) else pure tt) st)
        (λ _. dispatch (arm p.ptype) svc p) ((Keeps-peek debug svc).kept st h)
        λ _ st1 h1. rw (e, dispatch) (submit-Silent svc i wait p st1 h1)

  -- Once the mutex of the waiters is poisoned, it stays so through any requests, and no submission
  -- of a job is answered with a packet after them.
  pub poisoned-Silent :
      (hs : List (Bool × GearmanService × Packet)) (st : Server F) (debug : Bool)
      (svc : GearmanService) (p : Packet) (i : ℕ) (wait : Bool)
      → WaitersPoisoned st
      → arm p.ptype ≡ submit i wait
      → WaitersPoisoned (run hs st) × Silent (call debug svc p (run hs st))
  poisoned-Silent hs st debug svc p i wait h e =
      let bad : WaitersPoisoned (run hs st) =
        run-keeps (Blind-Secure WaitersPoisoned-Blind) hs st h in
      (bad, call-Silent debug svc p i wait (run hs st) e bad)
