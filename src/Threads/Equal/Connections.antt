-- ===== src/Threads/Equal/Connections.antt =====
-- The programs of the tasks of rustygeard/src/server.rs.
use rustygear.Outcome.{Outcome, ok, err, panic}
use rustygear.Packet.{Packet}
use rustygear.Prelude.{
  some, Option, none, none, Option, inr, inl, Bool-cases, arith, ap, refl, ◌∙◌, ℕ, ◌≡◌, Bool, List,
  [], ◌∷◌, nat_eq,
}
use rustygear.Prelude.Assoc
use rustygear.Prelude.Ordered
use rustygear.Server.{put_senders, put_conns, serve, hang_up, respond}
use rustygear.Service.{call}
use rustygear.Service.Lifecycle.{new_service, drop_service}
use rustygear.Service.State
use rustygear.Service.State.{
  M, allocate, Server, GearmanService, modify, spawn_send, put_workers, with_conns,
}
use rustygear.Threads.Call.{call_steps}
use rustygear.Threads.Connections.{
  settle, register_steps, hang_up_steps, writer_steps, drop_steps, serve_steps, serve_all_steps,
  reader_steps, Task, program, task, write_all, serve_all,
}
use rustygear.Threads.Does.{Does, after, calm-Does, pure-Does, if-Does, bind-Does}
use rustygear.Threads.Does.Scopes.{
  panics-Does, spawn_send-Does, conns-Does, workers-Does, senders-Does,
}
use rustygear.Threads.Equal.Call.{call-Does}
use rustygear.Threads.Order.{Ordered}
use rustygear.Threads.Tickets.{Owns, Owns-more}
use rustygear.Threads.Program.{
  Lock, Prog, done, acquire, unlock, act, solo, poisoned, unguarded, atomic,
}
use rustygear.Worker.{WrappingSet, shutdown}

module _ {F : Type 0} (tx : ℕ) where
  abbrev answer : Packet → Prog F (Unit {0})
  answer response = atomic (spawn_send tx response)

  abbrev settled : Outcome Packet × List Lock × Server F → Outcome (Unit {0}) × List Lock × Server F
  settled (ok response, hs, st) = solo (answer response) hs st
  settled (err e, hs, st) = (ok tt, hs, st)
  settled (panic, hs, st) = (panic, hs, st)

  solo-settle :
      (p : Prog F Packet) (hs : List Lock) (st : Server F)
      → solo (settle p answer) hs st ≡ settled (solo p hs st)
  unfolding solo
  solo-settle (done (ok a)) hs st = refl
  solo-settle (done (err e)) hs st = refl
  solo-settle (done panic) hs st = refl
  solo-settle (acquire l p) hs st = elim (Bool-cases (poisoned l st)) [
    | inl e ↦ rw e refl
    | inr e ↦ rw e (solo-settle p (l ∷ hs) st)
  ]
  solo-settle (unlock p) hs st = solo-settle p (unguarded hs) st
  solo-settle (act g k) hs st = solo-settle (k st) hs (g st)

  settled-after :
      (hs : List Lock) (r : Outcome Packet × Server F)
      → settled (after hs r) ≡ after hs (respond tx r)
  unfolding solo respond spawn_send
  settled-after hs (ok a, st) = refl
  settled-after hs (err e, st) = refl
  settled-after hs (panic, st) = refl

  Ordered-settle :
      (p : Prog F Packet) (hs out : List Lock) → Ordered hs p out → Ordered hs (settle p answer) out
  unfolding spawn_send
  Ordered-settle (done (ok a)) hs out o = λ st. (inl refl, o)
  Ordered-settle (done (err e)) hs out o = o
  Ordered-settle (done panic) hs out o = tt
  Ordered-settle (acquire l p) hs out (b, o) = (b, Ordered-settle p (l ∷ hs) out o)
  Ordered-settle (unlock p) hs out o = Ordered-settle p (unguarded hs) out o
  Ordered-settle (act g k) hs out o =
      λ st. let (minds, rest) = o st in (minds, Ordered-settle (k st) hs out rest)

  Owns-settle : (t : Option ℕ) (p : Prog F Packet) → Owns t p → Owns t (settle p answer)
  Owns-settle t (done (ok a)) o = Owns-more t (answer a) (spawn_send-Does {n = 0} tx a).owns
  Owns-settle t (done (err e)) o = tt
  Owns-settle t (done panic) o = tt
  Owns-settle t (acquire l p) o = Owns-settle t p o
  Owns-settle t (unlock p) o = Owns-settle t p o
  Owns-settle t (act g k) o =
      λ st. let (u, (moves, rest)) = o st in (u, (moves, Owns-settle u (k st) rest))

module _ {F : Type 0} ⦃w : WrappingSet F⦄ where
  serve-Does :
      (debug : Bool) (svc : GearmanService) (tx : ℕ) (frame : Packet)
      → Does {F = F} 0 none (serve debug svc tx frame) (serve_steps debug svc tx frame)
  unfolding serve serve_steps
  serve-Does debug svc tx frame =
      let calls = call-Does debug svc frame in
      record {
        alone = λ hs st.
            solo-settle tx (call_steps debug svc frame) hs st
            ∙ ap (settled tx) (calls.alone hs st)
            ∙ settled-after tx hs (call debug svc frame st);
        orders = λ hs b. Ordered-settle tx (call_steps debug svc frame) hs hs (calls.orders hs b);
        owns = Owns-settle tx none (call_steps debug svc frame) calls.owns;
      }

  serve_all-Does :
      (debug : Bool) (svc : GearmanService) (tx : ℕ) (frames : List (Option Packet))
      → Does {F = F} 0 none (serve_all debug svc tx frames) (serve_all_steps debug svc tx frames)
  unfolding serve_all serve_all_steps
  serve_all-Does debug svc tx [] = pure-Does tt
  serve_all-Does debug svc tx (none ∷ frames) = panics-Does
  serve_all-Does debug svc tx (some frame ∷ frames) =
      bind-Does _ _ (λ t. serve_all debug svc tx frames) _ (serve-Does debug svc tx frame)
        (λ t. serve_all-Does debug svc tx frames)

module _ {F : Type 0} where
  hang_up-Does : (c : ℕ) → Does {F = F} 0 none (hang_up c) (hang_up_steps c)
  unfolding hang_up hang_up_steps
  hang_up-Does c =
      bind-Does _ _ _ _
        (conns-Does _ _ (omega arith)
          (λ conns. calm-Does (modify (put_conns (Assoc.remove c conns))) (λ st. (refl, refl))))
        (λ t. senders-Does _ _ (omega arith) (λ senders.
          calm-Does (modify (put_senders (Assoc.remove c senders))) (λ st. (refl, refl))))

  write_all-Does :
      (c : ℕ) (results : List Bool)
      → Does {F = F} 0 none (write_all c results) (writer_steps c results)
  unfolding write_all writer_steps
  write_all-Does c [] = pure-Does tt
  write_all-Does c (sent ∷ rest) =
      bind-Does _ _ (λ t. write_all c rest) _
        (if-Does sent (State.pure tt) (hang_up c) _ _ (pure-Does tt) (hang_up-Does c))
        (λ t. write_all-Does c rest)

  drop-Does : (svc : GearmanService) → Does {F = F} 0 none (drop_service svc) (drop_steps svc)
  unfolding drop_service drop_steps
  drop-Does svc = workers-Does _ _ (omega arith) (λ workers.
      calm-Does (modify (put_workers (shutdown svc.conn_id workers))) (λ st. (refl, refl)))

module _ {F : Type 0} ⦃w : WrappingSet F⦄ where
  pub program-Does : (t : Task) → Does {F = F} 0 none (task t) (program t)
  unfolding task program register_steps reader_steps new_service allocate
  program-Does (Task.accepts conn_id tx) = senders-Does _ _ (omega arith) (λ senders.
      calm-Does (modify (put_senders (Assoc.insert conn_id tx senders))) (λ st. (refl, refl)))
  program-Does (Task.reads debug conn_id tx addr frames) =
      bind-Does (new_service conn_id addr) _ _ _
        (calm-Does (new_service conn_id addr) (λ st. (refl, refl)))
        (λ service.
          bind-Does _ _ _ _
            (conns-Does _ _ (omega arith) (λ conns.
              calm-Does (modify (put_conns (Ordered.insert conn_id service.worker conns)))
                (λ st. (refl, refl))))
            (λ t.
              bind-Does _ _ _ _ (serve_all-Does debug service tx frames) (λ t. drop-Does service)))
  program-Does (Task.writes conn_id results) = write_all-Does conn_id results
