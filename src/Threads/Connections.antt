-- ===== src/Threads/Connections.antt =====
-- rustygeard/src/server.rs: the tasks of a connection, as programs that lock.
use rustygear.Outcome.{ok, err, panic}
use rustygear.Packet.{Packet}
use rustygear.Prelude.{Option, none, some, ℕ, Bool, List, [], ◌∷◌, Bytes, nat_eq, if◌then◌else◌}
use rustygear.Prelude.Assoc
use rustygear.Prelude.Ordered
use rustygear.Server.{put_senders, put_conns, serve, hang_up}
use rustygear.Service.Lifecycle.{new_service, drop_service}
use rustygear.Service.State
use rustygear.Service.State.{
  GearmanService, panics, M, modify, put_workers, spawn_send, with_senders, with_conns,
}
use rustygear.Threads.Call.{call_steps}
use rustygear.Threads.Program.{
  Prog, done, acquire, unlock, act, pure, atomic, ◌>>=◌, ◌>>◌, workers_scope, senders_scope,
  conns_scope,
}
use rustygear.Worker.{WrappingSet, shutdown}

module _ {F A : Type 0} where
  -- `if let Ok(response) = …`: an error is dropped.
  abbrev pub settle : Prog F A → (A → Prog F (Unit {0})) → Prog F (Unit {0})
  settle (done (ok a)) f = f a
  settle (done (err e)) f = pure tt
  settle (done panic) f = done panic
  settle (acquire l p) f = acquire l (settle p f)
  settle (unlock p) f = unlock (settle p f)
  settle (act g k) f = act g (λ st. settle (k st) f)

module _ {F : Type 0} where
  -- What the accept loop does for a connection with the channel `tx`.
  unfoldable pub register_steps : ℕ → ℕ → Prog F (Unit {0})
  register_steps conn_id tx =
      senders_scope λ senders. atomic (modify (put_senders (Assoc.insert conn_id tx senders)))

  unfoldable pub hang_up_steps : ℕ → Prog F (Unit {0})
  hang_up_steps conn_id = do
    conns_scope (λ conns. atomic (modify (put_conns (Assoc.remove conn_id conns))))
    senders_scope (λ senders. atomic (modify (put_senders (Assoc.remove conn_id senders))))

  -- The loop of the writer, by whether each packet could be sent.
  unfoldable pub writer_steps : ℕ → List Bool → Prog F (Unit {0})
  unfolding hang_up_steps
  writer_steps conn_id [] = pure tt
  writer_steps conn_id (sent ∷ rest) = do
    if sent then pure tt else hang_up_steps conn_id
    writer_steps conn_id rest

  -- `Drop` of the service.
  unfoldable pub drop_steps : GearmanService → Prog F (Unit {0})
  drop_steps svc =
      workers_scope λ workers. atomic (modify (put_workers (shutdown svc.conn_id workers)))

module _ {F : Type 0} ⦃w : WrappingSet F⦄ where
  unfoldable pub serve_steps : Bool → GearmanService → ℕ → Packet → Prog F (Unit {0})
  serve_steps debug svc tx frame =
      settle (call_steps debug svc frame) λ response. atomic (spawn_send tx response)

  -- The loop of the reader, over what the stream yields; `unwrap` panics where that is an error.
  unfoldable pub serve_all_steps :
      Bool → GearmanService → ℕ → List (Option Packet) → Prog F (Unit {0})
  unfolding serve_steps
  serve_all_steps debug svc tx [] = pure tt
  serve_all_steps debug svc tx (none ∷ frames) = atomic panics
  serve_all_steps debug svc tx (some frame ∷ frames) = do
    serve_steps debug svc tx frame
    serve_all_steps debug svc tx frames

  unfoldable pub reader_steps : Bool → ℕ → ℕ → Bytes → List (Option Packet) → Prog F (Unit {0})
  unfolding serve_all_steps drop_steps
  reader_steps debug conn_id tx peer_addr frames = do
    service ← atomic (new_service conn_id peer_addr)
    conns_scope λ conns. atomic (modify (put_conns (Ordered.insert conn_id service.worker conns)))
    serve_all_steps debug service tx frames
    drop_steps service

-- The tasks that the server spawns or runs, with what the network gives them.
pub data Task : Type 0 where
  accepts : ℕ → ℕ → Task
  reads : Bool → ℕ → ℕ → Bytes → List (Option Packet) → Task
  writes : ℕ → List Bool → Task

-- The same tasks with their steps in one piece.
module _ {F : Type 0} where
  unfoldable pub write_all : ℕ → List Bool → M F (Unit {0})
  write_all conn_id [] = State.pure tt
  write_all conn_id (sent ∷ rest) =
      State.◌>>◌ (if sent then State.pure tt else hang_up conn_id) (write_all conn_id rest)

module _ {F : Type 0} ⦃w : WrappingSet F⦄ where
  unfoldable pub serve_all : Bool → GearmanService → ℕ → List (Option Packet) → M F (Unit {0})
  serve_all debug svc tx [] = State.pure tt
  serve_all debug svc tx (none ∷ frames) = panics
  serve_all debug svc tx (some frame ∷ frames) =
      State.◌>>◌ (serve debug svc tx frame) (serve_all debug svc tx frames)

  unfoldable pub task : Task → M F (Unit {0})
  unfolding write_all serve_all
  task (Task.accepts conn_id tx) =
      with_senders λ senders. modify (put_senders (Assoc.insert conn_id tx senders))
  task (Task.reads debug conn_id tx peer_addr frames) =
      State.◌>>=◌ (new_service conn_id peer_addr) λ service.
        State.◌>>◌
          (with_conns λ conns. modify (put_conns (Ordered.insert conn_id service.worker conns)))
          (State.◌>>◌ (serve_all debug service tx frames) (drop_service service))
  task (Task.writes conn_id results) = write_all conn_id results

module _ {F : Type 0} ⦃w : WrappingSet F⦄ where
  unfoldable pub program : Task → Prog F (Unit {0})
  unfolding register_steps reader_steps writer_steps
  program (Task.accepts conn_id tx) = register_steps conn_id tx
  program (Task.reads debug conn_id tx peer_addr frames) =
      reader_steps debug conn_id tx peer_addr frames
  program (Task.writes conn_id results) = writer_steps conn_id results
