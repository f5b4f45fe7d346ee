-- ===== src/Service/Keeps.antt =====
-- Predicates on the shared state that every step of the handlers keeps: it is enough that each
-- write and each poisoning keeps them.
use rustygear.Outcome.{Outcome, ok, err, panic}
use rustygear.Packet.{Packet}
use rustygear.Prelude.{
  inl, inr, Option-cases, nat_eq, ℕ, Bool, true, false, Option, none, some, List, Bytes,
  if◌then◌else◌,
}
use rustygear.Prelude.Assoc
use rustygear.Prelude.Assoc.{Map}
use rustygear.Queues.{JobStorage}
use rustygear.Service.State.{
  Mutex, Server, M, pure, panics, release, guarded, continue, ◌>>=◌, with_queues, with_workers,
  with_senders, with_waiters, with_conns, with_worker, at_cell, put_workers, put_waiters,
  put_worker, poison_queues, poison_workers, poison_senders, poison_waiters, poison_conns,
  poison_cell, spawn_send,
}
use rustygear.Worker.{Workers, Worker}

-- A predicate that no poisoning makes false, and no write of a handler but those to the storage.
pub record Stable {F : Type 0} (P : Server F → Type 0) : Type 0 where
  pub workers : (ws : Workers) (st : Server F) → P st → P (put_workers ws st)
  pub waiters : (m : Map Bytes (List ℕ)) (st : Server F) → P st → P (put_waiters m st)
  pub worker : (k : ℕ) (w : Worker F) (st : Server F) → P st → P (put_worker k w st)
  pub sent : (tx : ℕ) (p : Packet) (st : Server F) → P st → P (spawn_send tx p st).1
  pub bad_queues : (st : Server F) → P st → P (poison_queues st)
  pub bad_workers : (st : Server F) → P st → P (poison_workers st)
  pub bad_senders : (st : Server F) → P st → P (poison_senders st)
  pub bad_waiters : (st : Server F) → P st → P (poison_waiters st)
  pub bad_conns : (st : Server F) → P st → P (poison_conns st)
  pub bad_cell : (k : ℕ) (st : Server F) → P st → P (poison_cell k st)

-- A predicate that does not look at the workers' cells is kept by what changes one of them.
module _ {F : Type 0} {P : Server F → Type 0}
    (anywhere : (m : Map ℕ (Mutex (Worker F))) (st : Server F)
      → P st
      → P (record st { cells = m })) where
  pub put_worker-keeps : (k : ℕ) (w : Worker F) (st : Server F) → P st → P (put_worker k w st)
  put_worker-keeps k w st h = elim (Option-cases (Assoc.get k st.cells)) [
    | inl e ↦ rw (e, put_worker) h
    | inr (c, e) ↦ rw (e, put_worker) (anywhere _ st h)
  ]

  pub poison_cell-keeps : (k : ℕ) (st : Server F) → P st → P (poison_cell k st)
  poison_cell-keeps k st h = elim (Option-cases (Assoc.get k st.cells)) [
    | inl e ↦ rw (e, poison_cell) h
    | inr (c, e) ↦ rw (e, poison_cell) (anywhere _ st h)
  ]

-- A step from a state with `P` ends in one, whatever its outcome.
pub record Keeps {F A : Type 0} (P : Server F → Type 0) (m : M F A) : Type 0 where
  pub kept : (st : Server F) → P st → P (m st).1

module _ {F A : Type 0} {P : Server F → Type 0} where
  pub Keeps-pure : (a : A) → Keeps P (pure a)
  Keeps-pure a = record { kept = λ st h. h }

  pub Keeps-panics : Keeps P (panics {A = A})
  Keeps-panics = record { kept = λ st h. h }

  release-keeps :
      (poison : Server F → Server F)
      → ((st : Server F) → P st → P (poison st))
      → (r : Outcome A × Server F) → P r.1
      → P (release poison r).1
  release-keeps poison f (ok a, st) h = h
  release-keeps poison f (err e, st) h = h
  release-keeps poison f (panic, st) h = f st h

  pub guarded-keeps :
      (poisoned : Server F → Bool) (poison : Server F → Server F) (m : M F A) (st : Server F)
      → ((st : Server F) → P st → P (poison st))
      → P st
      → P (m st).1
      → P (guarded poisoned poison m st).1
  guarded-keeps poisoned poison m st f h k = split (poisoned st)
    where
      split : (b : Bool) → P (if b then (panic, st) else release poison (m st)).1
      split true = h
      split false = release-keeps poison f (m st) k

  Keeps-guarded :
      (poisoned : Server F → Bool) (poison : Server F → Server F) (m : M F A)
      → ((st : Server F) → P st → P (poison st))
      → Keeps P m
      → Keeps P (guarded poisoned poison m)
  Keeps-guarded poisoned poison m f k = record {
    kept = λ st h. guarded-keeps poisoned poison m st f h (k.kept st h);
  }

module _ {F A B : Type 0} {P : Server F → Type 0} where
  pub continue-keeps :
      (r : Outcome A × Server F) (f : A → M F B)
      → P r.1
      → ((a : A) → Keeps P (f a))
      → P (continue r f).1
  continue-keeps (ok a, st) f h k = (k a).kept st h
  continue-keeps (err e, st) f h k = h
  continue-keeps (panic, st) f h k = h

  pub Keeps-bind :
      (m : M F A) (f : A → M F B) → Keeps P m → ((a : A) → Keeps P (f a)) → Keeps P (m >>= f)
  Keeps-bind m f km kf = record { kept = λ st h. continue-keeps (m st) f (km.kept st h) kf }

module _ {F A : Type 0} {P : Server F → Type 0} (v : Stable P) where
  -- A scope of the storage that keeps `P` on the storage that is there.
  pub own_queues-keeps :
      (m : JobStorage → M F A) (st : Server F)
      → P st
      → P (m st.queues.value st).1
      → P (with_queues m st).1
  unfolding with_queues
  own_queues-keeps m st =
      guarded-keeps (λ st. st.queues.poisoned) poison_queues (λ st. m st.queues.value st) st
        v.bad_queues

  pub Keeps-own_queues :
      (m : JobStorage → M F A)
      → ((st : Server F) → P st → P (m st.queues.value st).1)
      → Keeps P (with_queues m)
  Keeps-own_queues m k = record { kept = λ st h. own_queues-keeps m st h (k st h) }

  pub Keeps-with_queues :
      (m : JobStorage → M F A) → ((s : JobStorage) → Keeps P (m s)) → Keeps P (with_queues m)
  Keeps-with_queues m k = Keeps-own_queues m λ st h. (k st.queues.value).kept st h

  pub Keeps-with_workers :
      (m : Workers → M F A) → ((s : Workers) → Keeps P (m s)) → Keeps P (with_workers m)
  unfolding with_workers
  Keeps-with_workers m k =
      Keeps-guarded _ _ _ v.bad_workers (record { kept = λ st h. (k st.workers.value).kept st h })

  pub Keeps-with_senders :
      (m : Map ℕ ℕ → M F A) → ((s : Map ℕ ℕ) → Keeps P (m s)) → Keeps P (with_senders m)
  unfolding with_senders
  Keeps-with_senders m k =
      Keeps-guarded _ _ _ v.bad_senders (record { kept = λ st h. (k st.senders.value).kept st h })

  pub Keeps-with_waiters :
      (m : Map Bytes (List ℕ) → M F A)
      → ((s : Map Bytes (List ℕ)) → Keeps P (m s))
      → Keeps P (with_waiters m)
  unfolding with_waiters
  Keeps-with_waiters m k =
      Keeps-guarded _ _ _ v.bad_waiters
        (record { kept = λ st h. (k st.job_waiters.value).kept st h })

  pub Keeps-with_conns :
      (m : Map ℕ ℕ → M F A) → ((s : Map ℕ ℕ) → Keeps P (m s)) → Keeps P (with_conns m)
  unfolding with_conns
  Keeps-with_conns m k =
      Keeps-guarded _ _ _ v.bad_conns
        (record { kept = λ st h. (k st.workers_by_conn.value).kept st h })

  pub Keeps-with_worker :
      (n : ℕ) (m : Worker F → M F A) → ((s : Worker F) → Keeps P (m s)) → Keeps P (with_worker n m)
  unfolding with_worker
  Keeps-with_worker n m k =
      Keeps-guarded _ _ _ (v.bad_cell n) (record { kept = λ st h. at (Assoc.get n st.cells) st h })
    where
      at : (o : Option (Mutex (Worker F))) (st : Server F) → P st → P (at_cell m o st).1
      at none st h = h
      at (some c) st h = (k c.value).kept st h

module _ {F A : Type 0} {P : Server F → Type 0} where
  pub Keeps-if : (b : Bool) (m n : M F A) → Keeps P m → Keeps P n → Keeps P (if b then m else n)
  Keeps-if true m n k l = k
  Keeps-if false m n k l = l

  pub Keeps-option :
      {B : Type 0} (o : Option B) (m : M F A) (f : B → M F A)
      → Keeps P m
      → ((b : B) → Keeps P (f b))
      → Keeps P (elim o [ none ↦ m | some b ↦ f b ])
  Keeps-option none m f k l = k
  Keeps-option (some b) m f k l = l b
