-- ===== src/Threads/Does.antt =====
-- When a program does what a handler does: it ends as the handler does where no other task runs
-- beside it, it locks mutexes in their order, and it uses the job numbers that it has drawn.
pub mod Scopes
use rustygear.Outcome.{Outcome, ok, err, panic, IoError}
use rustygear.Prelude.{
  if◌then◌else◌, arith, Bool, ap, ◌∙◌, sym, refl, ℕ, suc, ◌≤◌, ◌≡◌, true, false, Bool-cases, inl,
  inr, Option-cases, Option, none, some, List, [], ◌∷◌, Bytes, bytes_eq, nat_eq,
}
use rustygear.Service.State
use rustygear.Service.State.{
  with_queues, M, Server, panics, modify, spawn_send, put_worker, fetch_add, allocate, release,
  guarded, continue, with_queues, with_workers, with_senders, with_waiters, with_conns, with_worker,
  at_cell, Mutex,
}
use rustygear.Packet.{Packet}
use rustygear.Prelude.Assoc
use rustygear.Prelude.Assoc.{Map}
use rustygear.Queues.{JobStorage}
use rustygear.Worker.{Workers, Worker}
use rustygear.Queues.{JobStorage}
use rustygear.Threads.Order.{locked, rank, Below, Below-up, Ordered, Ordered-closing, Ordered-bind}
use rustygear.Threads.Tickets.{Moves, Owns, quiet, Owns-bind, Owns-closing}
use rustygear.Threads.Tickets.Draws.{fetch-Moves}
use rustygear.Threads.Program.{
  Lock, Prog, done, acquire, unlock, act, atomic, within, closing, unguarded, poisoned, poison,
  poison_all, solo, ◌>>=◌, pure, queues_scope, workers_scope, senders_scope, waiters_scope,
  conns_scope, worker_scope, read_queues, read_workers, read_senders, read_waiters, read_conns,
  read_cell, cell_value,
}

module _ {F A B : Type 0} where
  abbrev and_then :
      Outcome A × List Lock × Server F → (A → Prog F B) → Outcome B × List Lock × Server F
  and_then (ok a, hs, st) f = solo (f a) hs st
  and_then (err e, hs, st) f = (err e, hs, st)
  and_then (panic, hs, st) f = (panic, hs, st)

  solo-bind :
      (p : Prog F A) (f : A → Prog F B) (hs : List Lock) (st : Server F)
      → solo (p >>= f) hs st ≡ and_then (solo p hs st) f
  unfolding solo
  solo-bind (done (ok a)) f hs st = refl
  solo-bind (done (err e)) f hs st = refl
  solo-bind (done panic) f hs st = refl
  solo-bind (acquire l p) f hs st = elim (Bool-cases (poisoned l st)) [
    | inl e ↦ rw e refl
    | inr e ↦ rw e (solo-bind p f (l ∷ hs) st)
  ]
  solo-bind (unlock p) f hs st = solo-bind p f (unguarded hs) st
  solo-bind (act g k) f hs st = solo-bind (k st) f hs (g st)

module _ {F A : Type 0} where
  abbrev pub after : List Lock → Outcome A × Server F → Outcome A × List Lock × Server F
  after hs (ok a, st) = (ok a, hs, st)
  after hs (err e, st) = (err e, hs, st)
  after hs (panic, st) = (panic, [], poison_all hs st)

  -- The program, run alone, ends as the handler does, with the guards that it came with; it locks
  -- only what comes at a place of the order or after it, and changes the storage only with its
  -- mutex; and it stores a job only with a number that it has drawn.
  pub record Does (n : ℕ) (t : Option ℕ) (m : M F A) (p : Prog F A) : Type 0 where
    pub alone : (hs : List Lock) (st : Server F) → solo p hs st ≡ after hs (m st)
    pub orders : (hs : List Lock) → Below n hs → Ordered hs p hs
    pub owns : Owns t p

  abbrev ends : Outcome A × Server F → Prog F A
  ends r = done r.0

  after-ends : (r : Outcome A × Server F) (hs : List Lock) → solo (ends r) hs r.1 ≡ after hs r
  unfolding solo
  after-ends (ok a, st) hs = refl
  after-ends (err e, st) hs = refl
  after-ends (panic, st) hs = refl

  ends-Ordered : (hs : List Lock) (r : Outcome A × Server F) → Ordered hs (ends r) hs
  ends-Ordered hs (ok a, st) = refl
  ends-Ordered hs (err e, st) = refl
  ends-Ordered hs (panic, st) = tt

  -- A change of neither the storage nor the job count.
  pub calm-Does :
      {n : ℕ} (m : M F A)
      → ((st : Server F)
          → ((m st).1.queues.value ≡ st.queues.value) × ((m st).1.job_count ≡ st.job_count))
      → Does n none m (atomic m)
  unfolding solo
  calm-Does m h = record {
    alone = λ hs st. after-ends (m st) hs;
    orders = λ hs b st. (inl (h st).0, ends-Ordered hs (m st));
    owns = λ st. (none, (quiet none st (m st).1 (h st).0 (h st).1, tt));
  }

  pub pure-Does : {n : ℕ} {t : Option ℕ} (a : A) → Does n t (State.pure a) (pure a)
  unfolding solo
  pure-Does a = record { alone = λ hs st. refl; orders = λ hs b. refl; owns = tt }

  pub err-Does : {n : ℕ} {t : Option ℕ} (e : IoError) → Does n t (λ st. (err e, st)) (done (err e))
  unfolding solo
  err-Does e = record { alone = λ hs st. refl; orders = λ hs b. refl; owns = tt }

  pub if-Does :
      {n : ℕ} {t : Option ℕ} (b : Bool) (m k : M F A) (p q : Prog F A)
      → Does n t m p
      → Does n t k q
      → Does n t (if b then m else k) (if b then p else q)
  if-Does true m k p q h i = h
  if-Does false m k p q h i = i

module _ {F A B : Type 0} where
  after-bind :
      {n : ℕ} (r : Outcome A × Server F) (f : A → M F B) (g : A → Prog F B) (hs : List Lock)
      → ((a : A) → Does n none (f a) (g a))
      → and_then (after hs r) g ≡ after hs (continue r f)
  after-bind (ok a, st) f g hs h = (h a).alone hs st
  after-bind (err e, st) f g hs h = refl
  after-bind (panic, st) f g hs h = refl

  pub bind-Does :
      {n : ℕ} {t : Option ℕ} (m : M F A) (p : Prog F A) (f : A → M F B) (g : A → Prog F B)
      → Does n t m p
      → ((a : A) → Does n none (f a) (g a))
      → Does n t (State.◌>>=◌ m f) (p >>= g)
  bind-Does {t = t} m p f g h k = record {
    alone = λ hs st.
        solo-bind p g hs st
        ∙ ap (λ (r : Outcome A × List Lock × Server F). and_then r g) (h.alone hs st)
        ∙ after-bind (m st) f g hs k;
    orders = λ hs b. Ordered-bind p g hs hs (h.orders hs b) (λ a. (k a).orders hs b);
    owns = Owns-bind t p g h.owns (λ a. (k a).owns);
  }

module _ {F A : Type 0} where
  abbrev close : Outcome A × List Lock × Server F → Outcome A × List Lock × Server F
  close (ok a, hs, st) = (ok a, unguarded hs, st)
  close (err e, hs, st) = (err e, unguarded hs, st)
  close (panic, hs, st) = (panic, hs, st)

  solo-closing :
      (p : Prog F A) (hs : List Lock) (st : Server F)
      → solo (closing p) hs st ≡ close (solo p hs st)
  unfolding solo
  solo-closing (done (ok a)) hs st = refl
  solo-closing (done (err e)) hs st = refl
  solo-closing (done panic) hs st = refl
  solo-closing (acquire l p) hs st = elim (Bool-cases (poisoned l st)) [
    | inl e ↦ rw e refl
    | inr e ↦ rw e (solo-closing p (l ∷ hs) st)
  ]
  solo-closing (unlock p) hs st = solo-closing p (unguarded hs) st
  solo-closing (act g k) hs st = solo-closing (k st) hs (g st)

  close-after :
      (l : Lock) (hs : List Lock) (r : Outcome A × Server F)
      → close (after (l ∷ hs) r) ≡ after hs (release (poison l) r)
  unfolding poison_all
  close-after l hs (ok a, st) = refl
  close-after l hs (err e, st) = refl
  close-after l hs (panic, st) = refl

  -- A scope, by what its body does with the guard.
  scope-Does :
      {n : ℕ} {t : Option ℕ} (l : Lock) (m : M F A) (p : Prog F A)
      → n ≤ rank l
      → ((hs : List Lock) (st : Server F) → solo p hs st ≡ after hs (m st))
      → ((hs : List Lock) → Below (rank l) hs → Ordered (l ∷ hs) p (l ∷ hs))
      → Owns t p
      → Does n t (guarded (poisoned l) (poison l) m) (within l p)
  unfolding solo
  scope-Does {n = n} {t = t} l m p below alone orders owns = record {
    alone = λ hs st. elim (Bool-cases (poisoned l st)) [
      | inl e ↦ rw e refl
      | inr e ↦
          rw e (solo-closing p (l ∷ hs) st ∙ ap close (alone (l ∷ hs) st) ∙ close-after l hs (m st))
    ];
    orders = λ hs b.
        let under : Below (rank l) hs = Below-up n (rank l) hs below b in
        (under, Ordered-closing p (l ∷ hs) (l ∷ hs) (orders hs under));
    owns = Owns-closing t p owns;
  }

  pub within-Does :
      {n : ℕ} {t : Option ℕ} (l : Lock) (m : M F A) (p : Prog F A)
      → n ≤ rank l
      → Does (suc (rank l)) t m p
      → Does n t (guarded (poisoned l) (poison l) m) (within l p)
  within-Does l m p below h =
      scope-Does l m p below h.alone
        (λ hs under.
          h.orders (l ∷ hs) (omega arith, Below-up (rank l) (suc (rank l)) hs (omega arith) under))
        h.owns

  -- One change of the storage, under its lock.
  pub storage-Does :
      {n : ℕ} {t : Option ℕ} (m : JobStorage → M F A)
      → n ≤ 2
      → ((st : Server F) → Moves t st (m st.queues.value st).1 none)
      → Does n t (with_queues m) (within Lock.queues (atomic (λ st. m st.queues.value st)))
  unfolding with_queues poisoned poison rank solo locked
  storage-Does m below h =
      scope-Does Lock.queues (λ st. m st.queues.value st) (atomic (λ st. m st.queues.value st))
        below (λ hs st. after-ends (m st.queues.value st) hs)
        (λ hs under st. (inr refl, ends-Ordered (Lock.queues ∷ hs) (m st.queues.value st)))
        (λ st. (none, (h st, tt)))
