-- ===== src/Worker/Presence.antt =====
-- What rustygeard/src/worker.rs promises of its sets: where each connection stands for each
-- function.
use rustygear.Prelude.{
  inr, inl, Option-cases, Bool-cases, ℕ, ◌≡◌, refl, ap, Bool, true, false, ◌&&◌, none, some, List,
  [], ◌∷◌, arith, Bytes, bytes_eq, nat_eq, bytes_beq_iff, ◌==◌, if◌then◌else◌,
}
use rustygear.Prelude.Assoc
use rustygear.Prelude.Assoc.{Map, get-insert}
use rustygear.Prelude.Finite
use rustygear.Prelude.Finite.{contains-insert, contains-remove, contains-extend}
use rustygear.Worker.{
  iter, sleep, wakeup, Worker, Workers, queue_wake, without, shutdown, WrappingSet, WorkerSet,
  sleep_one, sleep_all, wakeup_one, wakeup_all,
}

pub data Presence : Type 0 where
  absent sleeping awake both : Presence

abbrev pub presence_of : Bool → Bool → Presence
presence_of false false = absent
presence_of false true = sleeping
presence_of true false = awake
presence_of true true = both

-- Where a connection stands in the two sets.
abbrev pub stand : WorkerSet → ℕ → Presence
stand s r = presence_of (Finite.contains r s.active) (Finite.contains r s.inactive)

unfoldable pub presence : Bytes → ℕ → Map Bytes WorkerSet → Presence
presence f r m = elim (Assoc.get f m) [ none ↦ absent | some s ↦ stand s r ]

presence-insert :
    (f g : Bytes) (r : ℕ) (s : WorkerSet) (m : Map Bytes WorkerSet)
    → presence g r (Assoc.insert f s m) ≡ (if f == g then stand s r else presence g r m)
unfolding presence
presence-insert f g r s m = ground (arith, get-insert f g s m)

-- Replacing one entry by a set that differs from it in one connection.
presence-replace :
    (f g : Bytes) (remote r : ℕ) (s : WorkerSet) (p : Presence) (m : Map Bytes WorkerSet)
    → stand s r ≡ (if remote == r then p else presence f r m)
    → presence g r (Assoc.insert f s m) ≡ (if f == g && remote == r then p else presence g r m)
presence-replace f g remote r s p m h = elim (Bool-cases (f == g)) [
  | inl e ↦
      let same : f ≡ g = (bytes_beq_iff f g).0 e in
      rw (presence-insert f g r s m, e, h)
        (ap (λ (k : Bytes). if remote == r then p else presence k r m) same)
  | inr e ↦ rw (presence-insert f g r s m, e)
]

stand-sleep :
    (remote r : ℕ) (s : WorkerSet)
    → stand
        (record {
          active = Finite.remove remote s.active;
          inactive = Finite.insert remote s.inactive;
        })
        r
      ≡ (if remote == r then sleeping else stand s r)
stand-sleep remote r s =
    rw (contains-remove remote r s.active, contains-insert remote r s.inactive) (ground arith)

stand-wakeup :
    (remote r : ℕ) (s : WorkerSet)
    → stand
        (record {
          inactive = Finite.remove remote s.inactive;
          active = Finite.insert remote s.active;
        })
        r
      ≡ (if remote == r then awake else stand s r)
stand-wakeup remote r s =
    rw (contains-insert remote r s.active, contains-remove remote r s.inactive) (ground arith)

module _ (remote r : ℕ) (f g : Bytes) (m : Map Bytes WorkerSet) where
  presence-sleep_one :
      presence g r (sleep_one remote f m)
      ≡ (if f == g && remote == r then sleeping else presence g r m)
  unfolding sleep_one presence Finite.insert Finite.contains
  presence-sleep_one = elim (Option-cases (Assoc.get f m)) [
    | inl e ↦
        rw (e, sleep_one)
          (presence-replace f g remote r _ sleeping m (rw (e, presence) (ground arith)))
    | inr (s, e) ↦
        rw (e, sleep_one)
          (presence-replace f g remote r _ sleeping m (rw (e, presence) (stand-sleep remote r s)))
  ]

  presence-wakeup_one :
      presence g r (wakeup_one remote f m)
      ≡ (if f == g && remote == r then awake else presence g r m)
  unfolding wakeup_one presence Finite.insert Finite.contains
  presence-wakeup_one = elim (Option-cases (Assoc.get f m)) [
    | inl e ↦
        rw (e, wakeup_one)
          (presence-replace f g remote r _ awake m (rw (e, presence) (ground arith)))
    | inr (s, e) ↦
        rw (e, wakeup_one)
          (presence-replace f g remote r _ awake m (rw (e, presence) (stand-wakeup remote r s)))
  ]

presence-sleep_all :
    (remote r : ℕ) (fs : List Bytes) (g : Bytes) (m : Map Bytes WorkerSet)
    → presence g r (sleep_all remote fs m)
      ≡ (if Finite.contains g fs && remote == r then sleeping else presence g r m)
unfolding sleep_all Finite.contains
presence-sleep_all remote r [] g m = refl
presence-sleep_all remote r (f ∷ fs) g m = ground (
  arith,
  presence-sleep_all remote r fs g (sleep_one remote f m),
  presence-sleep_one remote r f g m,
)

presence-wakeup_all :
    (remote r : ℕ) (fs : List Bytes) (g : Bytes) (m : Map Bytes WorkerSet)
    → presence g r (wakeup_all remote fs m)
      ≡ (if Finite.contains g fs && remote == r then awake else presence g r m)
unfolding wakeup_all Finite.contains
presence-wakeup_all remote r [] g m = refl
presence-wakeup_all remote r (f ∷ fs) g m = ground (
  arith,
  presence-wakeup_all remote r fs g (wakeup_one remote f m),
  presence-wakeup_one remote r f g m,
)

-- Where everybody stands once the sleepers are woken.
abbrev pub woken : Presence → Presence
woken absent = absent
woken _ = awake

abbrev pub is_sleeper : Presence → Bool
is_sleeper sleeping = true
is_sleeper both = true
is_sleeper _ = false

presence-none :
    (f : Bytes) (r : ℕ) (m : Map Bytes WorkerSet) → Assoc.get f m ≡ none → presence f r m ≡ absent
unfolding presence
presence-none f r m e = rw (e, presence)

presence-some :
    (f : Bytes) (r : ℕ) (s : WorkerSet) (m : Map Bytes WorkerSet)
    → Assoc.get f m ≡ some s
    → presence f r m ≡ stand s r
unfolding presence
presence-some f r s m e = rw (e, presence)

sleeper-stand : (s : WorkerSet) (r : ℕ) → Finite.contains r s.inactive ≡ is_sleeper (stand s r)
sleeper-stand s r = ground arith

stand-woken :
    (s : WorkerSet) (r : ℕ)
    → stand (record { inactive = []; active = Finite.extend s.active s.inactive }) r
      ≡ woken (stand s r)
unfolding Finite.contains
stand-woken s r = rw (contains-extend r s.active s.inactive) (ground arith)

-- `queue_wake` returns exactly the sleepers of its function, who are awake afterwards; other
-- functions and connections stay as they are.
pub queue_wake-presence :
    (f g : Bytes) (r : ℕ) (ws : Workers)
    → (Finite.contains r (queue_wake f ws).0 ≡ is_sleeper (presence f r ws.allworkers))
      × (presence g r (queue_wake f ws).1.allworkers
          ≡ (if f == g then woken (presence g r ws.allworkers) else presence g r ws.allworkers))
unfolding queue_wake Finite.contains
queue_wake-presence f g r ws = elim (Option-cases (Assoc.get f ws.allworkers)) [
  | inl e ↦
      let gone = presence-none f r ws.allworkers e in
      rw (e, queue_wake) (ground (arith, gone), ground (arith, gone, bytes_beq_iff f g))
  | inr (s, e) ↦
      let here = presence-some f r s ws.allworkers e in
      rw (e, queue_wake)
        (
          rw here (sleeper-stand s r),
          rw (presence-insert f g r _ ws.allworkers, stand-woken s r)
              (ground (arith, here, bytes_beq_iff f g)),
        )
]

without-get :
    (c : ℕ) (g : Bytes) (m : Map Bytes WorkerSet) (r : ℕ)
    → presence g r (without c m) ≡ (if c == r then absent else presence g r m)
unfolding without presence Assoc.get
without-get c g [] r = ground arith
without-get c g ((f, s) ∷ m) r =
    ground
      (arith, without-get c g m r, contains-remove c r s.inactive, contains-remove c r s.active)

-- After `shutdown` the connection stands in no set, and the others stand where they stood.
pub shutdown-presence :
    (c : ℕ) (g : Bytes) (r : ℕ) (ws : Workers)
    → presence g r (shutdown c ws).allworkers
      ≡ (if c == r then absent else presence g r ws.allworkers)
unfolding shutdown
shutdown-presence c g r ws = without-get c g ws.allworkers r

module _ {F : Type 0} ⦃w : WrappingSet F⦄ where
  -- What a worker says that it can do.
  abbrev pub can : Bytes → Worker F → Bool
  can g worker = Finite.contains g (w.iter worker.functions).0

  module _ (worker : Worker F) (remote : ℕ) (ws : Workers) (g : Bytes) where
    -- `sleep` puts its connection to sleep for exactly the functions that the worker can do, and
    -- changes neither another function or connection nor what the worker can do.
    pub sleep-presence :
        (r : ℕ)
        → (presence g r (sleep worker remote ws).1.allworkers
            ≡ (if can g worker && remote == r then sleeping else presence g r ws.allworkers))
          × (can g (sleep worker remote ws).0 ≡ can g worker)
    unfolding sleep iter
    sleep-presence r = (
      presence-sleep_all remote r (w.iter worker.functions).0 g ws.allworkers,
      w.iter-iter g worker.functions,
    )

    -- `wakeup` makes its connection awake for exactly the functions that the worker can do, and
    -- changes neither another function or connection nor what the worker can do.
    pub wakeup-presence :
        (r : ℕ)
        → (presence g r (wakeup worker remote ws).1.allworkers
            ≡ (if can g worker && remote == r then awake else presence g r ws.allworkers))
          × (can g (wakeup worker remote ws).0 ≡ can g worker)
    unfolding wakeup iter
    wakeup-presence r = (
      presence-wakeup_all remote r (w.iter worker.functions).0 g ws.allworkers,
      w.iter-iter g worker.functions,
    )
