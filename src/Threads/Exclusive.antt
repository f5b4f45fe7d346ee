-- ===== src/Threads/Exclusive.antt =====
-- Who holds the mutexes of the server, and who changes the storage.
pub mod Guards
use rustygear.Outcome.{ok, err, panic}
use rustygear.Prelude.{
  ℕ, zero, suc, ◌+◌, ◌≤◌, ◌≡◌, refl, true, false, Bool-cases, inl, inr, ◌⊎◌, Option, none, some,
  List, [], ◌∷◌, ◌++◌, arith, if◌then◌else◌, nat_eq, nat_beq_iff, ◌∙◌,
}
use rustygear.Service.State.{Server}
use rustygear.Threads.Connections.{Task}
use rustygear.Threads.Machine.{
  Thread, taken, advance, unwind, enter, put_first, put_rest, step_at, step, turn, run, start,
}
use rustygear.Threads.Order.{Ordered, Minds, locked, lock_eq, rank, cell_of}
use rustygear.Threads.Program.{Lock, Prog, done, acquire, unlock, act, poisoned, unguarded}
use rustygear.Threads.Progress.{AllOrdered}
use rustygear.Threads.Schedule.{programs, run-AllOrdered, start-AllOrdered}
use rustygear.Threads.Tickets.Steps.{poison-same}
use rustygear.Worker.{WrappingSet}
use Guards.{guards, run-guards, start-guards}

module _ {F : Type 0} where
  -- The guards of the thread at a place.
  abbrev pub held_at : ℕ → List (Thread F) → List Lock
  held_at i [] = []
  held_at zero (t ∷ ts) = t.held
  held_at (suc i) (t ∷ ts) = held_at i ts

  abbrev Heeds : List Lock → Server F → Option (Thread F × Server F) → Type 0
  Heeds hs st none = Unit {0}
  Heeds hs st (some (t, st')) = Minds hs st st'

  abbrev AllHeed : List Lock → Server F → Option (List (Thread F) × Server F) → Type 0
  AllHeed hs st none = Unit {0}
  AllHeed hs st (some (ts, st')) = Minds hs st st'

  advance-Heeds :
      (all hs : List Lock) (p : Prog F (Unit {0})) (st : Server F)
      → Ordered hs p []
      → Heeds hs st (advance all hs p st)
  unfolding advance unwind enter
  advance-Heeds all [] (done r) st o = tt
  advance-Heeds all (l ∷ hs) (done (ok a)) st o = inl refl
  advance-Heeds all (l ∷ hs) (done (err e)) st o = inl refl
  advance-Heeds all (l ∷ hs) (done panic) st o = inl (poison-same l st).0
  advance-Heeds all hs (acquire l p) st o = elim (Bool-cases (locked l all)) [
    | inl e ↦ rw e tt
    | inr e ↦ elim (Bool-cases (poisoned l st)) [
      | inl h ↦ rw (e, h) (inl refl)
      | inr h ↦ rw (e, h) (inl refl)
    ]
  ]
  advance-Heeds all hs (unlock p) st o = inl refl
  advance-Heeds all hs (act g k) st o = (o st).0

  put_first-AllHeed :
      (hs : List Lock) (st : Server F) (ts : List (Thread F)) (r : Option (Thread F × Server F))
      → Heeds hs st r
      → AllHeed hs st (put_first ts r)
  put_first-AllHeed hs st ts none h = tt
  put_first-AllHeed hs st ts (some (t, st')) h = h

  put_rest-AllHeed :
      (hs : List Lock) (st : Server F) (t : Thread F) (r : Option (List (Thread F) × Server F))
      → AllHeed hs st r
      → AllHeed hs st (put_rest t r)
  put_rest-AllHeed hs st t none h = tt
  put_rest-AllHeed hs st t (some (ts, st')) h = h

  step_at-AllHeed :
      (all : List Lock) (i : ℕ) (ts : List (Thread F)) (st : Server F)
      → AllOrdered ts
      → AllHeed (held_at i ts) st (step_at all i ts st)
  unfolding step_at
  step_at-AllHeed all i [] st o = tt
  step_at-AllHeed all zero (t ∷ ts) st (o, os) =
      put_first-AllHeed t.held st ts _ (advance-Heeds all t.held t.prog st o)
  step_at-AllHeed all (suc i) (t ∷ ts) st (o, os) =
      put_rest-AllHeed (held_at i ts) st t _ (step_at-AllHeed all i ts st os)

  heeds :
      (hs : List Lock) (st : Server F) (r : Option (List (Thread F) × Server F))
      (d : List (Thread F) × Server F)
      → AllHeed hs st r
      → r ≡ some d
      → Minds hs st d.1
  heeds hs st r d h e = rw e at h

module _ {F : Type 0} ⦃w : WrappingSet F⦄ where
  -- After every schedule of the steps of any tasks of the server, from every state of the shared
  -- tables, no mutex is held more than once, and a step that a task can take then leaves the jobs,
  -- queues and remotes of the storage as they are, or the task holds the mutex of the storage.
  pub run_exclusive :
      (tasks : List Task) (schedule : List ℕ) (st : Server F) (l : Lock) (i : ℕ)
      (d : List (Thread F) × Server F)
      → step i (run schedule (start (programs tasks), st)) ≡ some d
      → let c = run schedule (start (programs tasks), st) in
        (guards l (taken c.0) ≤ 1)
        × ((d.1.queues.value ≡ c.1.queues.value) ⊎ (locked Lock.queues (held_at i c.0) ≡ true))
  unfolding step
  run_exclusive tasks schedule st l i d e =
      let begin : List (Thread F) = start (programs tasks) in
      let c = run schedule (begin, st) in
      let kept = run-AllOrdered schedule (begin, st) (start-AllOrdered F tasks) in
      (
        run-guards l schedule (begin, st) (omega (arith, start-guards {F = F} l (programs tasks))),
        heeds (held_at i c.0) c.1 (step i c) d (step_at-AllHeed (taken c.0) i c.0 c.1 kept) e,
      )
