-- ===== src/Threads/Schedule.antt =====
-- What every schedule of the tasks leads to.
use rustygear.Outcome.{ok, err, panic}
use rustygear.Prelude.{
  ℕ, zero, suc, ◌≡◌, Bool-cases, inl, inr, ◌⊎◌, Option, none, some, List, [], ◌∷◌,
}
use rustygear.Service.State.{Server}
use rustygear.Threads.Connections.{Task, program}
use rustygear.Threads.Equal.Connections.{program-Does}
use rustygear.Threads.Machine.{
  Thread, taken, advance, unwind, enter, put_first, put_rest, step_at, step, turn, run, start,
}
use rustygear.Threads.Order.{locked, Ordered}
use rustygear.Threads.Program.{Lock, Prog, done, acquire, unlock, act, poisoned}
use rustygear.Threads.Progress.{AllOrdered, AllEnded, step-AllOrdered}
use rustygear.Worker.{WrappingSet}

module _ {F : Type 0} where
  abbrev pub Kept : Option (Thread F × Server F) → Type 0
  Kept none = Unit {0}
  Kept (some (t, st)) = Ordered t.held t.prog []

  abbrev pub AllKept : Option (List (Thread F) × Server F) → Type 0
  AllKept none = Unit {0}
  AllKept (some (ts, st)) = AllOrdered ts

  advance-Kept :
      (all hs : List Lock) (p : Prog F (Unit {0})) (st : Server F)
      → Ordered hs p []
      → Kept (advance all hs p st)
  unfolding advance unwind enter
  advance-Kept all [] (done r) st o = tt
  advance-Kept all (l ∷ hs) (done (ok a)) st o = cc
  advance-Kept all (l ∷ hs) (done (err e)) st o = cc
  advance-Kept all (l ∷ hs) (done panic) st o = tt
  advance-Kept all hs (acquire l p) st (b, o) = elim (Bool-cases (locked l all)) [
    | inl e ↦ rw e tt
    | inr e ↦ elim (Bool-cases (poisoned l st)) [ inl h ↦ rw (e, h) tt | inr h ↦ rw (e, h) o ]
  ]
  advance-Kept all hs (unlock p) st o = o
  advance-Kept all hs (act g k) st o = (o st).1

  put_first-AllKept :
      (ts : List (Thread F)) (r : Option (Thread F × Server F))
      → AllOrdered ts
      → Kept r
      → AllKept (put_first ts r)
  put_first-AllKept ts none os o = tt
  put_first-AllKept ts (some (t, st)) os o = (o, os)

  put_rest-AllKept :
      (t : Thread F) (r : Option (List (Thread F) × Server F))
      → Ordered t.held t.prog []
      → AllKept r
      → AllKept (put_rest t r)
  put_rest-AllKept t none o os = tt
  put_rest-AllKept t (some (ts, st)) o os = (o, os)

  pub step_at-AllKept :
      (all : List Lock) (i : ℕ) (ts : List (Thread F)) (st : Server F)
      → AllOrdered ts
      → AllKept (step_at all i ts st)
  unfolding step_at
  step_at-AllKept all i [] st o = tt
  step_at-AllKept all zero (t ∷ ts) st (o, os) =
      put_first-AllKept ts _ os (advance-Kept all t.held t.prog st o)
  step_at-AllKept all (suc i) (t ∷ ts) st (o, os) =
      put_rest-AllKept t _ o (step_at-AllKept all i ts st os)

  turn-AllOrdered :
      (c : List (Thread F) × Server F) (r : Option (List (Thread F) × Server F))
      → AllOrdered c.0
      → AllKept r
      → AllOrdered (turn c r).0
  turn-AllOrdered c none o k = o
  turn-AllOrdered c (some d) o k = k

  pub run-AllOrdered :
      (schedule : List ℕ) (c : List (Thread F) × Server F)
      → AllOrdered c.0
      → AllOrdered (run schedule c).0
  unfolding run step
  run-AllOrdered [] c o = o
  run-AllOrdered (i ∷ is) c o =
      run-AllOrdered is (turn c (step i c))
        (turn-AllOrdered c (step i c) o (step_at-AllKept (taken c.0) i c.0 c.1 o))

module _ {F : Type 0} ⦃w : WrappingSet F⦄ where
  -- The tasks, none of which has begun.
  abbrev pub programs : List Task → List (Prog F (Unit {0}))
  programs [] = []
  programs (t ∷ ts) = program t ∷ programs ts

pub start-AllOrdered :
    (F : Type 0) ⦃w : WrappingSet F⦄ (tasks : List Task)
    → AllOrdered (start {F = F} (programs tasks))
unfolding start
start-AllOrdered F [] = tt
start-AllOrdered F (t ∷ ts) = ((program-Does t).orders [] tt, start-AllOrdered F ts)

module _ {F : Type 0} ⦃w : WrappingSet F⦄ where
  -- No deadlock: from every state of the shared tables and after every schedule of the steps of any
  -- tasks (of the accept loop, of readers with what their streams yield and of writers with the
  -- results of their sends), either all tasks have ended, holding no mutex, or some task can take a
  -- step.
  pub run-progress :
      (tasks : List Task) (schedule : List ℕ) (st : Server F)
      → let c = run schedule (start (programs tasks), st) in
        AllEnded c.0 ⊎ ((i : ℕ) × ((d : List (Thread F) × Server F) × (step i c ≡ some d)))
  run-progress tasks schedule st =
      let c = run schedule (start (programs tasks), st) in
      step-AllOrdered c.0 c.1
        (run-AllOrdered schedule (start (programs tasks), st) (start-AllOrdered F tasks))
