-- ===== src/Threads/Machine.antt =====
-- Threads that run interleaved: one step of one thread after the other, as a schedule says.
use rustygear.Outcome.{err, ok, Outcome, panic}
use rustygear.Prelude.{ℕ, zero, suc, Option, none, some, List, [], ◌∷◌, ◌++◌, nat_eq, if◌then◌else◌}
use rustygear.Service.State.{Server}
use rustygear.Threads.Order.{locked}
use rustygear.Threads.Program.{Lock, Prog, done, acquire, unlock, act, poisoned, poison, unguarded}

-- `held` lists the guards, the latest first.
pub record Thread (F : Type 0) : Type 0 where
  pub held : List Lock
  pub prog : Prog F (Unit {0})

module _ {F : Type 0} where
  -- The guards of all threads.
  unfoldable pub taken : List (Thread F) → List Lock
  taken [] = []
  taken (t ∷ ts) = t.held ++ taken ts

  -- A thread that is at its end drops the guards that it still holds, one a step; a panic poisons
  -- the mutex of each.
  unfoldable pub unwind : List Lock → Outcome (Unit {0}) → Server F → Option (Thread F × Server F)
  unfolding poison
  unwind [] r st = none
  unwind (l ∷ hs) (ok a) st = some (record { held = hs; prog = done (ok a) }, st)
  unwind (l ∷ hs) (err e) st = some (record { held = hs; prog = done (err e) }, st)
  unwind (l ∷ hs) panic st = some (record { held = hs; prog = done panic }, poison l st)

  -- `lock().unwrap()`: it waits where a thread has the guard, and panics where the mutex is poisoned.
  unfoldable pub enter :
      List Lock → List Lock → Lock → Prog F (Unit {0}) → Server F → Option (Thread F × Server F)
  unfolding locked poisoned
  enter all hs l p st =
      if locked l all
      then none
      else if poisoned l st
      then some (record { held = hs; prog = done panic }, st)
      else some (record { held = l ∷ hs; prog = p }, st)

  -- One step of a thread, none where it has ended or must wait.
  unfoldable pub advance :
      List Lock → List Lock → Prog F (Unit {0}) → Server F → Option (Thread F × Server F)
  unfolding unwind enter
  advance all hs (done r) st = unwind hs r st
  advance all hs (acquire l p) st = enter all hs l p st
  advance all hs (unlock p) st = some (record { held = unguarded hs; prog = p }, st)
  advance all hs (act g k) st = some (record { held = hs; prog = k st }, g st)

  abbrev pub put_first :
      List (Thread F) → Option (Thread F × Server F) → Option (List (Thread F) × Server F)
  put_first ts none = none
  put_first ts (some (t, st)) = some (t ∷ ts, st)

  abbrev pub put_rest :
      Thread F → Option (List (Thread F) × Server F) → Option (List (Thread F) × Server F)
  put_rest t none = none
  put_rest t (some (ts, st)) = some (t ∷ ts, st)

  -- One step of the thread at a place.
  unfoldable pub step_at :
      List Lock → ℕ → List (Thread F) → Server F → Option (List (Thread F) × Server F)
  unfolding advance
  step_at all i [] st = none
  step_at all zero (t ∷ ts) st = put_first ts (advance all t.held t.prog st)
  step_at all (suc i) (t ∷ ts) st = put_rest t (step_at all i ts st)

  unfoldable pub step : ℕ → List (Thread F) × Server F → Option (List (Thread F) × Server F)
  unfolding step_at taken
  step i (ts, st) = step_at (taken ts) i ts st

  -- A thread that cannot take its turn lets it pass.
  abbrev pub turn :
      List (Thread F) × Server F → Option (List (Thread F) × Server F) → List (Thread F) × Server F
  turn c none = c
  turn c (some d) = d

  unfoldable pub run : List ℕ → List (Thread F) × Server F → List (Thread F) × Server F
  unfolding step
  run [] c = c
  run (i ∷ is) c = run is (turn c (step i c))

  unfoldable pub start : List (Prog F (Unit {0})) → List (Thread F)
  start [] = []
  start (p ∷ ps) = record { held = []; prog = p } ∷ start ps
