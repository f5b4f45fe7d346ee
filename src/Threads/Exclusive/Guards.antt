-- ===== src/Threads/Exclusive/Guards.antt =====
-- How often each mutex of the server is held.
use rustygear.Outcome.{ok, err, panic}
use rustygear.Prelude.{
  ℕ, zero, suc, ◌+◌, ◌≤◌, ◌≡◌, refl, true, false, Bool-cases, inl, inr, Option, none, some, List,
  [], ◌∷◌, ◌++◌, arith, if◌then◌else◌, nat_eq, nat_beq_iff, ◌∙◌,
}
use rustygear.Service.State.{Server}
use rustygear.Threads.Machine.{
  Thread, taken, advance, unwind, enter, put_first, put_rest, step_at, step, turn, run, start,
}
use rustygear.Threads.Order.{locked, lock_eq, rank, cell_of}
use rustygear.Threads.Program.{Lock, Prog, done, acquire, unlock, act, poisoned, unguarded}

-- How often a mutex is among the guards.
abbrev pub guards : Lock → List Lock → ℕ
guards l [] = 0
guards l (h ∷ hs) = (if lock_eq l h then 1 else 0) + guards l hs

guards-append : (l : Lock) (hs gs : List Lock) → guards l (hs ++ gs) ≡ guards l hs + guards l gs
guards-append l [] gs = omega arith
guards-append l (h ∷ hs) gs = omega (arith, guards-append l hs gs)

guards-locked : (l : Lock) (hs : List Lock) → locked l hs ≡ false → guards l hs ≡ 0
unfolding locked
guards-locked l [] e = refl
guards-locked l (h ∷ hs) e = ground (arith, guards-locked l hs)

guards-unguarded : (l : Lock) (hs : List Lock) → guards l (unguarded hs) ≤ guards l hs
guards-unguarded l [] = omega arith
guards-unguarded l (h ∷ hs) = omega arith

-- Two names of one mutex.
locked-lock_eq : (l m : Lock) (hs : List Lock) → lock_eq l m ≡ true → locked l hs ≡ locked m hs
unfolding locked lock_eq
locked-lock_eq l m [] e = refl
locked-lock_eq l m (h ∷ hs) e =
    let ranks : rank l ≡ rank m = ground (arith, nat_beq_iff (rank l) (rank m)) in
    let cells : cell_of l ≡ cell_of m =
      ground (arith, nat_beq_iff (cell_of l) (cell_of m), nat_beq_iff (rank l) (rank m)) in
    rw (ranks, cells, locked-lock_eq l m hs e) refl

-- The guards that one step may add.
abbrev room : Lock → List Lock → ℕ
room l all = if locked l all then 0 else 1

enter_room :
    (l m : Lock) (all hs : List Lock)
    → locked m all ≡ false
    → guards l (m ∷ hs) ≤ guards l hs + room l all
enter_room l m all hs e = elim (Bool-cases (lock_eq l m)) [
  | inl same ↦
      let unlocked : locked l all ≡ false = locked-lock_eq l m all same ∙ e in
      rw (same, unlocked) (omega arith)
  | inr differ ↦ rw differ (omega arith)
]

module _ {F : Type 0} where
  -- A step adds at most one guard, of a mutex that was free.
  module _ (l : Lock) (all : List Lock) where
    abbrev Adds : List Lock → Option (Thread F × Server F) → Type 0
    Adds hs none = Unit {0}
    Adds hs (some (t, st)) = guards l t.held ≤ guards l hs + room l all

    abbrev AllAdd : List (Thread F) → Option (List (Thread F) × Server F) → Type 0
    AllAdd ts none = Unit {0}
    AllAdd ts (some (us, st)) = guards l (taken us) ≤ guards l (taken ts) + room l all

    enter-Adds :
        (hs : List Lock) (m : Lock) (p : Prog F (Unit {0})) (st : Server F)
        → Adds hs (enter all hs m p st)
    unfolding enter
    enter-Adds hs m p st = elim (Bool-cases (locked m all)) [
      | inl e ↦ rw e tt
      | inr e ↦ elim (Bool-cases (poisoned m st)) [
        | inl h ↦ rw (e, h) (omega arith)
        | inr h ↦ rw (e, h) (enter_room l m all hs e)
      ]
    ]

    advance-Adds :
        (hs : List Lock) (p : Prog F (Unit {0})) (st : Server F) → Adds hs (advance all hs p st)
    unfolding advance unwind
    advance-Adds [] (done r) st = tt
    advance-Adds (h ∷ hs) (done (ok a)) st = omega arith
    advance-Adds (h ∷ hs) (done (err e)) st = omega arith
    advance-Adds (h ∷ hs) (done panic) st = omega arith
    advance-Adds hs (acquire m p) st = enter-Adds hs m p st
    advance-Adds hs (unlock p) st = omega (arith, guards-unguarded l hs)
    advance-Adds hs (act g k) st = omega arith

    put_first-AllAdd :
        (t : Thread F) (ts : List (Thread F)) (r : Option (Thread F × Server F))
        → Adds t.held r
        → AllAdd (t ∷ ts) (put_first ts r)
    unfolding taken
    put_first-AllAdd t ts none h = tt
    put_first-AllAdd t ts (some (u, st)) h =
        omega (arith, h, guards-append l u.held (taken ts), guards-append l t.held (taken ts))

    put_rest-AllAdd :
        (t : Thread F) (ts : List (Thread F)) (r : Option (List (Thread F) × Server F))
        → AllAdd ts r
        → AllAdd (t ∷ ts) (put_rest t r)
    unfolding taken
    put_rest-AllAdd t ts none h = tt
    put_rest-AllAdd t ts (some (us, st)) h =
        omega (arith, h, guards-append l t.held (taken us), guards-append l t.held (taken ts))

    step_at-AllAdd :
        (i : ℕ) (ts : List (Thread F)) (st : Server F) → AllAdd ts (step_at all i ts st)
    unfolding step_at
    step_at-AllAdd i [] st = tt
    step_at-AllAdd zero (t ∷ ts) st = put_first-AllAdd t ts _ (advance-Adds t.held t.prog st)
    step_at-AllAdd (suc i) (t ∷ ts) st = put_rest-AllAdd t ts _ (step_at-AllAdd i ts st)

  turn-guards :
      (l : Lock) (c : List (Thread F) × Server F) (r : Option (List (Thread F) × Server F))
      → guards l (taken c.0) ≤ 1
      → AllAdd l (taken c.0) c.0 r
      → guards l (taken (turn c r).0) ≤ 1
  turn-guards l c none h a = h
  turn-guards l c (some d) h a = elim (Bool-cases (locked l (taken c.0))) [
    | inl e ↦ let same : guards l (taken d.0) ≤ guards l (taken c.0) + 0 = rw e at a in omega arith
    | inr e ↦
        let more : guards l (taken d.0) ≤ guards l (taken c.0) + 1 = rw e at a in
        omega (arith, guards-locked l (taken c.0) e)
  ]

  pub run-guards :
      (l : Lock) (schedule : List ℕ) (c : List (Thread F) × Server F)
      → guards l (taken c.0) ≤ 1
      → guards l (taken (run schedule c).0) ≤ 1
  unfolding run step
  run-guards l [] c h = h
  run-guards l (i ∷ is) c h =
      run-guards l is (turn c (step i c))
        (turn-guards l c (step i c) h (step_at-AllAdd l (taken c.0) i c.0 c.1))

  pub start-guards : (l : Lock) (ps : List (Prog F (Unit {0}))) → guards l (taken (start ps)) ≡ 0
  unfolding start taken
  start-guards l [] = refl
  start-guards l (p ∷ ps) = start-guards l ps
