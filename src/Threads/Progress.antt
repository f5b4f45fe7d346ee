-- ===== src/Threads/Progress.antt =====
-- The threads of the server never stand still: while one has not ended, some thread can step.
use native.Mathlib.Decide.{dec_lt}
use rustygear.Outcome.{Outcome, ok, err, panic}
use rustygear.Prelude.{
  ℕ, zero, suc, ◌<◌, ◌≤◌, ◌≡◌, refl, true, false, Bool-cases, inl, inr, ◌⊎◌, nat_beq_iff, some,
  List, [], ◌∷◌, ◌++◌, arith,
}
use rustygear.Service.State.{Server}
use rustygear.Threads.Machine.{enter, unwind, Thread, taken, advance, step_at, step}
use rustygear.Threads.Order.{lock_eq, locked, rank, Below, Ordered}
use rustygear.Threads.Program.{Lock, Prog, done, acquire, unlock, act, poisoned}

-- A mutex past all those that are locked is free.
free : (n : ℕ) (l : Lock) (all : List Lock) → Below n all → n ≤ rank l → locked l all ≡ false
unfolding locked lock_eq
free n l [] b h = refl
free n l (m ∷ all) (b, bs) h = ground (arith, nat_beq_iff (rank l) (rank m), free n l all bs h)

Below-last : (hs : List Lock) → Below 6 hs
unfolding rank
Below-last [] = tt
Below-last (Lock.conns ∷ hs) = (omega arith, Below-last hs)
Below-last (Lock.cell k ∷ hs) = (omega arith, Below-last hs)
Below-last (Lock.queues ∷ hs) = (omega arith, Below-last hs)
Below-last (Lock.workers ∷ hs) = (omega arith, Below-last hs)
Below-last (Lock.waiters ∷ hs) = (omega arith, Below-last hs)
Below-last (Lock.senders ∷ hs) = (omega arith, Below-last hs)

Below-append : (n : ℕ) (hs gs : List Lock) → Below n hs → Below n gs → Below n (hs ++ gs)
Below-append n [] gs b c = c
Below-append n (l ∷ hs) gs (b, bs) c = (b, Below-append n hs gs bs c)

-- Guards below the place after n are below n, or else are below no place up to n.
lower : (n : ℕ) (hs : List Lock) → Below (suc n) hs → Below n hs ⊎ ((m : ℕ) → Below m hs → n < m)
lower n [] b = inl tt
lower n (l ∷ hs) (b, bs) = elim (dec_lt (rank l) n) [
  | no p ↦ inr (λ m (c, cs). omega arith)
  | yes p ↦ elim (lower n hs bs) [ inl c ↦ inl (p, c) | inr far ↦ inr (λ m (c, cs). far m cs) ]
]

Below-split : (n : ℕ) (hs gs : List Lock) → Below n (hs ++ gs) → Below n hs × Below n gs
Below-split n [] gs b = (tt, b)
Below-split n (l ∷ hs) gs (b, bs) = let (c, d) = Below-split n hs gs bs in ((b, c), d)

Below-first : (hs : List Lock) → Below 0 hs → hs ≡ []
Below-first [] b = refl
Below-first (l ∷ hs) (b, bs) = absurd (omega arith)

far_none : (n : ℕ) (hs : List Lock) → ((m : ℕ) → Below m hs → n < m) → hs ≡ [] → ⊥
far_none n [] far e = omega (arith, far 0 tt)
far_none n (l ∷ hs) far e = cc

module _ {F : Type 0} where
  -- Every thread keeps to the order from where it is, and holds nothing at its end.
  abbrev pub AllOrdered : List (Thread F) → Type 0
  AllOrdered [] = Unit {0}
  AllOrdered (t ∷ ts) = Ordered t.held t.prog [] × AllOrdered ts

  abbrev pub Ended : List Lock → Prog F (Unit {0}) → Type 0
  Ended hs p = (hs ≡ []) × ((r : Outcome (Unit {0})) × (p ≡ done r))

  abbrev pub AllEnded : List (Thread F) → Type 0
  AllEnded [] = Unit {0}
  AllEnded (t ∷ ts) = Ended t.held t.prog × AllEnded ts

  -- Why a thread does not step: it has ended, or it waits for a mutex that is locked.
  data Outlook (all hs : List Lock) (p : Prog F (Unit {0})) (st : Server F) : Type 0 where
    ended : Ended hs p → Outlook all hs p st
    steps : (r : Thread F × Server F) → advance all hs p st ≡ some r → Outlook all hs p st
    waits : (l : Lock) → Below (rank l) hs → locked l all ≡ true → Outlook all hs p st

  look :
      (all hs : List Lock) (p : Prog F (Unit {0})) (st : Server F)
      → Ordered hs p []
      → Outlook all hs p st
  unfolding advance unwind enter
  look all [] (done r) st o = ended (refl, (r, refl))
  look all (l ∷ hs) (done (ok a)) st o = steps _ refl
  look all (l ∷ hs) (done (err e)) st o = steps _ refl
  look all (l ∷ hs) (done panic) st o = steps _ refl
  look all hs (acquire l p) st (b, o) = elim (Bool-cases (locked l all)) [
    | inl e ↦ waits l b e
    | inr e ↦ elim (Bool-cases (poisoned l st)) [
      | inl h ↦ steps (record { held = hs; prog = done panic }, st) (rw (e, h) refl)
      | inr h ↦ steps (record { held = l ∷ hs; prog = p }, st) (rw (e, h) refl)
    ]
  ]
  look all hs (unlock p) st o = steps _ refl
  look all hs (act g k) st o = steps _ refl

  abbrev Steps : List Lock → List (Thread F) → Server F → Type 0
  Steps all ts st = (i : ℕ) × ((d : List (Thread F) × Server F) × (step_at all i ts st ≡ some d))

  Steps-here :
      (all : List Lock) (t : Thread F) (ts : List (Thread F)) (st : Server F)
      (r : Thread F × Server F)
      → advance all t.held t.prog st ≡ some r
      → Steps all (t ∷ ts) st
  unfolding step_at
  Steps-here all t ts st (u, st') e = (0, ((u ∷ ts, st'), rw e refl))

  Steps-later :
      (all : List Lock) (t : Thread F) (ts : List (Thread F)) (st : Server F)
      → Steps all ts st
      → Steps all (t ∷ ts) st
  unfolding step_at
  Steps-later all t ts st (i, ((us, st'), e)) = (suc i, ((t ∷ us, st'), rw e refl))

  -- With no mutex locked, the first thread that has not ended steps.
  any-Steps : (ts : List (Thread F)) (st : Server F) → AllOrdered ts → AllEnded ts ⊎ Steps [] ts st
  unfolding locked
  any-Steps [] st o = inl tt
  any-Steps (t ∷ ts) st (o, os) = elim (look [] t.held t.prog st o) [
    | steps r e ↦ inr (Steps-here [] t ts st r e)
    | waits l b e ↦ cc
    | ended e ↦ elim (any-Steps ts st os) [
      | inl es ↦ inl (e, es)
      | inr s ↦ inr (Steps-later [] t ts st s)
    ]
  ]

  -- A thread with a guard at the last place that is locked steps.
  top-Steps :
      (n : ℕ) (all : List Lock) (ts : List (Thread F)) (st : Server F)
      → Below (suc n) all
      → Below (suc n) (taken ts)
      → AllOrdered ts
      → Below n (taken ts) ⊎ Steps all ts st
  unfolding taken
  top-Steps n all [] st h b o = inl tt
  top-Steps n all (t ∷ ts) st h b (o, os) =
      let (here, there) = Below-split (suc n) t.held (taken ts) b in
      elim (lower n t.held here) [
        | inl low ↦ elim (top-Steps n all ts st h there os) [
          | inl lows ↦ inl (Below-append n t.held (taken ts) low lows)
          | inr s ↦ inr (Steps-later all t ts st s)
        ]
        | inr far ↦ elim (look all t.held t.prog st o) [
          | steps r e ↦ inr (Steps-here all t ts st r e)
          | ended (e, r) ↦ absurd (far_none n t.held far e)
          | waits l b e ↦
              let unlocked : locked l all ≡ false = free (suc n) l all h (far (rank l) b) in cc
        ]
      ]

  Below-Steps :
      (n : ℕ) (ts : List (Thread F)) (st : Server F)
      → Below n (taken ts)
      → AllOrdered ts
      → AllEnded ts ⊎ Steps (taken ts) ts st
  Below-Steps zero ts st b o = rw (Below-first (taken ts) b) (any-Steps ts st o)
  Below-Steps (suc n) ts st b o = elim (top-Steps n (taken ts) ts st b b o) [
    | inl low ↦ Below-Steps n ts st low o
    | inr s ↦ inr s
  ]

  -- Threads that keep to the order have ended, or one of them can step.
  pub step-AllOrdered :
      (ts : List (Thread F)) (st : Server F)
      → AllOrdered ts
      → AllEnded ts ⊎ ((i : ℕ) × ((d : List (Thread F) × Server F) × (step i (ts, st) ≡ some d)))
  unfolding step
  step-AllOrdered ts st o = Below-Steps 6 ts st (Below-last (taken ts)) o
