-- ===== src/Threads/Tickets/Steps.antt =====
-- How a step of one task changes the numbers that the tasks have drawn.
use rustygear.Outcome.{Outcome, ok, err, panic}
use rustygear.Prelude.{
  ℕ, zero, suc, ◌+◌, ◌<◌, ◌^◌, ◌≡◌, refl, Bool-cases, inl, inr, Option, none, some, List, [], ◌∷◌,
  arith, Option-cases, bytes_eq, nat_eq,
}
use rustygear.Prelude.Assoc
use rustygear.Service.State.{Server, poison_cell}
use rustygear.Threads.Order.{locked}
use rustygear.Threads.Machine.{Thread, advance, unwind, enter, put_first, put_rest, step_at, turn}
use rustygear.Threads.Program.{Lock, Prog, done, acquire, unlock, act, poisoned, poison}
use rustygear.Threads.Tickets.{drawn, Fine, Fine-less, quiet, Owns}

-- The numbers that are drawn and not used, in all threads.
abbrev pub total : List (Option ℕ) → ℕ → ℕ
total [] k = 0
total (t ∷ ts) k = drawn t k + total ts k

module _ {F : Type 0} where
  pub poison-same :
      (l : Lock) (st : Server F)
      → ((poison l st).queues.value ≡ st.queues.value) × ((poison l st).job_count ≡ st.job_count)
  unfolding poison
  poison-same Lock.conns st = (refl, refl)
  poison-same Lock.queues st = (refl, refl)
  poison-same Lock.workers st = (refl, refl)
  poison-same Lock.waiters st = (refl, refl)
  poison-same Lock.senders st = (refl, refl)
  poison-same (Lock.cell k) st = elim (Option-cases (Assoc.get k st.cells)) [
    | inl e ↦ rw (e, poison_cell) (refl, refl)
    | inr (c, e) ↦ rw (e, poison_cell) (refl, refl)
  ]

  abbrev pub AllOwn : List (Thread F) → List (Option ℕ) → Type 0
  AllOwn [] [] = Unit {0}
  AllOwn (t ∷ ts) (u ∷ us) = Owns u t.prog × AllOwn ts us
  AllOwn ts us = ⊥

  -- What holds after a step of one thread, the others having drawn what they had.
  abbrev Stays : (ℕ → ℕ) → ℕ → Option (Thread F × Server F) → Type 0
  Stays others n none = Unit {0}
  Stays others n (some (t, st)) =
      (u : Option ℕ) × (Owns u t.prog × Fine (λ k. others k + drawn u k) n st)

  abbrev pub AllStay : (ℕ → ℕ) → ℕ → Option (List (Thread F) × Server F) → Type 0
  AllStay others n none = Unit {0}
  AllStay others n (some (ts, st)) =
      (us : List (Option ℕ)) × (AllOwn ts us × Fine (λ k. others k + total us k) n st)

  module _ (others : ℕ → ℕ) (n : ℕ) (t : Option ℕ) where
    later :
        (st : Server F)
        → Fine (λ k. others k + drawn t k) n st
        → Fine (λ k. others k + drawn t k) (suc n) st
    later st f =
        Fine-less (λ k. others k + drawn t k) (λ k. others k + drawn t k) n (suc n) st
          (λ k. omega arith) (omega arith) f

    unwind-Stays :
        (hs : List Lock) (r : Outcome (Unit {0})) (st : Server F)
        → suc n < 2 ^ 64
        → Fine (λ k. others k + drawn t k) n st
        → Stays others (suc n) (unwind hs r st)
    unfolding unwind
    unwind-Stays [] r st l f = tt
    unwind-Stays (h ∷ hs) (ok a) st l f = (t, (tt, later st f))
    unwind-Stays (h ∷ hs) (err e) st l f = (t, (tt, later st f))
    unwind-Stays (h ∷ hs) panic st l f =
        let (e, c) = poison-same h st in (t, (tt, quiet t st (poison h st) e c others n l f))

    enter-Stays :
        (all hs : List Lock) (l : Lock) (p : Prog F (Unit {0})) (st : Server F)
        → Owns t p
        → Fine (λ k. others k + drawn t k) n st
        → Stays others (suc n) (enter all hs l p st)
    unfolding enter
    enter-Stays all hs l p st o f = elim (Bool-cases (locked l all)) [
      | inl e ↦ rw e tt
      | inr e ↦ elim (Bool-cases (poisoned l st)) [
        | inl h ↦ rw (e, h) (t, (tt, later st f))
        | inr h ↦ rw (e, h) (t, (o, later st f))
      ]
    ]

    advance-Stays :
        (all hs : List Lock) (p : Prog F (Unit {0})) (st : Server F)
        → suc n < 2 ^ 64
        → Owns t p
        → Fine (λ k. others k + drawn t k) n st
        → Stays others (suc n) (advance all hs p st)
    unfolding advance
    advance-Stays all hs (done r) st l o f = unwind-Stays hs r st l f
    advance-Stays all hs (acquire h p) st l o f = enter-Stays all hs h p st o f
    advance-Stays all hs (unlock p) st l o f = (t, (o, later st f))
    advance-Stays all hs (act g k) st l o f =
        let (u, (moves, rest)) = o st in (u, (rest, moves others n l f))

  put_first-AllStay :
      (others : ℕ → ℕ) (n : ℕ) (ts : List (Thread F)) (us : List (Option ℕ))
      (r : Option (Thread F × Server F))
      → AllOwn ts us
      → Stays (λ k. others k + total us k) n r
      → AllStay others n (put_first ts r)
  put_first-AllStay others n ts us none os s = tt
  put_first-AllStay others n ts us (some (t, st)) os (u, (o, f)) = (
    u ∷ us,
    (
      (o, os),
      Fine-less (λ k. others k + total us k + drawn u k) (λ k. others k + total (u ∷ us) k) n n st
          (λ k. omega arith) (omega arith) f,
    ),
  )

  put_rest-AllStay :
      (others : ℕ → ℕ) (n : ℕ) (t : Thread F) (u : Option ℕ)
      (r : Option (List (Thread F) × Server F))
      → Owns u t.prog
      → AllStay (λ k. others k + drawn u k) n r
      → AllStay others n (put_rest t r)
  put_rest-AllStay others n t u none o s = tt
  put_rest-AllStay others n t u (some (ts, st)) o (us, (os, f)) = (
    u ∷ us,
    (
      (o, os),
      Fine-less (λ k. others k + drawn u k + total us k) (λ k. others k + total (u ∷ us) k) n n st
          (λ k. omega arith) (omega arith) f,
    ),
  )

  pub step_at-AllStay :
      (all : List Lock) (i : ℕ) (ts : List (Thread F)) (us : List (Option ℕ)) (st : Server F)
      (others : ℕ → ℕ) (n : ℕ)
      → suc n < 2 ^ 64
      → AllOwn ts us
      → Fine (λ k. others k + total us k) n st
      → AllStay others (suc n) (step_at all i ts st)
  unfolding step_at
  step_at-AllStay all i [] us st others n l os f = tt
  step_at-AllStay all i (t ∷ ts) [] st others n l os f = absurd os
  step_at-AllStay all zero (t ∷ ts) (u ∷ us) st others n l (o, os) f =
      put_first-AllStay others (suc n) ts us (advance all t.held t.prog st) os (
        advance-Stays (λ k. others k + total us k) n u all t.held t.prog st l o
          (Fine-less (λ k. others k + total (u ∷ us) k) (λ k. others k + total us k + drawn u k) n n
            st (λ k. omega arith) (omega arith) f))
  step_at-AllStay all (suc i) (t ∷ ts) (u ∷ us) st others n l (o, os) f =
      put_rest-AllStay others (suc n) t u (step_at all i ts st) o (
        step_at-AllStay all i ts us st (λ k. others k + drawn u k) n l os
          (Fine-less (λ k. others k + total (u ∷ us) k) (λ k. others k + drawn u k + total us k) n n
            st (λ k. omega arith) (omega arith) f))

  abbrev pub Whole : ℕ → List (Thread F) × Server F → Type 0
  Whole n (ts, st) = (us : List (Option ℕ)) × (AllOwn ts us × Fine (λ k. 0 + total us k) n st)

  pub turn-Whole :
      (n : ℕ) (c : List (Thread F) × Server F) (r : Option (List (Thread F) × Server F))
      → Whole n c
      → AllStay (λ k. 0) (suc n) r
      → Whole (suc n) (turn c r)
  turn-Whole n (ts, st) none (us, (os, f)) s = (
    us,
    (
      os,
      Fine-less (λ k. 0 + total us k) (λ k. 0 + total us k) n (suc n) st (λ k. omega arith)
          (omega arith) f,
    ),
  )
  turn-Whole n c (some d) h s = s
