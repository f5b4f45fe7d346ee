-- ===== src/Threads/Tickets.antt =====
-- The job numbers that a task has drawn from `job_count` and has not yet used for a job, and what
-- they and the stored jobs have to do with each other while the tasks interleave.
pub mod Draws
pub mod Steps
use rustygear.Job.{Arc}
use rustygear.Outcome.{ok, err, panic}
use rustygear.Prelude.{
  ℕ, suc, ◌+◌, ◌<◌, ◌≤◌, ◌^◌, ◌≡◌, Option, none, some, arith, Bytes, bytes_eq, nat_eq, ◌==◌,
  if◌then◌else◌,
}
use rustygear.Prelude.Assoc
use rustygear.Queues.Remotes.{Agrees}
use rustygear.Service.State.{Server}
use rustygear.Service.Submit.{handle_of}
use rustygear.Threads.Program.{Prog, done, acquire, unlock, act, closing, ◌>>=◌}

-- How often a number is among the drawn ones of a task.
abbrev pub drawn : Option ℕ → ℕ → ℕ
drawn none k = 0
drawn (some j) k = if j == k then 1 else 0

-- With how often each number is drawn and not yet used, and a bound of the job count: the tables of
-- the storage are in step, and each stored job has a handle of a number that was drawn and used.
pub record Fine {F : Type 0} (held : ℕ → ℕ) (n : ℕ) (st : Server F) : Type 0 where
  pub agrees : Agrees st.queues.value
  pub given :
      (u : Bytes) (a : Arc)
      → Assoc.get u st.queues.value.jobs ≡ some a
      → (k : ℕ) × (k < st.job_count) × (a.job.handle ≡ handle_of k) × (held k ≡ 0)
  pub once : (k : ℕ) → held k ≤ 1
  pub below : (k : ℕ) → 1 ≤ held k → k < st.job_count
  pub counted : st.job_count ≤ n

module _ {F : Type 0} where
  -- Fewer numbers may count as drawn, and the bound may be larger.
  pub Fine-less :
      (r s : ℕ → ℕ) (n m : ℕ) (st : Server F)
      → ((k : ℕ) → s k ≤ r k)
      → n ≤ m
      → Fine r n st
      → Fine s m st
  Fine-less r s n m st h l f = record {
    agrees = f.agrees;
    given =
        λ u a e. let (k, small, same, free) = f.given u a e in (k, small, same, omega (arith, h k));
    once = λ k. omega (arith, h k, f.once k);
    below = λ k o. f.below k (omega (arith, h k));
    counted = omega (arith, f.counted);
  }

  -- A change of the state by a task with one ticket, after which it has another, whatever the other
  -- tasks have drawn.
  abbrev pub Moves : Option ℕ → Server F → Server F → Option ℕ → Type 0
  Moves t st st' u =
      (others : ℕ → ℕ) (n : ℕ)
      → suc n < 2 ^ 64
      → Fine (λ k. others k + drawn t k) n st
      → Fine (λ k. others k + drawn u k) (suc n) st'

  -- What touches neither the storage nor the count.
  pub quiet :
      (t : Option ℕ) (st st' : Server F)
      → st'.queues.value ≡ st.queues.value
      → st'.job_count ≡ st.job_count
      → Moves t st st' t
  quiet t st st' e c others n l f = record {
    agrees = rw e f.agrees;
    given = rw (e, c) f.given;
    once = f.once;
    below = rw c f.below;
    counted = omega (arith, f.counted, c);
  }

module _ {F A : Type 0} where
  -- With a ticket a task uses no number but this one, whatever states the others leave it.
  abbrev pub Owns : Option ℕ → Prog F A → Type 0
  Owns t (done r) = Unit {0}
  Owns t (acquire l p) = Owns t p
  Owns t (unlock p) = Owns t p
  Owns t (act g k) = (st : Server F) → (u : Option ℕ) × (Moves t st (g st) u × Owns u (k st))

  pub Owns-more : (t : Option ℕ) (p : Prog F A) → Owns none p → Owns t p
  Owns-more t (done r) o = tt
  Owns-more t (acquire l p) o = Owns-more t p o
  Owns-more t (unlock p) o = Owns-more t p o
  Owns-more t (act g k) o = λ st.
      let (u, (moves, rest)) = o st in
      (
        u,
        (
          (λ others n l f. moves others n l (
              Fine-less (λ k. others k + drawn t k) (λ k. others k + 0) n n st (λ k. omega arith)
                (omega arith) f)),
          rest,
        ),
      )

  pub Owns-closing : (t : Option ℕ) (p : Prog F A) → Owns t p → Owns t (closing p)
  Owns-closing t (done (ok a)) o = tt
  Owns-closing t (done (err e)) o = tt
  Owns-closing t (done panic) o = tt
  Owns-closing t (acquire l p) o = Owns-closing t p o
  Owns-closing t (unlock p) o = Owns-closing t p o
  Owns-closing t (act g k) o =
      λ st. let (u, (moves, rest)) = o st in (u, (moves, Owns-closing u (k st) rest))

module _ {F A B : Type 0} where
  pub Owns-bind :
      (t : Option ℕ) (p : Prog F A) (f : A → Prog F B)
      → Owns t p
      → ((a : A) → Owns none (f a))
      → Owns t (p >>= f)
  Owns-bind t (done (ok a)) f o h = Owns-more t (f a) (h a)
  Owns-bind t (done (err e)) f o h = tt
  Owns-bind t (done panic) f o h = tt
  Owns-bind t (acquire l p) f o h = Owns-bind t p f o h
  Owns-bind t (unlock p) f o h = Owns-bind t p f o h
  Owns-bind t (act g k) f o h =
      λ st. let (u, (moves, rest)) = o st in (u, (moves, Owns-bind u (k st) f rest h))
