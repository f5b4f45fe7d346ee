-- ===== src/Threads/Numbers.antt =====
-- The handles of the stored jobs while the requests interleave.
use rustygear.Prelude.{
  ℕ, suc, ◌+◌, ◌<◌, ◌≤◌, ◌^◌, ◌≡◌, refl, Option, none, List, [], ◌∷◌, arith, length, bytes_eq,
  nat_eq,
}
use rustygear.Queues.Remotes.{Agrees}
use rustygear.Service.Numbered.{Given}
use rustygear.Service.State.{Server}
use rustygear.Threads.Connections.{Task}
use rustygear.Threads.Equal.Connections.{program-Does}
use rustygear.Threads.Machine.{Thread, taken, step, turn, run, start}
use rustygear.Threads.Schedule.{programs}
use rustygear.Threads.Tickets.{Fine, Fine-less}
use rustygear.Threads.Tickets.Steps.{total, AllOwn, Whole, step_at-AllStay, turn-Whole}
use rustygear.Worker.{WrappingSet}

module _ {F : Type 0} where
  run-Whole :
      (schedule : List ℕ) (n m : ℕ) (c : List (Thread F) × Server F)
      → n + length schedule ≤ m
      → m < 2 ^ 64
      → Whole n c
      → Whole m (run schedule c)
  unfolding run step
  run-Whole [] n m (ts, st) b l (us, (os, f)) = (
    us,
    (
      os,
      Fine-less (λ k. 0 + total us k) (λ k. 0 + total us k) n m st (λ k. omega arith) (omega arith)
          f,
    ),
  )
  run-Whole (i ∷ is) n m (ts, st) b l (us, (os, f)) =
      run-Whole is (suc n) m (turn (ts, st) (step i (ts, st))) (omega arith) l (
        turn-Whole n (ts, st) (step i (ts, st)) (us, (os, f))
          (step_at-AllStay (taken ts) i ts us st (λ k. 0) n (omega arith) os f))

  none_drawn : List (Thread F) → List (Option ℕ)
  none_drawn [] = []
  none_drawn (t ∷ ts) = none ∷ none_drawn ts

  total-none_drawn : (ts : List (Thread F)) (k : ℕ) → total (none_drawn ts) k ≡ 0
  unfolding none_drawn
  total-none_drawn [] k = refl
  total-none_drawn (t ∷ ts) k = omega (arith, total-none_drawn ts k)

start-AllOwn :
    (F : Type 0) ⦃w : WrappingSet F⦄ (tasks : List Task)
    → let ts = start {F = F} (programs tasks) in AllOwn ts (none_drawn ts)
unfolding start none_drawn
start-AllOwn F [] = tt
start-AllOwn F (t ∷ ts) = ((program-Does t).owns, start-AllOwn F ts)

module _ {F : Type 0} ⦃w : WrappingSet F⦄ where
  -- No interleaving gives two stored jobs one handle: from a state whose storage is in step (each
  -- job under its unique id, no handle twice, the two entries of the remotes of each job matching)
  -- and whose jobs have handles of numbers below the job count, any tasks under any schedule of
  -- their steps, the job count and the length of the schedule together below 2 ^ 64, lead to a
  -- state of which both hold again.
  pub run-Agrees :
      (tasks : List Task) (schedule : List ℕ) (st : Server F)
      → Agrees st.queues.value
      → Given st.job_count st.queues.value.jobs
      → st.job_count + length schedule < 2 ^ 64
      → let after = (run schedule (start (programs tasks), st)).1 in
        Agrees after.queues.value × Given after.job_count after.queues.value.jobs
  run-Agrees tasks schedule st agrees given few =
      let ts : List (Thread F) = start (programs tasks) in
      let none_yet = total-none_drawn ts in
      let begin : Fine (λ k. 0 + total (none_drawn ts) k) st.job_count st = record {
        agrees = agrees;
        given = λ u a e.
            let (k, small, same) = given u a e in (k, small, same, omega (arith, none_yet k));
        once = λ k. omega (arith, none_yet k);
        below = λ k o. absurd (omega (arith, none_yet k));
        counted = omega arith;
      } in
      let (us, (os, f)) =
        run-Whole schedule st.job_count (st.job_count + length schedule) (ts, st) (omega arith) few
          (none_drawn ts, (start-AllOwn F tasks, begin)) in
      (f.agrees, λ u a e. let (k, small, same, free) = f.given u a e in (k, small, same))
