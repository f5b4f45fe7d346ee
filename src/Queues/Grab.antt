-- ===== src/Queues/Grab.antt =====
-- What `get_job` of rustygeard/src/queues.rs gives to a worker.
use rustygear.Job.{Arc}
use rustygear.Prelude.{
  ℕ, ◌≡◌, refl, ap, ◌∙◌, Bool, true, false, ◌||◌, Option, none, some, List, [], ◌∷◌, arith, Bytes,
  bytes_eq, bytes_beq_iff, ◌==◌,
}
use rustygear.Prelude.All.{All}
use rustygear.Prelude.Assoc
use rustygear.Prelude.Assoc.{get-insert}
use rustygear.Worker.{WrappingSet, Worker, iter, get_assigned_job}
use rustygear.Worker.Presence.{can}
use rustygear.Queues.{
  JobQueue, JobQueues, JobStorage, func_queues, holds, search_prios, search_func, search_funcs,
  assign_found, get_job, pop_live,
}
use rustygear.Queues.Search.{
  func_queues-insert, in_order, is_dead, Serves, search_func-Serves, search_func-other,
  search_funcs-none,
}

-- The allocations that still have an owner.
abbrev pub owned : (ℕ → Bool) → JobStorage → ℕ → Bool
owned held s n = held n || holds n s.jobs

module _ {F : Type 0} where
  get_assigned_job-assign :
      (b : Arc) (h : Bytes) (worker : Worker F)
      → (b.job.handle == h) ≡ false
      → get_assigned_job h (assign_found (some b) worker) ≡ get_assigned_job h worker
  unfolding get_assigned_job assign_found
  get_assigned_job-assign b h worker n = rw (get-insert b.job.handle h b worker.jobs, n)

  -- A worker has the job that it was given.
  abbrev pub Has : Option Arc → Worker F → Type 0
  Has none worker = Unit {0}
  Has (some a) worker = get_assigned_job a.job.handle worker ≡ some a

  assign_found-Has : (o : Option Arc) (worker : Worker F) → Has o (assign_found o worker)
  unfolding get_assigned_job assign_found
  assign_found-Has none worker = tt
  assign_found-Has (some a) worker =
      rw (get-insert a.job.handle a.job.handle a worker.jobs, (bytes_beq_iff _ _).1 refl)

module _ (alive : ℕ → Bool) where
  search_func-front :
      (f : Bytes) (a : Arc) (q : JobQueue) (qs : List JobQueue) (o : Option Arc) (m : JobQueues)
      → Assoc.get f m ≡ some ((a ∷ q) ∷ qs)
      → alive a.alloc ≡ true
      → search_func alive f (o, m) ≡ (some a, Assoc.insert f (q ∷ qs) m)
  unfolding search_func search_prios
  search_func-front f a q qs o m e l = rw (e, search_func) (rw (l, pop_live))

  search_funcs-front :
      (f g : Bytes) (a b : Arc) (q p : JobQueue) (qs ps : List JobQueue) (m : JobQueues)
      → (f == g) ≡ false
      → Assoc.get f m ≡ some ((a ∷ q) ∷ qs)
      → Assoc.get g m ≡ some ((b ∷ p) ∷ ps)
      → alive a.alloc ≡ true
      → alive b.alloc ≡ true
      → search_funcs alive (f ∷ g ∷ []) (none, m)
        ≡ (some b, Assoc.insert g (p ∷ ps) (Assoc.insert f (q ∷ qs) m))
  unfolding search_funcs
  search_funcs-front f g a b q p qs ps m n ef eg la lb =
      ap (search_func alive g) (search_func-front f a q qs none m ef la)
      ∙ search_func-front g b p ps (some a) (Assoc.insert f (q ∷ qs) m)
          (rw (get-insert f g (q ∷ qs) m, n) eg) lb

module _ {F : Type 0} ⦃w : WrappingSet F⦄ (held : ℕ → Bool) (worker : Worker F)
    (s : JobStorage) where
  abbrev pub grabbed : Option Arc × Worker F × JobStorage
  grabbed = get_job held worker s

  -- If a worker is sent away without a job, then for each function that it can do, no entry of the
  -- three queues of that function still had an owner.
  pub get_job-none :
      (f : Bytes)
      → grabbed.0 ≡ none
      → can f worker ≡ true
      → All (is_dead (owned held s)) (in_order (func_queues f s.queues))
  unfolding get_job
  get_job-none f e h = search_funcs-none (owned held s) (w.iter worker.functions).0 s.queues f e h

  -- For a worker with one function, the three priority queues of that function are served as one
  -- queue: the entries before the first job that still has an owner are dropped, that job is taken
  -- and assigned to the worker under its handle, the entries behind it stay; the queues of any
  -- other function and the jobs stay as they are.
  pub get_job-Serves :
      (f g : Bytes)
      → (w.iter worker.functions).0 ≡ f ∷ []
      → (f == g) ≡ false
      → Serves
          (owned held s)
          (in_order (func_queues f s.queues))
          grabbed.0
          (in_order (func_queues f grabbed.2.queues))
        × Has grabbed.0 grabbed.1
        × (Assoc.get g grabbed.2.queues ≡ Assoc.get g s.queues)
        × (grabbed.2.jobs ≡ s.jobs)
  unfolding get_job
  get_job-Serves f g e n = rw e (
      unfold search_funcs in
      (
        search_func-Serves (owned held s) f s.queues,
        assign_found-Has _ (iter worker).1,
        search_func-other (owned held s) f g (none, s.queues) n,
        refl,
      ))

  -- For a worker with two different functions that both have a job with an owner in front of their
  -- queues of high priority, the two jobs with different handles, `get_job` answers the job of the
  -- second; the job of the first has left its queue, and under its handle the worker has what it
  -- had before.
  pub get_job-drops :
      (f g : Bytes) (a b : Arc) (q p : JobQueue) (qs ps : List JobQueue)
      → (w.iter worker.functions).0 ≡ f ∷ g ∷ []
      → (f == g) ≡ false
      → Assoc.get f s.queues ≡ some ((a ∷ q) ∷ qs)
      → Assoc.get g s.queues ≡ some ((b ∷ p) ∷ ps)
      → owned held s a.alloc ≡ true
      → owned held s b.alloc ≡ true
      → (a.job.handle == b.job.handle) ≡ false
      → (grabbed.0 ≡ some b)
        × (func_queues f grabbed.2.queues ≡ q ∷ qs)
        × (get_assigned_job a.job.handle grabbed.1 ≡ get_assigned_job a.job.handle worker)
  unfolding get_job get_assigned_job
  get_job-drops f g a b q p qs ps e n ef eg la lb h =
      rw (e, search_funcs-front (owned held s) f g a b q p qs ps s.queues n ef eg la lb)
        (
          refl,
          rw (func_queues-insert g f (p ∷ ps) _, func_queues-insert f f (q ∷ qs) s.queues)
              (ground (arith, n, bytes_beq_iff f f, bytes_beq_iff f g, bytes_beq_iff g f)),
          get_assigned_job-assign b a.job.handle (iter worker).1 (
              ground (
                arith,
                bytes_beq_iff b.job.handle a.job.handle,
                bytes_beq_iff a.job.handle b.job.handle,
              )),
        )
