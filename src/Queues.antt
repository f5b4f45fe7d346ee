-- ===== src/Queues.antt =====
-- rustygeard/src/queues.rs: the jobs, the queues by function and priority, and the connections
-- that wait for a job.
pub mod Grab
pub mod Jobs
pub mod Remotes
pub mod Search
use rustygear.Constants
use rustygear.Job.{Arc}
use rustygear.Outcome.{Outcome, ok, panic}
use rustygear.Prelude.{
  ℕ, zero, suc, ◌≡◌, Bool, true, false, ◌||◌, not, Option, none, some, List, [], ◌∷◌, ◌++◌, Bytes,
  bytes_eq, nat_eq, ◌==◌, if◌then◌else◌,
}
use rustygear.Prelude.Assoc
use rustygear.Prelude.Assoc.{Map}
use rustygear.Prelude.Finite
use rustygear.Worker.{WrappingSet, Worker, iter, assign_job}

-- `VecDeque<Weak<Job>>`, front first.
abbrev pub JobQueue : Type 0
JobQueue = List Arc

abbrev pub JobQueues : Type 0
JobQueues = Map Bytes (List JobQueue)

pub record JobStorage : Type 0 where
  pub jobs : Map Bytes Arc
  pub queues : JobQueues
  pub remotes_by_unique : Map Bytes (List ℕ)
  pub remotes_by_handle : Map Bytes (List ℕ)

unfoldable pub new_job_storage : JobStorage
new_job_storage = record { jobs = []; queues = []; remotes_by_unique = []; remotes_by_handle = [] }

unfoldable pub remove_job : Bytes → JobStorage → JobStorage
remove_job unique s = record {
  jobs = Assoc.remove unique s.jobs;
  queues = s.queues;
  remotes_by_unique = Assoc.remove unique s.remotes_by_unique;
  remotes_by_handle = elim (Assoc.get unique s.jobs) [
    | none ↦ s.remotes_by_handle
    | some a ↦ Assoc.remove a.job.handle s.remotes_by_handle
  ];
}

-- The remote that is added to the set of a job, if it was not there: `add_remote`.
unfoldable pub add_remote : Option ℕ → Option (List ℕ) → Bool
add_remote none o = false
add_remote (some r) none = false
add_remote (some r) (some remotes) = not (Finite.contains r remotes)

-- `remotes.insert(remote)`, for the entry at a key, where there is one.
unfoldable pub insert_remote : Option ℕ → Bytes → Map Bytes (List ℕ) → Map Bytes (List ℕ)
insert_remote none k m = m
insert_remote (some r) k m = elim (Assoc.get k m) [
  | none ↦ m
  | some remotes ↦ Assoc.insert k (Finite.insert r remotes) m
]

-- `remotes.push(remote)`, for the entry at a key, where there is one.
unfoldable pub push_remote : Option ℕ → Bytes → Map Bytes (List ℕ) → Map Bytes (List ℕ)
push_remote none k m = m
push_remote (some r) k m = elim (Assoc.get k m) [
  | none ↦ m
  | some remotes ↦ Assoc.insert k (remotes ++ r ∷ []) m
]

unfoldable pub coalesce_unique : Bytes → Option ℕ → JobStorage → Option Bytes × JobStorage
coalesce_unique unique remote s = elim (Assoc.get unique s.jobs) [
  | none ↦ (none, s)
  | some a ↦
      let add = add_remote remote (Assoc.get unique s.remotes_by_unique) in
      (
        some a.job.handle,
        record s {
          remotes_by_unique = insert_remote remote unique s.remotes_by_unique;
          remotes_by_handle =
              if add
              then push_remote remote a.job.handle s.remotes_by_handle
              else s.remotes_by_handle;
        },
      )
]

abbrev pub empty_queues : List JobQueue
empty_queues = [] ∷ [] ∷ [] ∷ []

-- `func_queues[priority].push_back(weak)`; `none` where the index is out of bounds.
unfoldable pub push_back : ℕ → Arc → List JobQueue → Option (List JobQueue)
push_back i a [] = none
push_back zero a (q ∷ qs) = some ((q ++ a ∷ []) ∷ qs)
push_back (suc i) a (q ∷ qs) = elim (push_back i a qs) [ none ↦ none | some rs ↦ some (q ∷ rs) ]

-- `entry(fname).or_insert_with(...)`
unfoldable pub func_queues : Bytes → JobQueues → List JobQueue
func_queues fname m = elim (Assoc.get fname m) [ none ↦ empty_queues | some qs ↦ qs ]

abbrev pub first_remotes : Option ℕ → List ℕ
first_remotes none = []
first_remotes (some r) = r ∷ []

unfoldable pub add_job : Arc → ℕ → Option ℕ → JobStorage → Outcome (Unit {0}) × JobStorage
add_job a priority remote s =
    let qs = func_queues a.job.fname s.queues in
    elim (push_back priority a qs) [
      | none ↦ (panic, record s { queues = Assoc.insert a.job.fname qs s.queues })
      | some rs ↦ (
        ok tt,
        record {
          jobs = Assoc.insert a.job.unique a s.jobs;
          queues = Assoc.insert a.job.fname rs s.queues;
          remotes_by_unique = Assoc.insert a.job.unique (first_remotes remote) s.remotes_by_unique;
          remotes_by_handle = Assoc.insert a.job.handle (first_remotes remote) s.remotes_by_handle;
        },
      )
    ]

-- Whether a map of jobs holds an allocation.
unfoldable pub holds : ℕ → Map Bytes Arc → Bool
holds n [] = false
holds n ((k, a) ∷ m) = a.alloc == n || holds n m

-- The inner loop of `get_job`: a queue is popped until an entry can be upgraded. `alive` says
-- which allocations still have an owner.
unfoldable pub pop_live : (ℕ → Bool) → JobQueue → Option Arc × JobQueue
pop_live alive [] = (none, [])
pop_live alive (a ∷ q) = if alive a.alloc then (some a, q) else pop_live alive q

abbrev pub or_else : Option Arc → Option Arc → Option Arc
or_else none o = o
or_else (some a) o = some a

-- After one queue: the loop breaks if there is a job, and goes on with the other queues if not.
unfoldable pub next_prio :
    Option Arc → JobQueue → List JobQueue → Option Arc × List JobQueue → Option Arc × List JobQueue
next_prio none q qs (job, rest) = (job, q ∷ rest)
next_prio (some a) q qs later = (some a, q ∷ qs)

-- The loop over the priorities, with the job that is found so far.
unfoldable pub search_prios : (ℕ → Bool) → Option Arc → List JobQueue → Option Arc × List JobQueue
unfolding pop_live next_prio
search_prios alive job [] = (job, [])
search_prios alive job (q ∷ qs) =
    let found = pop_live alive q in
    let job' = or_else found.0 job in next_prio job' found.1 qs (search_prios alive job' qs)

-- One round of the loop over the functions of the worker.
unfoldable pub search_func : (ℕ → Bool) → Bytes → Option Arc × JobQueues → Option Arc × JobQueues
unfolding search_prios
search_func alive func (job, queues) = elim (Assoc.get func queues) [
  | none ↦ (job, queues)
  | some prios ↦ let r = search_prios alive job prios in (r.0, Assoc.insert func r.1 queues)
]

unfoldable pub search_funcs :
    (ℕ → Bool) → List Bytes → Option Arc × JobQueues → Option Arc × JobQueues
unfolding search_func
search_funcs alive [] s = s
search_funcs alive (f ∷ fs) s = search_funcs alive fs (search_func alive f s)

-- The job goes to the worker that asks.
unfoldable pub assign_found : {F : Type 0} → Option Arc → Worker F → Worker F
unfolding assign_job
assign_found none worker = worker
assign_found (some a) worker = assign_job a worker

module _ {F : Type 0} ⦃w : WrappingSet F⦄ where
  -- `held` says which allocations have an owner outside of the storage, such as a worker.
  unfoldable pub get_job : (ℕ → Bool) → Worker F → JobStorage → Option Arc × Worker F × JobStorage
  unfolding iter holds search_funcs assign_found
  get_job held worker s =
      let (fs, worker') = iter worker in
      let alive = λ (n : ℕ). held n || holds n s.jobs in
      let r = search_funcs alive fs (none, s.queues) in
      (r.0, assign_found r.0 worker', record s { queues = r.1 })
