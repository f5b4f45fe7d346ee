-- ===== src/Tests/Queues.antt =====
-- The storage of jobs at concrete inputs: rustygeard/src/queues.rs.
use rustygear.Queues.{push_back}
use rustygear.Job
use rustygear.Job.{Arc}
use rustygear.Prelude.{
  ◌==◌, ℕ, ◌≡◌, ◌≢◌, refl, Bool, true, false, none, some, List, [], ◌∷◌, Bytes, bytes_eq, nat_eq,
}
use rustygear.Prelude.Assoc
use rustygear.Queues.{holds, JobQueue, JobStorage, new_job_storage, add_job, func_queues, get_job}
use rustygear.Worker.Presence.{can}
use rustygear.Prelude.Finite
use rustygear.Queues.Grab.{owned, grabbed, Has, get_job-Serves, get_job-drops}
use rustygear.Queues.Jobs.{add_job-Agrees}
use rustygear.Queues.Remotes.{Agrees}
use rustygear.Queues.Search.{in_order, Serves}
use rustygear.Tests.Instances.{list_set}
use rustygear.Worker.{Worker, get_assigned_job}

abbrev f : Bytes
f = b'f' ∷ []

abbrev g : Bytes
g = b'g' ∷ []

abbrev pub first : Arc
first = record { alloc = 0; job = Job.new f (b'u' ∷ []) (b'x' ∷ []) (b'1' ∷ []) }

abbrev pub second : Arc
second = record { alloc = 1; job = Job.new g (b'v' ∷ []) (b'y' ∷ []) (b'2' ∷ []) }

-- The first job in the queue of high priority of its function, the second likewise.
abbrev loaded : JobStorage
loaded = record {
  jobs = (b'u' ∷ [], first) ∷ (b'v' ∷ [], second) ∷ [];
  queues = (f, (first ∷ []) ∷ [] ∷ [] ∷ []) ∷ (g, (second ∷ []) ∷ [] ∷ [] ∷ []) ∷ [];
  remotes_by_unique = (b'u' ∷ [], 7 ∷ []) ∷ (b'v' ∷ [], []) ∷ [];
  remotes_by_handle = (b'1' ∷ [], 7 ∷ []) ∷ (b'2' ∷ [], []) ∷ [];
}

abbrev able : List Bytes → Worker (List Bytes)
able fs = record { peer_addr = []; functions = fs; client_id = []; jobs = [] }

abbrev nobody : ℕ → Bool
nobody n = false

loaded-run : (add_job second 0 none (add_job first 0 (some 7) new_job_storage).1).1 ≡ loaded
unfolding add_job new_job_storage Job.new push_back func_queues Assoc.get Assoc.insert
loaded-run = refl

empty-Agrees : Agrees new_job_storage
unfolding new_job_storage Assoc.get
empty-Agrees = record { keyed = λ u a e. cc; handles = λ u v a b e e' h. cc; remotes = λ u a e. cc }

empty_get :
    (t : Bytes) (b : Arc)
    → Assoc.get t new_job_storage.jobs ≡ some b
    → first.job.handle ≢ b.job.handle
unfolding new_job_storage Assoc.get
empty_get t b e h = cc

pub one-Agrees : Agrees (add_job first 0 (some 7) new_job_storage).1
one-Agrees = add_job-Agrees first 0 (some 7) new_job_storage empty_get empty-Agrees

-- A queue whose front has no owner, before one with a job.
abbrev prios : List JobQueue
prios = (first ∷ []) ∷ (second ∷ first ∷ []) ∷ [] ∷ []

abbrev only_second : ℕ → Bool
only_second n = n == 1

empty_grab : (grabbed nobody (able (f ∷ [])) new_job_storage).0 ≡ none
unfolding get_job new_job_storage Assoc.get
empty_grab = refl

function_known : can f (able (f ∷ [])) ≡ true
unfolding Finite.contains
function_known = refl

list_set-iter : (fs : List Bytes) → (list_set.iter fs).0 ≡ fs
list_set-iter fs = refl

get_job-Serves_example :
    Serves
      (owned nobody loaded)
      (in_order (func_queues f loaded.queues))
      (get_job nobody (able (f ∷ [])) loaded).0
      (in_order (func_queues f (get_job nobody (able (f ∷ [])) loaded).2.queues))
    × Has (get_job nobody (able (f ∷ [])) loaded).0 (get_job nobody (able (f ∷ [])) loaded).1
    × (Assoc.get g (get_job nobody (able (f ∷ [])) loaded).2.queues ≡ Assoc.get g loaded.queues)
    × ((get_job nobody (able (f ∷ [])) loaded).2.jobs ≡ loaded.jobs)
get_job-Serves_example =
    get_job-Serves nobody (able (f ∷ [])) loaded f g (list_set-iter (f ∷ [])) refl

get_job-run : (get_job nobody (able (f ∷ [])) loaded).0 ≡ some first
unfolding get_job Job.new Assoc.get
get_job-run = refl

both_owned : (owned nobody loaded 0 ≡ true) × (owned nobody loaded 1 ≡ true)
unfolding holds
both_owned = (refl, refl)

handles_differ : (first.job.handle == second.job.handle) ≡ false
unfolding Job.new
handles_differ = refl

get_job-drops_example :
    ((get_job nobody (able (f ∷ g ∷ [])) loaded).0 ≡ some second)
    × (func_queues f (get_job nobody (able (f ∷ g ∷ [])) loaded).2.queues ≡ [] ∷ [] ∷ [] ∷ [])
    × (get_assigned_job first.job.handle (get_job nobody (able (f ∷ g ∷ [])) loaded).1
        ≡ get_assigned_job first.job.handle (able (f ∷ g ∷ [])))
unfolding Assoc.get
get_job-drops_example =
    get_job-drops nobody (able (f ∷ g ∷ [])) loaded f g first second [] [] ([] ∷ [] ∷ [])
      ([] ∷ [] ∷ []) (list_set-iter (f ∷ g ∷ [])) refl refl refl both_owned.0 both_owned.1
      handles_differ
