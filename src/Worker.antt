-- ===== src/Worker.antt =====
-- rustygeard/src/worker.rs: which connections sleep and which are awake, by function, and the
-- state of one worker.
pub mod History
pub mod Presence
pub mod Refinement
use rustygear.Job.{Arc}
use rustygear.Prelude.{
  ℕ, suc, ◌≡◌, Bool, ◌&&◌, ◌||◌, not, Option, none, some, List, [], ◌∷◌, map, Bytes, bytes_eq,
  nat_eq, ◌==◌, length,
}
use rustygear.Prelude.Assoc
use rustygear.Prelude.Assoc.{Map}
use rustygear.Prelude.Finite

pub record WorkerSet : Type 0 where
  pub inactive : List ℕ
  pub active : List ℕ

abbrev pub empty_set : WorkerSet
empty_set = record { inactive = []; active = [] }

pub record Workers : Type 0 where
  pub allworkers : Map Bytes WorkerSet
  pub wakeworkers : List ℕ

-- The crate `wrappinghashset`: a set of functions whose `iter`, run to its end, yields each
-- element once, and leaves the set at the place where the next one begins.
pub record WrappingSet (F : Type 0) : Type 0 where
  pub new : F
  pub insert : Bytes → F → F
  pub remove : Bytes → F → F
  pub iter : F → List Bytes × F
  pub iter-new : (iter new).0 ≡ []
  pub iter-insert :
      (f g : Bytes) (s : F)
      → Finite.contains g (iter (insert f s)).0 ≡ (f == g || Finite.contains g (iter s).0)
  pub iter-remove :
      (f g : Bytes) (s : F)
      → Finite.contains g (iter (remove f s)).0 ≡ (not (f == g) && Finite.contains g (iter s).0)
  pub iter-iter :
      (g : Bytes) (s : F) → Finite.contains g (iter (iter s).1).0 ≡ Finite.contains g (iter s).0

-- `peer_addr` is the printed address.
pub record Worker (F : Type 0) : Type 0 where
  pub peer_addr : Bytes
  pub functions : F
  pub client_id : Bytes
  pub jobs : Map Bytes Arc

unfoldable pub new_workers : Workers
new_workers = record { allworkers = []; wakeworkers = [] }

unfoldable pub queue_wake : Bytes → Workers → List ℕ × Workers
queue_wake fname workers = elim (Assoc.get fname workers.allworkers) [
  | none ↦ ([], workers)
  | some s ↦ (
    s.inactive,
    record workers {
      allworkers =
          Assoc.insert fname (record { inactive = []; active = Finite.extend s.active s.inactive })
            workers.allworkers;
    },
  )
]

unfoldable pub wakeworkers_drain : Workers → List ℕ × Workers
wakeworkers_drain workers = (workers.wakeworkers, record workers { wakeworkers = [] })

-- One round of the loop of `sleep`.
unfoldable pub sleep_one : ℕ → Bytes → Map Bytes WorkerSet → Map Bytes WorkerSet
sleep_one remote fname m = elim (Assoc.get fname m) [
  | none ↦ Assoc.insert fname (record empty_set { inactive = Finite.insert remote [] }) m
  | some s ↦
      Assoc.insert fname
        (record {
          active = Finite.remove remote s.active;
          inactive = Finite.insert remote s.inactive;
        })
        m
]

unfoldable pub sleep_all : ℕ → List Bytes → Map Bytes WorkerSet → Map Bytes WorkerSet
unfolding sleep_one
sleep_all remote [] m = m
sleep_all remote (f ∷ fs) m = sleep_all remote fs (sleep_one remote f m)

-- One round of the loop of `wakeup`.
unfoldable pub wakeup_one : ℕ → Bytes → Map Bytes WorkerSet → Map Bytes WorkerSet
wakeup_one remote fname m = elim (Assoc.get fname m) [
  | none ↦ Assoc.insert fname (record empty_set { active = Finite.insert remote [] }) m
  | some s ↦
      Assoc.insert fname
        (record {
          inactive = Finite.remove remote s.inactive;
          active = Finite.insert remote s.active;
        })
        m
]

unfoldable pub wakeup_all : ℕ → List Bytes → Map Bytes WorkerSet → Map Bytes WorkerSet
unfolding wakeup_one
wakeup_all remote [] m = m
wakeup_all remote (f ∷ fs) m = wakeup_all remote fs (wakeup_one remote f m)

unfoldable pub count_workers : Bytes → Workers → ℕ × ℕ
count_workers fname workers = elim (Assoc.get fname workers.allworkers) [
  | none ↦ (0, 0)
  | some s ↦ (length s.active, length s.inactive)
]

unfoldable pub without : ℕ → Map Bytes WorkerSet → Map Bytes WorkerSet
without conn_id [] = []
without conn_id ((f, s) ∷ m) =
    (
      f,
      record {
        inactive = Finite.remove conn_id s.inactive;
        active = Finite.remove conn_id s.active;
      },
    )
    ∷ without conn_id m

unfoldable pub shutdown : ℕ → Workers → Workers
unfolding without
shutdown conn_id workers = record workers { allworkers = without conn_id workers.allworkers }

module _ {F : Type 0} ⦃w : WrappingSet F⦄ where
  unfoldable pub new_worker : Bytes → Bytes → Worker F
  new_worker peer_addr client_id = record {
    peer_addr = peer_addr;
    functions = w.new;
    client_id = client_id;
    jobs = [];
  }

  unfoldable pub can_do : Bytes → Worker F → Worker F
  can_do fname worker = record worker { functions = w.insert fname worker.functions }

  unfoldable pub cant_do : Bytes → Worker F → Worker F
  cant_do fname worker = record worker { functions = w.remove fname worker.functions }

  -- A whole run of `iter`.
  unfoldable pub iter : Worker F → List Bytes × Worker F
  iter worker =
      let (fs, functions) = w.iter worker.functions in (fs, record worker { functions = functions })

  unfoldable pub sleep : Worker F → ℕ → Workers → Worker F × Workers
  unfolding iter sleep_all
  sleep worker remote workers =
      let (fs, worker') = iter worker in
      (worker', record workers { allworkers = sleep_all remote fs workers.allworkers })

  unfoldable pub wakeup : Worker F → ℕ → Workers → Worker F × Workers
  unfolding iter wakeup_all
  wakeup worker remote workers =
      let (fs, worker') = iter worker in
      (worker', record workers { allworkers = wakeup_all remote fs workers.allworkers })

module _ {F : Type 0} where
  unfoldable pub assign_job : Arc → Worker F → Worker F
  assign_job a worker = record worker { jobs = Assoc.insert a.job.handle a worker.jobs }

  unfoldable pub unassign_job : Bytes → Worker F → Worker F
  unassign_job handle worker = record worker { jobs = Assoc.remove handle worker.jobs }

  unfoldable pub get_assigned_job : Bytes → Worker F → Option Arc
  get_assigned_job handle worker = Assoc.get handle worker.jobs
