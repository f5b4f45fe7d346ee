-- ===== src/Service/Secure.antt =====
-- Predicates on the shared state that the handlers' writes to the storage keep too.
use rustygear.Job
use rustygear.Job.{Arc, Job}
use rustygear.Prelude.{ℕ, Option, none, some, Bytes}
use rustygear.Queues.{JobStorage, get_job, remove_job, coalesce_unique, add_job}
use rustygear.Service.Handlers.{take_job, forget_job}
use rustygear.Service.Keeps.{Stable, Keeps, Keeps-pure, Keeps-bind, Keeps-with_queues}
use rustygear.Service.State.{Server, GearmanService, put_queues, fetch_add, allocate, held_by}
use rustygear.Service.Submit.{coalesce, new_job, store_job, handle_of}
use rustygear.Worker.{WrappingSet, Worker}

-- Each of the four ways in which a handler writes to the storage keeps `P`.
pub record Secure {F : Type 0} ⦃w : WrappingSet F⦄ (P : Server F → Type 0) : Type 0 where
  pub stable : Stable P
  pub coalesced : (u : Bytes) (r : Option ℕ) → Keeps P (coalesce u r)
  pub stored : (i : ℕ) (r : Option ℕ) (f u d : Bytes) → Keeps P (new_job i r f u d)
  pub taken : (svc : GearmanService) (k : Worker F) → Keeps P (take_job svc k)
  pub removed : (o : Option Arc) → Keeps P (forget_job o)

-- A predicate that does not look at the storage and the counters.
pub record Blind {F : Type 0} (P : Server F → Type 0) : Type 0 where
  pub stable : Stable P
  pub queues : (s : JobStorage) (st : Server F) → P st → P (put_queues s st)
  pub counted : (st : Server F) → P st → P (fetch_add st).1
  pub allocated : (st : Server F) → P st → P (allocate st).1

module _ {F : Type 0} ⦃w : WrappingSet F⦄ {P : Server F → Type 0} (v : Blind P) where
  blind_coalesce : (u : Bytes) (r : Option ℕ) → Keeps P (coalesce u r)
  unfolding coalesce
  blind_coalesce u r =
      Keeps-with_queues v.stable _ λ s. record { kept = v.queues (coalesce_unique u r s).1 }

  blind_store : (a : Arc) (i : ℕ) (r : Option ℕ) → Keeps P (store_job a i r)
  unfolding store_job
  blind_store a i r =
      Keeps-with_queues v.stable _ λ s. record { kept = v.queues (add_job a i r s).1 }

  blind_new_job : (i : ℕ) (r : Option ℕ) (f u d : Bytes) → Keeps P (new_job i r f u d)
  unfolding new_job
  blind_new_job i r f u d =
      Keeps-bind fetch_add _ (record { kept = v.counted })
        λ n.
          Keeps-bind allocate _ (record { kept = v.allocated })
            λ k.
              Keeps-bind _ _
                (blind_store (record { alloc = k; job = Job.new f u d (handle_of n) }) i r)
                λ _. Keeps-pure (handle_of n)

  blind_take : (svc : GearmanService) (k : Worker F) → Keeps P (take_job svc k)
  unfolding take_job
  blind_take svc k = Keeps-with_queues v.stable _ λ s. record {
    kept = λ st h.
        let r = get_job (held_by st.cells) k s in
        v.queues r.2 _ (v.stable.worker svc.worker r.1 st h);
  }

  blind_forget : (o : Option Arc) → Keeps P (forget_job o)
  unfolding forget_job
  blind_forget none = Keeps-pure tt
  blind_forget (some a) =
      Keeps-with_queues v.stable _ λ s. record { kept = v.queues (remove_job a.job.unique s) }

  pub Blind-Secure : Secure P
  Blind-Secure = record {
    stable = v.stable;
    coalesced = blind_coalesce;
    stored = blind_new_job;
    taken = blind_take;
    removed = blind_forget;
  }
