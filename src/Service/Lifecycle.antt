-- ===== src/Service/Lifecycle.antt =====
-- rustygeard/src/service.rs: how the service of a connection begins and ends.
use rustygear.Prelude.{ℕ, false, Bytes, nat_eq, codes}
use rustygear.Prelude.Assoc
use rustygear.Service.State.{
  GearmanService, M, pure, modify, ◌>>=◌, ◌>>◌, with_workers, put_workers, allocate,
}
use rustygear.Worker.{WrappingSet, new_worker, shutdown}

module _ {F : Type 0} ⦃w : WrappingSet F⦄ where
  -- The worker gets a cell of its own, which the service refers to.
  unfoldable pub new_service : ℕ → Bytes → M F GearmanService
  new_service conn_id peer_addr = do
    n ← allocate
    modify λ st. record st {
      cells =
          Assoc.insert n (record { value = new_worker peer_addr (codes "-"); poisoned = false })
            st.cells;
    }
    pure (record { conn_id = conn_id; worker = n })

module _ {F : Type 0} where
  unfoldable pub drop_service : GearmanService → M F (Unit {0})
  drop_service svc = with_workers λ workers. modify (put_workers (shutdown svc.conn_id workers))
