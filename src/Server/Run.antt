-- ===== src/Server/Run.antt =====
-- Runs of rustygeard/src/server.rs: what connections, requests and failures lead to from the empty
-- server, one after the other.
use rustygear.Outcome.{Outcome, ok, err, panic}
use rustygear.Packet.{Packet}
use rustygear.Prelude.{ℕ, ◌<◌, ◌^◌, Bool, Bytes, bytes_eq, arith}
use rustygear.Prelude.Assoc
use rustygear.Queues.{new_job_storage}
use rustygear.Queues.Remotes.{Agrees}
use rustygear.Server.{new_server, accept, serve, hang_up, respond}
use rustygear.Service.{call}
use rustygear.Service.Keeps.{
  Keeps, Keeps-pure, Keeps-bind, Keeps-with_workers, Keeps-with_senders, Keeps-with_conns,
}
use rustygear.Service.Lifecycle.{new_service, drop_service}
use rustygear.Service.Numbered.{Numbered, Numbered-Secure, Numbered-Stable}
use rustygear.Service.Stability.{Keeps-call}
use rustygear.Service.State.{Server, GearmanService, allocate}
use rustygear.Worker.{WrappingSet}

module _ (F : Type 0) ⦃w : WrappingSet F⦄ where
  -- The states of the shared tables between requests, whatever the connections ask and whenever
  -- they come and go.
  pub data Reached : Server F → Type 0 where
    started : Reached new_server
    accepted :
        {st : Server F} (conn_id tx : ℕ) (peer_addr : Bytes)
        → Reached st
        → Reached (accept conn_id tx peer_addr st).1
    served :
        {st : Server F} (debug : Bool) (svc : GearmanService) (tx : ℕ) (frame : Packet)
        → Reached st
        → Reached (serve debug svc tx frame st).1
    dropped : {st : Server F} (svc : GearmanService) → Reached st → Reached (drop_service svc st).1
    hung_up : {st : Server F} (conn_id : ℕ) → Reached st → Reached (hang_up conn_id st).1

new_server-Numbered : (F : Type 0) → Numbered (new_server {F = F})
unfolding new_server new_job_storage Assoc.get
new_server-Numbered F l = (
  record { keyed = λ u a e. cc; handles = λ u v a b e e' h. cc; remotes = λ u a e. cc },
  (λ u a e. cc),
  omega arith,
)

module _ {F : Type 0} ⦃w : WrappingSet F⦄ where
  new_service-Numbered : (c : ℕ) (addr : Bytes) → Keeps {F = F} Numbered (new_service c addr)
  unfolding new_service allocate
  new_service-Numbered c addr = record {
    kept = λ st h l. let (agrees, given, counted) = h (omega arith) in (agrees, given, omega arith);
  }

  accept-Numbered : (c tx : ℕ) (addr : Bytes) → Keeps {F = F} Numbered (accept c tx addr)
  unfolding accept
  accept-Numbered c tx addr =
      Keeps-bind _ _ (Keeps-with_senders Numbered-Stable _ λ m. record { kept = λ st h. h }) λ u.
        Keeps-bind _ _ (new_service-Numbered c addr) λ service.
          Keeps-bind _ _ (Keeps-with_conns Numbered-Stable _ λ m. record { kept = λ st h. h })
            λ v. Keeps-pure service

  hang_up-Numbered : (c : ℕ) → Keeps {F = F} Numbered (hang_up c)
  unfolding hang_up
  hang_up-Numbered c =
      Keeps-bind _ _ (Keeps-with_conns Numbered-Stable _ λ m. record { kept = λ st h. h })
        λ u. Keeps-with_senders Numbered-Stable _ λ m. record { kept = λ st h. h }

  drop_service-Numbered : (svc : GearmanService) → Keeps {F = F} Numbered (drop_service svc)
  unfolding drop_service
  drop_service-Numbered svc = Keeps-with_workers Numbered-Stable _ λ ws. record { kept = λ st h. h }

  respond-Numbered :
      (tx : ℕ) (r : Outcome Packet × Server F) → Numbered r.1 → Numbered (respond tx r).1
  unfolding respond
  respond-Numbered tx (ok p, st) h = h
  respond-Numbered tx (err e, st) h = h
  respond-Numbered tx (panic, st) h = h

  Reached-Numbered : (st : Server F) → Reached F st → Numbered st
  unfolding serve
  Reached-Numbered st started = new_server-Numbered F
  Reached-Numbered st (accepted {st = s} c tx addr r) =
      (accept-Numbered c tx addr).kept s (Reached-Numbered s r)
  Reached-Numbered st (served {st = s} debug svc tx p r) =
      respond-Numbered tx (call debug svc p s)
        ((Keeps-call Numbered-Secure debug svc p).kept s (Reached-Numbered s r))
  Reached-Numbered st (dropped {st = s} svc r) =
      (drop_service-Numbered svc).kept s (Reached-Numbered s r)
  Reached-Numbered st (hung_up {st = s} c r) = (hang_up-Numbered c).kept s (Reached-Numbered s r)

  -- In every state that connections, requests and failures reach from the empty server, fewer than
  -- 2 ^ 64 allocations having been made, the tables of the storage are in step: each job stands
  -- under its unique id, no two jobs share a handle, and the two entries of the remotes of each job
  -- name the same connections.
  pub Reached-Agrees :
      (st : Server F) → Reached F st → st.next_alloc < 2 ^ 64 → Agrees st.queues.value
  Reached-Agrees st r l = (Reached-Numbered st r l).0
