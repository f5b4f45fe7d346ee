-- ===== src/Server/Stuck.antt =====
-- How one connection can keep rustygeard/src/server.rs from taking new ones.
use rustygear.Admin.{worker_lines, admin_command_workers}
use rustygear.Constants
use rustygear.Outcome.{Outcome, ok, err, panic}
use rustygear.Packet.{Packet, no_response, new_text_res}
use rustygear.Prelude.{
  ℕ, ◌≡◌, refl, ◌∙◌, Bool, true, false, some, none, List, arith, Bytes, bytes_eq, nat_eq,
  nat_beq_iff,
}
use rustygear.Prelude.Assoc
use rustygear.Prelude.Assoc.{Map, get-insert}
use rustygear.Server.{accept}
use rustygear.Server.Garbled.{Garbled, worker_lines-Garbled}
use rustygear.Service.{call, arm, dispatch, response_from_packet}
use rustygear.Service.Completed.{put_worker-some}
use rustygear.Service.Handlers.{handle_set_client_id}
use rustygear.Service.Keeps.{put_worker-keeps, poison_cell-keeps}
use rustygear.Service.Lifecycle.{new_service}
use rustygear.Service.Locks.{with_conns-open, with_worker-open}
use rustygear.Service.Missing.{continue-panic}
use rustygear.Service.Poison.{run, run-keeps}
use rustygear.Service.Secure.{Blind, Blind-Secure}
use rustygear.Service.State.{
  pure, Server, GearmanService, M, continue, release, with_conns, with_senders, poison_conns,
  spawn_send, fetch_add, allocate,
}
use rustygear.Text.{from_utf8}
use rustygear.Worker.{WrappingSet, Worker}

abbrev pub ConnsPoisoned : {F : Type 0} → Server F → Type 0
ConnsPoisoned st = st.workers_by_conn.poisoned ≡ true

module _ {F : Type 0} where
  ConnsPoisoned-Blind : Blind {F = F} ConnsPoisoned
  unfolding fetch_add allocate spawn_send
  ConnsPoisoned-Blind = record {
    stable = record {
      workers = λ ws st h. h;
      waiters = λ m st h. h;
      worker = put_worker-keeps λ m st h. h;
      sent = λ tx p st h. h;
      bad_queues = λ st h. h;
      bad_workers = λ st h. h;
      bad_senders = λ st h. h;
      bad_waiters = λ st h. h;
      bad_conns = λ st h. refl;
      bad_cell = poison_cell-keeps λ m st h. h;
    };
    queues = λ s st h. h;
    counted = λ st h. h;
    allocated = λ st h. h;
  }

  release-conns :
      {A : Type 0} (r : Outcome A × Server F)
      → r.0 ≡ panic
      → ((release poison_conns r).0 ≡ panic) × ConnsPoisoned (release poison_conns r).1
  release-conns (ok a, st) e = cc
  release-conns (err x, st) e = cc
  release-conns (panic, st) e = (refl, refl)

module _ {F : Type 0} ⦃w : WrappingSet F⦄ where
  -- The report panics with the table of workers locked.
  report-Garbled :
      (conn k : ℕ) (st : Server F)
      → st.workers_by_conn.poisoned ≡ false
      → Assoc.get conn st.workers_by_conn.value ≡ some k
      → Garbled k st
      → ((admin_command_workers st).0 ≡ panic) × ConnsPoisoned (admin_command_workers st).1
  unfolding admin_command_workers
  report-Garbled conn k st good e g =
      let lines : M F Packet = λ st.
        continue (worker_lines st.workers_by_conn.value st)
          λ response. pure (new_text_res response) in
      rw (with_conns-open _ st good) (
        release-conns (lines st) (
          continue-panic (worker_lines st.workers_by_conn.value st) (λ r. pure (new_text_res r))
            (worker_lines-Garbled conn k st.workers_by_conn.value st e g)))

  accept-Poisoned :
      (c tx : ℕ) (addr : Bytes) (st : Server F) → ConnsPoisoned st → (accept c tx addr st).0 ≡ panic
  unfolding accept with_senders with_conns new_service allocate
  accept-Poisoned c tx addr st bad = ground arith

  set_client_id-Garbled :
      (svc : GearmanService) (p : Packet) (st : Server F) (worker : Worker F)
      → Assoc.get svc.worker st.cells ≡ some (record { value = worker; poisoned = false })
      → handle_set_client_id svc p st ≡ (
        ok no_response,
        record st {
          cells =
              Assoc.insert svc.worker
                (record { value = record worker { client_id = p.body }; poisoned = false })
                st.cells;
        },
      )
  unfolding handle_set_client_id
  set_client_id-Garbled svc p st worker e =
      with_worker-open svc.worker _ st _ e refl
      ∙ rw (put_worker-some svc.worker (record worker { client_id = p.body }) _ st e) refl

  call-workers :
      (svc : GearmanService) (p : Packet) (st : Server F)
      → p.ptype ≡ Constants.admin_workers
      → call false svc p st ≡ admin_command_workers st
  unfolding call dispatch arm response_from_packet
  call-workers svc p st e = rw (e, arm, dispatch, response_from_packet) refl

  call-set_client_id :
      (svc : GearmanService) (p : Packet) (st : Server F)
      → p.ptype ≡ Constants.set_client_id
      → call false svc p st ≡ handle_set_client_id svc p st
  unfolding call dispatch arm
  call-set_client_id svc p st e = rw (e, arm, dispatch) refl

  -- After a connection in the table of workers, which is not poisoned, sets a client id that is no
  -- UTF-8 (its worker not poisoned), the administration command `workers` of any connection panics
  -- (both read with debug logging off), and from then on, whatever requests come in between, every
  -- new connection ends in a panic before it is served.
  pub set_client_id-accept :
      (svc asker : GearmanService) (p q : Packet) (st : Server F) (worker : Worker F)
      (hs : List (Bool × GearmanService × Packet)) (conn_id tx : ℕ) (peer_addr : Bytes)
      → p.ptype ≡ Constants.set_client_id
      → from_utf8 p.body ≡ none
      → q.ptype ≡ Constants.admin_workers
      → Assoc.get svc.worker st.cells ≡ some (record { value = worker; poisoned = false })
      → Assoc.get svc.conn_id st.workers_by_conn.value ≡ some svc.worker
      → st.workers_by_conn.poisoned ≡ false
      → let (named, st1) = call false svc p st in
        let (reported, st2) = call false asker q st1 in
        (named ≡ ok no_response)
        × (reported ≡ panic)
        × ((accept conn_id tx peer_addr (run hs st2)).0 ≡ panic)
  set_client_id-accept svc asker p q st worker hs conn_id tx peer_addr e bad f cell known good =
      let named = record st {
        cells =
            Assoc.insert svc.worker
              (record { value = record worker { client_id = p.body }; poisoned = false }) st.cells;
      } in
      let garbled : Garbled svc.worker named = (
        record { value = record worker { client_id = p.body }; poisoned = false },
        get-insert svc.worker svc.worker _ st.cells
            ∙ rw ((nat_beq_iff svc.worker svc.worker).1 refl) refl,
        bad,
      ) in
      let (fails, closed) = report-Garbled svc.conn_id svc.worker named good known garbled in
      rw (call-set_client_id svc p st e) (
        rw (set_client_id-Garbled svc p st worker cell) (
          rw (call-workers asker q named f) (
            refl,
            fails,
            accept-Poisoned conn_id tx peer_addr _
                (run-keeps (Blind-Secure ConnsPoisoned-Blind) hs _ closed),
          )))
