-- ===== src/Client/Requests.antt =====
-- rustygear/src/client.rs: `Client` as it is used to submit jobs. A method that waits for an answer
-- is two functions: what it sends, and what it does with the answer once that is there.
use rustygear.Constants
use rustygear.Client.Handlers.{call}
use rustygear.Client.State.{
  WorkUpdate, JobStatus, ClientJob, ClientHandler, Client, C, pure, fails, ◌>>=◌, ◌>>◌, modify,
  with_conns, with_handler, channel,
}
use rustygear.Mutex.{unlocked}
use rustygear.Outcome.{Outcome, ok, err, panic, no_connections, send_failed, connect_failed}
use rustygear.Packet.{Packet, new_req}
use rustygear.Prelude.{
  zero, ℕ, suc, Bool, true, false, Option, none, some, List, [], ◌∷◌, ◌++◌, ◌==◌, Bytes, bytes_eq,
  nat_eq, if◌then◌else◌,
}
use rustygear.Prelude.Assoc
use rustygear.Prelude.Finite

unfoldable pub add_server : Bytes → Client → Client
add_server server st = record st {
  servers = st.servers ++ server ∷ [];
  connected = st.connected ++ false ∷ [];
}

unfoldable pub set_client_id : Bytes → Client → Client
set_client_id client_id st = record st { client_id = some client_id }

-- A send to a channel; `false` if nobody receives from it any more.
unfoldable pub send : ℕ → Packet → C Bool
send tx packet st =
    if Finite.contains tx st.closed
    then (ok false, st)
    else (ok true, record st { sinks = st.sinks ++ (tx, packet) ∷ [] })

-- The handler is locked for its channel only.
unfoldable pub send_packet : ℕ → Packet → C (Unit {0})
unfolding send
send_packet conn packet = do
  sink_tx ← with_handler conn λ handler. pure handler.sink_tx
  sent ← send sink_tx packet
  if sent then pure tt else fails (err send_failed)

-- `Vec::insert`, which panics past the end.
unfoldable pub insert_at {ℓ} : {A : Type ℓ} → ℕ → A → List A → Option (List A)
insert_at zero a xs = some (a ∷ xs)
insert_at (suc n) a [] = none
insert_at (suc n) a (x ∷ xs) = elim (insert_at n a xs) [ none ↦ none | some ys ↦ some (x ∷ ys) ]

unfoldable pub set_true : ℕ → List Bool → List Bool
set_true n [] = []
set_true zero (b ∷ bs) = true ∷ bs
set_true (suc n) (b ∷ bs) = b ∷ set_true n bs

-- The offsets of the servers that are not connected.
unfoldable pub unconnected : ℕ → List Bool → List ℕ
unconnected i [] = []
unconnected i (b ∷ bs) = let rest = unconnected (suc i) bs in if b then rest else i ∷ rest

unfoldable pub introduce : ℕ → Option Bytes → C (Unit {0})
introduce tx none = pure tt
introduce tx (some client_id) =
    modify
      λ st. record st { sinks = st.sinks ++ (tx, new_req Constants.set_client_id client_id) ∷ [] }

-- A server that was reached: the client id is sent first, and the handler takes the place of the
-- server among the connections. The cell of the handler has the number of its channel.
unfoldable pub connect_one : ℕ → C (Unit {0})
unfolding introduce insert_at set_true
connect_one offset = do
  tx ← channel
  λ st. introduce tx st.client_id st
  modify λ st. record st {
    handlers =
        Assoc.insert tx (unlocked (record { client_id = st.client_id; sink_tx = tx })) st.handlers;
    connected = set_true offset st.connected;
  }
  with_conns λ conns. elim (insert_at offset tx conns) [
    | none ↦ fails panic
    | some conns' ↦ modify λ st. record st { conns = record st.conns { value = conns' } }
  ]

-- `reached` says which of the connections could be opened and took the client id, if there is one.
unfoldable pub connect_all : (ℕ → Bool) → List ℕ → C (Unit {0})
unfolding connect_one
connect_all reached [] = pure tt
connect_all reached (i ∷ is) = do
  if reached i then connect_one i else fails (err connect_failed)
  connect_all reached is

unfoldable pub connect : (ℕ → Bool) → C (Unit {0})
unfolding connect_all unconnected
connect reached st = connect_all reached (unconnected 0 st.connected) st

-- What the reader does with the answer of its handler: an error ends the reader.
unfoldable pub answered : ℕ → Outcome Packet × Client → Outcome (Unit {0}) × Client
unfolding send
answered tx (ok response, st) = (do send tx response; pure tt) st
answered tx (err e, st) = (err e, st)
answered tx (panic, st) = (panic, st)

-- What the decoder made of the bytes of the connection: no packet is a panic.
unfoldable pub handle_frame : Outcome Packet → ClientHandler → C Packet
handle_frame (ok packet) handler = call handler packet
handle_frame _ handler = fails panic

-- One round of the loop of the reader of a connection with the channel `tx`; the handler is locked
-- while it works.
unfoldable pub read_frame : ℕ → ℕ → Outcome Packet → C (Unit {0})
unfolding answered handle_frame
read_frame conn tx frame st = answered tx (with_handler conn (handle_frame frame) st)

-- The first of the connections.
abbrev pub first : List ℕ → Option ℕ
first [] = none
first (c ∷ cs) = some c

unfoldable pub first_conn : C ℕ
first_conn = do
  conn ← with_conns λ conns. pure (first conns)
  elim conn [ none ↦ fails (err no_connections) | some c ↦ pure c ]

unfoldable pub echo : Bytes → C (Unit {0})
unfolding first_conn send_packet
echo payload = do conn ← first_conn; send_packet conn (new_req Constants.echo_req payload)

-- `recv().await`: the oldest message; `none` while there is none. The client keeps a sender of
-- each of its channels, so they are never closed.
unfoldable pub echo_response : Client → Option (Bytes × Client)
echo_response st = elim st.echo [ [] ↦ none | res ∷ rest ↦ some (res, record st { echo = rest }) ]

unfoldable pub submission_body : Bytes → Bytes → Bytes → Bytes
submission_body function unique payload = function ++ 0 ∷ (unique ++ 0 ∷ payload)

-- `unique` is the text of a fresh `Uuid`.
unfoldable pub direct_submit : ℕ → Bytes → Bytes → Bytes → C (Unit {0})
unfolding first_conn send_packet submission_body
direct_submit ptype function unique payload = do
  conn ← first_conn
  send_packet conn (new_req ptype (submission_body function unique payload))

-- The channel of the responses is known under the handle from here on.
unfoldable pub register : Bytes → C ClientJob
unfolding channel
register handle = do
  tx ← channel
  modify λ st. record st { senders_by_handle = Assoc.insert handle tx st.senders_by_handle }
  pure (record { handle = handle; response_rx = tx })

unfoldable pub submit_response : Client → Option (Outcome ClientJob × Client)
unfolding register
submit_response st = elim st.job_created [
  | [] ↦ none
  | handle ∷ rest ↦ some (register handle (record st { job_created = rest }))
]

unfoldable pub submit : Bytes → Bytes → Bytes → C (Unit {0})
unfolding direct_submit
submit function unique payload = direct_submit Constants.submit_job function unique payload

unfoldable pub submit_background : Bytes → Bytes → Bytes → C (Unit {0})
unfolding direct_submit
submit_background function unique payload =
    direct_submit Constants.submit_job_bg function unique payload

-- `get_mut(0).unwrap()`, under the lock of the connections.
unfoldable pub get_status : Bytes → C (Unit {0})
unfolding send_packet
get_status handle = do
  conn ← with_conns λ conns. elim (first conns) [ none ↦ fails panic | some c ↦ pure c ]
  send_packet conn (new_req Constants.get_status handle)

unfoldable pub status_response : Client → Option (JobStatus × Client)
status_response st = elim st.status_res [
  | [] ↦ none
  | js ∷ rest ↦ some (js, record st { status_res = rest })
]

-- `error_rx.recv().await`
unfoldable pub error : Client → Option ((Bytes × Bytes) × Client)
error st = elim st.error [ [] ↦ none | e ∷ rest ↦ some (e, record st { error = rest }) ]

-- The oldest update on a channel.
unfoldable pub take_update : ℕ → List (ℕ × WorkUpdate) → Option (WorkUpdate × List (ℕ × WorkUpdate))
take_update rx [] = none
take_update rx ((tx, u) ∷ us) =
    let rest = take_update rx us in
    if tx == rx
    then some (u, us)
    else elim rest [ none ↦ none | some (v, vs) ↦ some (v, (tx, u) ∷ vs) ]

-- `ClientJob::response`: `recv().await` on the channel of the job.
unfoldable pub response : ClientJob → Client → Option (WorkUpdate × Client)
unfolding take_update
response job st = elim (take_update job.response_rx st.updates) [
  | none ↦ none
  | some (u, rest) ↦ some (u, record st { updates = rest })
]
