-- ===== src/Client/Ready.antt =====
-- A client that can send on its first connection, and what its sends do then.
use rustygear.Client.Requests.{first_conn, send, send_packet}
use rustygear.Client.State.{
  poison_conns, Client, C, ClientHandler, release, poison_handler, pure, with_conns, with_handler,
  at_handler,
}
use rustygear.Mutex.{Mutex, unlocked}
use rustygear.Outcome.{Outcome, ok, panic}
use rustygear.Packet.{Packet}
use rustygear.Prelude.{
  if◌then◌else◌, ℕ, ◌≡◌, refl, ap, false, Option, some, List, [], ◌∷◌, ◌++◌, Bytes, nat_eq,
}
use rustygear.Prelude.Assoc
use rustygear.Prelude.Finite

-- The connection `conn` stands first, nobody panicked with its lock, and its channel `tx` is open.
pub record Ready (conn tx : ℕ) (st : Client) : Type 0 where
  pub others : List ℕ
  pub client_id : Option Bytes
  pub conns : st.conns ≡ unlocked (conn ∷ others)
  pub handler :
      Assoc.get conn st.handlers ≡ some (unlocked (record { client_id = client_id; sink_tx = tx }))
  pub opened : Finite.contains tx st.closed ≡ false

abbrev pub sending : ℕ → Packet → Client → Client
sending tx p st = record st { sinks = st.sinks ++ (tx, p) ∷ [] }

pub with_handler-open :
    {A : Type 0} (k : ℕ) (m : ClientHandler → C A) (st : Client) (h : ClientHandler)
    → Assoc.get k st.handlers ≡ some (unlocked h)
    → with_handler k m st ≡ release (poison_handler k) (m h st)
unfolding with_handler
with_handler-open {A} k m st h e =
    ap
      (λ (o : Option (Mutex ClientHandler)).
        let r : Outcome A × Client = release (poison_handler k) (at_handler m o st) in r)
      e

pub send_packet-Ready :
    (conn tx : ℕ) (p : Packet) (st : Client)
    → Ready conn tx st
    → send_packet conn p st ≡ (ok tt, sending tx p st)
unfolding send_packet send
send_packet-Ready conn tx p st r =
    rw (with_handler-open conn (λ handler. pure handler.sink_tx) st _ r.handler)
      (rw (r.opened, send) refl)

pub first_conn-Ready :
    (conn tx : ℕ) (st : Client) → Ready conn tx st → first_conn st ≡ (ok conn, st)
unfolding first_conn with_conns
first_conn-Ready conn tx st r = rw (r.conns, with_conns) refl

pub with_conns-open :
    {A : Type 0} (m : List ℕ → C A) (st : Client) (cs : List ℕ)
    → st.conns ≡ unlocked cs
    → with_conns m st ≡ release poison_conns (m cs st)
unfolding with_conns
with_conns-open {A} m st cs e =
    ap
      (λ (c : Mutex (List ℕ)).
        let r : Outcome A × Client =
          if c.poisoned then (panic, st) else release poison_conns (m c.value st) in
        r)
      e
