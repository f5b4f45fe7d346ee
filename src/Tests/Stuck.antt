-- ===== src/Tests/Stuck.antt =====
-- A client id that is no UTF-8, at a concrete input: rustygeard/src/server.rs.
use rustygear.Constants
use rustygear.Outcome.{ok, panic}
use rustygear.Packet.{text, Packet, new_req, no_response}
use rustygear.Prelude.{◌≡◌, refl, false, none, some, List, [], ◌∷◌, Bytes, bytes_eq, nat_eq}
use rustygear.Prelude.Assoc
use rustygear.Server.{accept}
use rustygear.Server.Stuck.{set_client_id-accept}
use rustygear.Service.{call}
use rustygear.Service.Poison.{run}
use rustygear.Tests.Instances.{list_set}
use rustygear.Tests.Runs.{submission}
use rustygear.Tests.Service.{start, five}
use rustygear.Text.{from_utf8}
use rustygear.Worker.{Worker}

abbrev naming : Packet
naming = new_req Constants.set_client_id (255 ∷ [])

abbrev asking : Packet
asking = record { magic = text; ptype = Constants.admin_workers; psize = 0; body = [] }

abbrev idle : Worker (List Bytes)
idle = record { peer_addr = []; functions = []; client_id = []; jobs = [] }

unreadable : from_utf8 naming.body ≡ none
unfolding from_utf8 new_req
unreadable = refl

naming_type : naming.ptype ≡ Constants.set_client_id
unfolding new_req
naming_type = refl

idle_cell : Assoc.get 5 start.cells ≡ some (record { value = idle; poisoned = false })
unfolding Assoc.get
idle_cell = refl

five_known : Assoc.get 5 start.workers_by_conn.value ≡ some 5
unfolding Assoc.get
five_known = refl

set_client_id-accept_example :
    let (named, st1) = call false five naming start in
    let (reported, st2) = call false five asking st1 in
    (named ≡ ok no_response)
    × (reported ≡ panic)
    × ((accept 8 4 [] (run ((false, five, submission) ∷ []) st2)).0 ≡ panic)
set_client_id-accept_example =
    set_client_id-accept five five naming asking start idle ((false, five, submission) ∷ []) 8 4 []
      naming_type unreadable refl idle_cell five_known refl
