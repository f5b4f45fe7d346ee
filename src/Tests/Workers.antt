-- ===== src/Tests/Workers.antt =====
-- The table of workers at concrete inputs: rustygeard/src/worker.rs.
use rustygear.Prelude.Assoc
use rustygear.Prelude.{◌≡◌, refl, true, List, [], ◌∷◌, Bytes, bytes_eq, nat_eq}
use rustygear.Prelude.Finite
use rustygear.Tests.Instances.{list_set}
use rustygear.Worker.{Worker, Workers, new_workers, queue_wake, sleep, wakeup, cant_do}
use rustygear.Worker.History.{
  Reached, started, slept, queued, NeverBoth, Reached-NeverBoth, Others, nothing, wakened,
  queue_wake-sleep, cant_do-presence,
}
use rustygear.Worker.Refinement.{Op, run, replay, view, run-replay}
use rustygear.Worker.Presence.{sleeping, presence, can}

abbrev f : Bytes
f = b'f' ∷ []

abbrev g : Bytes
g = b'g' ∷ []

abbrev able : Worker (List Bytes)
able = record { peer_addr = []; functions = f ∷ []; client_id = []; jobs = [] }

-- Connection 5 sleeps, and is able to do `f`.
abbrev resting : Workers
resting = (sleep able 5 new_workers).1

resting-run : presence f 5 resting.allworkers ≡ sleeping
unfolding presence sleep new_workers Assoc.get Assoc.insert Finite.contains Finite.insert
resting-run = refl

woken-run : (queue_wake f resting).0 ≡ 5 ∷ []
unfolding queue_wake sleep new_workers Assoc.get Assoc.insert Finite.insert Finite.contains
woken-run = refl

function_known : can f able ≡ true
unfolding Finite.contains
function_known = refl

resting-Reached : Reached (List Bytes) (queue_wake f resting).1
resting-Reached = queued f (slept able 5 started)

Reached-NeverBoth_example : NeverBoth (queue_wake f resting).1
Reached-NeverBoth_example = Reached-NeverBoth (List Bytes) (queue_wake f resting).1 resting-Reached

other_wakes : Others (List Bytes) 5 f resting (wakeup able 6 resting).1
other_wakes = wakened able 6 refl nothing

queue_wake-sleep_example : Finite.contains 5 (queue_wake f (wakeup able 6 resting).1).0 ≡ true
queue_wake-sleep_example =
    queue_wake-sleep (List Bytes) able f 5 new_workers (wakeup able 6 resting).1 function_known
      other_wakes

cant_do-presence_example :
    (presence f 5 (sleep (cant_do f able) 5 resting).1.allworkers ≡ presence f 5 resting.allworkers)
    × (presence f 5 (wakeup (cant_do f able) 5 resting).1.allworkers
        ≡ presence f 5 resting.allworkers)
cant_do-presence_example = cant_do-presence (List Bytes) able f 5 5 resting

-- Connection 5 goes to sleep and is woken by `f`, and connection 9 is drained.
abbrev history : List (Op (List Bytes))
history = Op.sleep able 5 ∷ Op.queue_wake f ∷ Op.wakeworkers_drain ∷ []

abbrev pending : Workers
pending = record { allworkers = []; wakeworkers = 9 ∷ [] }

run-replay_example :
    (view (run history pending).0 ≡ (replay history (view pending)).0)
    × ((run history pending).1 ≡ (replay history (view pending)).1)
run-replay_example = run-replay history pending
