-- ===== src/Tests/Admin.antt =====
-- The report `status` at a concrete input, as in rustygeard/tests/admin.rs.
use rustygear.Admin.{admin_command_status}
use rustygear.Admin.Report.{report, admin_command_status-report}
use rustygear.Outcome.{ok}
use rustygear.Packet.{new_text_res}
use rustygear.Prelude.{◌≡◌, refl, false, bytes_eq, List, [], ◌∷◌, Bytes, codes}
use rustygear.Prelude.Assoc
use rustygear.Queues.Search.{in_order}
use rustygear.Service.State.{Server}
use rustygear.Text.Decimal.{show, digits}
use rustygear.Tests.Queues.{first, second}
use rustygear.Tests.Service.{start}

-- Two functions with two jobs and one; of the first, two connections are awake and one sleeps.
abbrev queued : Server (List Bytes)
queued = record start {
  queues = record {
    value = record {
      jobs = [];
      queues =
          (b'f' ∷ [], (first ∷ []) ∷ [] ∷ (first ∷ []) ∷ [])
          ∷ (b'g' ∷ [], [] ∷ (second ∷ []) ∷ [] ∷ [])
          ∷ [];
      remotes_by_unique = [];
      remotes_by_handle = [];
    };
    poisoned = false;
  };
  workers = record {
    value = record {
      allworkers = (b'f' ∷ [], record { inactive = 5 ∷ []; active = 6 ∷ 7 ∷ [] }) ∷ [];
      wakeworkers = [];
    };
    poisoned = false;
  };
}

admin_command_status-report_example :
    admin_command_status queued ≡ (ok (new_text_res (codes "f\t2\t2\t3\ng\t1\t0\t0\n.\n")), queued)
unfolding report in_order show digits Assoc.get
admin_command_status-report_example = admin_command_status-report queued refl refl
