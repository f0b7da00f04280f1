-- ===== src/Engine/Control/Tests.antt =====
-- A queued run with one pending task, and a stop (packages/engines/sql/src/engine.ts, `controlRun`).
use busyclaw.Prelude.{◌≡◌, refl, true, none, some, [], ◌∷◌, arith}
use busyclaw.Storage.Table.{find_one}
use busyclaw.Engine.Schema.{stop, RunRecord, RuntimeTask, Db}
use busyclaw.Engine.Runs.{new_run, new_task}
use busyclaw.Engine.Invariant.{Inv}
use busyclaw.Engine.Control.{ControlRunInput, accepted, control_run}
use busyclaw.Engine.Control.Settled.{IsSettled, control_run_settles}

abbrev queued_run : RunRecord
queued_run =
    new_run
      (record {
        id = 1;
        input = 5;
        principal = none;
        recording = none;
        claw_id = none;
        model = none;
        run_mode = none;
      })
      10

abbrev waiting_task : RuntimeTask
waiting_task =
    new_task
      (record {
        id = 2;
        run_id = 1;
        kind = 3;
        payload = 4;
        due_at = none;
        max_attempts = none;
        retry_delay_ms = none;
      })
      10

abbrev queued_store : Db
queued_store = record {
  runs = queued_run ∷ [];
  tasks = waiting_task ∷ [];
  leases = [];
  events = [];
}

abbrev stop_run : ControlRunInput
stop_run = record { run_id = 1; intent = stop; requested_by = some 7; reason = none }

queued_store-Inv : Inv queued_store
unfolding find_one
queued_store-Inv = record {
  runs = (tt, tt);
  tasks = (tt, tt);
  leases = tt;
  held = λ i r e s. absurd (ground (arith, e, s));
}

control_run_settles_example :
    ((control_run stop_run 20 21 (some queued_run) queued_store).0 ≡ accepted true)
    × IsSettled stop_run queued_run (control_run stop_run 20 21 (some queued_run) queued_store).1
unfolding find_one
control_run_settles_example =
    control_run_settles stop_run 20 21 queued_store queued_run queued_store-Inv refl refl refl
