-- ===== src/Engine/Prune/Tests.antt =====
-- A claw with two ended runs, pruned one a call (packages/engines/sql/src/store.ts, `pruneRuns`).
use busyclaw.Prelude.{ℕ, ◌+◌, ◌≡◌, refl, true, none, some, [], ◌∷◌, arith, Timestamp}
use busyclaw.Storage.Table.{find_many, sort_asc, place}
use busyclaw.Engine.Schema.{completed, RunRecord}
use busyclaw.Engine.Runs.{new_run, new_task}
use busyclaw.Engine.Prune.{Store, PruneInput, prune_runs, prunes}
use busyclaw.Engine.Prune.Drained.{unswept, prunes_end}

abbrev old_run : RunRecord
old_run =
    record (new_run
      (record {
        id = 1;
        input = 5;
        principal = none;
        recording = none;
        claw_id = some 9;
        model = none;
        run_mode = none;
      })
      10) { status = completed }

abbrev claw_store : Store
claw_store = record {
  db = record {
    runs = old_run ∷ record old_run { id = 2; updated_at = 5 } ∷ [];
    tasks =
        new_task
          (record {
            id = 3;
            run_id = 2;
            kind = 3;
            payload = 4;
            due_at = none;
            max_attempts = none;
            retry_delay_ms = none;
          })
          10
        ∷ [];
    leases = [];
    events = [];
  };
  messages = [];
}

abbrev one_a_call : PruneInput
one_a_call = record { claw_id = 9; before = 50; limit = some 1 }

oldest_first : (prune_runs true one_a_call 60 claw_store).0.run_ids ≡ 2 ∷ []
unfolding prune_runs find_many sort_asc place
oldest_first = refl

abbrev at_sixty : ℕ → Timestamp
at_sixty n = 60 + n

prunes_end_example :
    (unswept one_a_call (prunes true 2 one_a_call at_sixty claw_store).db.runs ≡ 0)
    × ((prune_runs true one_a_call 70 (prunes true 2 one_a_call at_sixty claw_store)).0.runs ≡ 0)
prunes_end_example =
    prunes_end one_a_call true at_sixty 2 claw_store 70 (((λ e. cc e, tt), (tt, tt))) (omega arith)
      (omega arith)
