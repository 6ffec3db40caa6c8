-- ===== src/Controller/Runs/History.antt =====
-- The script runs of the server over any course of events.
use lab_monitor.Base.{
  ℕ, suc, ◌≡◌, refl, sym, subst, arith, inl, inr, Option, none, some, List, [], ◌∷◌, ◌==◌, ℤ,
  length, length-map, Bool-cases, All, Text,
}
use lab_monitor.Base.Json.{JsonLibrary}
use lab_monitor.Dispatch.{
  RunTarget, ScriptRun, ScriptResultMessage, apply_result, apply_deadline, tally, find_target,
}
use lab_monitor.RuleDetail.{Qt}
use lab_monitor.Controller.{Disk, Server}
use lab_monitor.Controller.Runs.{
  find_run, write_run, is_open, changed_run, result_at, result_in, deadline_in, on_script_result,
  on_run_deadline, draft_run, delete_script_run, delete_script_runs_before, start_script_run,
}
use lab_monitor.Controller.Runs.Start.{persist_commands, start_script_run-map}
use lab_monitor.Controller.Runs.Book.{
  run_ids, IsDecidedRun, IsBook, new_id-fresh, find-All, append-IsBook, write-IsBook,
  without-IsBook, runs_from-IsBook,
}
use lab_monitor.Controller.Runs.Moves.{apply_result-IsDecidedRun, apply_deadline-IsDecidedRun}

module _ (J : JsonLibrary) (Q : Qt) where
  pub changed_run_runs :
      (c : Server J Q) (run : ScriptRun) (disk : Disk Q.QString)
      → (changed_run J Q c run disk).0.script_runs ≡ write_run c.script_runs run
  changed_run_runs c run disk =
      (persist_commands J Q (record c { script_runs = write_run c.script_runs run }) run disk).0

  -- The events of the script runs.
  pub data RunEvent : Type 0 where
    starts : Text → Text → List Text → ℕ → (ℕ → Text) → ℕ → RunEvent
    result_arrives : ScriptResultMessage → RunEvent
    deadline_passes : Text → RunEvent
    deleted : Text → RunEvent
    deleted_before : ℤ → RunEvent

  unfoldable pub run_step : Server J Q → Disk Q.QString → RunEvent → Server J Q
  run_step c disk (RunEvent.starts script_name script_body hosts timeout_seconds draw now) =
      (start_script_run J Q c script_name script_body hosts timeout_seconds disk draw now).0
  run_step c disk (RunEvent.result_arrives result) = (on_script_result J Q c result disk).0
  run_step c disk (RunEvent.deadline_passes run_id) = (on_run_deadline J Q c run_id disk).0
  run_step c disk (RunEvent.deleted run_id) = (delete_script_run J Q c run_id disk).0.0
  run_step c disk (RunEvent.deleted_before cutoff) =
      (delete_script_runs_before J Q c cutoff disk).0.0

  unfoldable pub run_events : Server J Q → List (Disk Q.QString × RunEvent) → Server J Q
  run_events c [] = c
  run_events c ((disk, e) ∷ es) = run_events (run_step c disk e) es

  -- The ids that are drawn for a new run differ from each other.
  abbrev pub DrawsDiffer : Disk Q.QString × RunEvent → Type 0
  DrawsDiffer (disk, RunEvent.starts script_name script_body hosts timeout_seconds draw now) =
      (m n : ℕ) → draw m ≡ draw n → m ≡ n
  DrawsDiffer _ = Unit

  changed_run-IsBook :
      (c : Server J Q) (run : ScriptRun) (disk : Disk Q.QString)
      → IsBook c.script_runs
      → IsDecidedRun run
      → IsBook (changed_run J Q c run disk).0.script_runs
  changed_run-IsBook c run disk b decided =
      subst IsBook (sym (changed_run_runs c run disk)) (write-IsBook c.script_runs run b decided)

  result_at-IsBook :
      (c : Server J Q) (run : ScriptRun) (result : ScriptResultMessage) (disk : Disk Q.QString)
      (o : Option RunTarget)
      → IsBook c.script_runs
      → IsDecidedRun run
      → IsBook (result_at J Q c run result disk o).0.script_runs
  result_at-IsBook c run result disk none b d = b
  result_at-IsBook c run result disk (some target) b d = elim (Bool-cases (is_open target.state)) [
    | inl e ↦ rw e (
        changed_run-IsBook c (apply_result run result) disk b
          (apply_result-IsDecidedRun run result d))
    | inr e ↦ rw e b
  ]

  result_in-IsBook :
      (c : Server J Q) (result : ScriptResultMessage) (disk : Disk Q.QString) (o : Option ScriptRun)
      → find_run c.script_runs result.run_id ≡ o
      → IsBook c.script_runs
      → IsBook (result_in J Q c result disk o).0.script_runs
  result_in-IsBook c result disk none e b = b
  result_in-IsBook c result disk (some run) e b =
      result_at-IsBook c run result disk (find_target run.targets result.host_id) b
        (find-All IsDecidedRun c.script_runs result.run_id run b.decided e)

  deadline_in-IsBook :
      (c : Server J Q) (id : Text) (disk : Disk Q.QString) (o : Option ScriptRun)
      → find_run c.script_runs id ≡ o
      → IsBook c.script_runs
      → IsBook (deadline_in J Q c disk o).0.script_runs
  deadline_in-IsBook c id disk none e b = b
  deadline_in-IsBook c id disk (some run) e b = elim (Bool-cases ((tally run).dispatched == 0)) [
    | inl z ↦ rw z b
    | inr z ↦ rw z (
        changed_run-IsBook c (apply_deadline run) disk b (
          apply_deadline-IsDecidedRun run (find-All IsDecidedRun c.script_runs id run b.decided e)))
  ]

  run_step-IsBook :
      (c : Server J Q) (disk : Disk Q.QString) (e : RunEvent)
      → IsBook c.script_runs
      → DrawsDiffer (disk, e)
      → IsBook (run_step c disk e).script_runs
  unfolding run_step on_script_result on_run_deadline delete_script_run delete_script_runs_before
      draft_run
  run_step-IsBook c disk (RunEvent.starts script_name script_body hosts timeout_seconds draw now) b
        d =
      let started =
        start_script_run-map J Q c script_name script_body hosts timeout_seconds disk draw now in
      let rounds = length c.script_runs in
      let fresh =
        new_id-fresh (suc rounds) c.script_runs draw (run_ids c.script_runs) d (λ n p. p)
          (omega (arith, length-map (λ (r : ScriptRun). r.run_id) c.script_runs)) in
      subst IsBook (sym started.0) (append-IsBook c.script_runs _ b started.1 fresh)
  run_step-IsBook c disk (RunEvent.result_arrives result) b d =
      result_in-IsBook c result disk (find_run c.script_runs result.run_id) refl b
  run_step-IsBook c disk (RunEvent.deadline_passes run_id) b d =
      deadline_in-IsBook c run_id disk (find_run c.script_runs run_id) refl b
  run_step-IsBook c disk (RunEvent.deleted run_id) b d = without-IsBook run_id c.script_runs b
  run_step-IsBook c disk (RunEvent.deleted_before cutoff) b d =
      runs_from-IsBook cutoff c.script_runs b

  -- Where no two runs have one id and no target is pending, it stays so over any course of starts,
  -- results, deadlines and deletions, if the ids that are drawn for a new run differ: a start draws
  -- until it has an id that no run has.
  pub run_events-IsBook :
      (c : Server J Q) (es : List (Disk Q.QString × RunEvent))
      → IsBook c.script_runs
      → All DrawsDiffer es
      → IsBook (run_events c es).script_runs
  unfolding run_events
  run_events-IsBook c [] b d = b
  run_events-IsBook c ((disk, e) ∷ es) b d =
      run_events-IsBook (run_step c disk e) es (run_step-IsBook c disk e b d.0) d.1
