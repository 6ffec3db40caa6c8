-- ===== src/Controller/Runs/Start.antt =====
-- start_script_run of apps/server/server_controller.cpp: the run that it leaves and what it sends.
use lab_monitor.Base.{
  ℕ, ◌≡◌, ◌≢◌, refl, ap, ◌∙◌, sym, inl, inr, Bool, true, false, Option, none, some, List, [], ◌∷◌,
  ◌++◌, map, append_assoc, if◌then◌else◌, Bool-cases, All, Text, ltb,
}
use lab_monitor.Base.Json.{JsonLibrary}
use lab_monitor.Fleet.{FleetEntry}
use lab_monitor.Dispatch.{TargetState, RunTarget, ScriptRun, tally, is_finished}
use lab_monitor.RuleDetail.{Qt}
use lab_monitor.Bus.{ScriptCommand}
use lab_monitor.Controller.{Disk, Output, Event, Result, Server}
use lab_monitor.Controller.Runs.{
  find_entry, refusal_of, commands_out, saved, persist_run_if_finished, draft_run, run_announced,
  start_script_run, started,
}
use lab_monitor.Controller.Runs.Targets.{decided, settle, sent_to, dispatch-map, add_targets-Apart}

-- A target that a new run leaves pending.
abbrev pub IsDecided : RunTarget → Type 0
IsDecided target = target.state ≢ TargetState.pending

settle-IsDecided : (o : Option Text) (target : RunTarget) → IsDecided (settle o target)
settle-IsDecided none target h = cc
settle-IsDecided (some reason) target h = cc

decided-All :
    (entries : List FleetEntry) (targets : List RunTarget)
    → All IsDecided (map (decided entries) targets)
decided-All entries [] = tt
decided-All entries (target ∷ targets) = (
  settle-IsDecided (refusal_of (find_entry entries target.host_id)) target,
  decided-All entries targets,
)

module _ (J : JsonLibrary) (Q : Qt) where
  abbrev pub command_in : Event J Q → List ScriptCommand
  command_in (Output.publish_script_command command) = command ∷ []
  command_in _ = []

  unfoldable pub commands_in : List (Event J Q) → List ScriptCommand
  commands_in [] = []
  commands_in (e ∷ es) = command_in e ++ commands_in es

  commands_in-out :
      (commands : List ScriptCommand) (es : List (Event J Q))
      → commands_in es ≡ []
      → commands_in (commands_out J Q commands ++ es) ≡ commands
  unfolding commands_in
  commands_in-out [] es h = h
  commands_in-out (command ∷ commands) es h =
      ap (λ cs. command ∷ cs) (commands_in-out commands es h)

  commands-append :
      (es fs : List (Event J Q)) → commands_in (es ++ fs) ≡ commands_in es ++ commands_in fs
  unfolding commands_in
  commands-append [] fs = refl
  commands-append (e ∷ es) fs =
      ap (λ cs. command_in e ++ cs) (commands-append es fs)
      ∙ sym (append_assoc (command_in e) (commands_in es) (commands_in fs))

  announced_commands :
      (run : ScriptRun) (kept : List (Event J Q))
      → commands_in kept ≡ []
      → commands_in (kept ++ (run_announced J Q run ++ (Output.script_runs_changed ∷ []))) ≡ []
  announced_commands run kept h =
      commands-append kept (run_announced J Q run ++ (Output.script_runs_changed ∷ []))
      ∙ rw h (unfold commands_in in refl)

  no_commands :
      (waits : Bool) (run : ScriptRun) (kept : List (Event J Q))
      → commands_in kept ≡ []
      → commands_in (
          (if waits then Output.deadline_set run.run_id run.timeout_seconds ∷ [] else [])
          ++ (kept ++ (run_announced J Q run ++ (Output.script_runs_changed ∷ []))))
        ≡ []
  unfolding commands_in
  no_commands true run kept h = announced_commands run kept h
  no_commands false run kept h = announced_commands run kept h

  -- What is kept of a run, saved or not, and the events of it.
  persist_cases :
      (P : Result J Q → Type 0) (c : Server J Q) (run : ScriptRun) (disk : Disk Q.QString)
      → P (c, [])
      → ((o : Option Q.QString) → P (saved J Q c run o))
      → P (persist_run_if_finished J Q c run disk)
  unfolding persist_run_if_finished
  persist_cases P c run disk unfinished finished = elim (Bool-cases (is_finished run)) [
    | inl f ↦ rw f (finished (disk.save_run run))
    | inr f ↦ rw f unfinished
  ]

  saved_commands :
      (c : Server J Q) (run : ScriptRun) (o : Option Q.QString)
      → ((saved J Q c run o).0.script_runs ≡ c.script_runs)
        × (commands_in (saved J Q c run o).1 ≡ [])
  unfolding commands_in
  saved_commands c run none = (refl, refl)
  saved_commands c run (some error) = (refl, refl)

  pub persist_commands :
      (c : Server J Q) (run : ScriptRun) (disk : Disk Q.QString)
      → let r = persist_run_if_finished J Q c run disk in
        (r.0.script_runs ≡ c.script_runs) × (commands_in r.1 ≡ [])
  unfolding commands_in
  persist_commands c run disk =
      persist_cases (λ r. (r.0.script_runs ≡ c.script_runs) × (commands_in r.1 ≡ [])) c run disk
        (refl, refl) (saved_commands c run)

  started_lem :
      (c : Server J Q) (run : ScriptRun) (commands : List ScriptCommand) (disk : Disk Q.QString)
      → let r = started J Q c (run, commands) disk in
        (r.0.script_runs ≡ c.script_runs ++ (run ∷ [])) × (commands_in r.1 ≡ commands)
  unfolding started
  started_lem c run commands disk =
      let kept =
        persist_commands (record c { script_runs = c.script_runs ++ (run ∷ []) }) run disk in
      (kept.0, commands_in-out commands _ (no_commands (ltb 0 (tally run).dispatched) run _ kept.1))

  -- The new run as the code goes through it.
  pub start_script_run-map :
      (c : Server J Q) (script_name script_body : Text) (hosts : List Text) (timeout_seconds : ℕ)
      (disk : Disk Q.QString) (draw : ℕ → Text) (now : ℕ)
      → let draft = draft_run J Q c script_name script_body hosts timeout_seconds draw now in
        let targets = map (decided c.fleet.entries) draft.targets in
        let r =
          start_script_run J Q c script_name script_body hosts timeout_seconds disk draw now in
        (r.0.script_runs ≡ c.script_runs ++ ((record draft { targets = targets }) ∷ []))
        × All IsDecided targets
        × (commands_in r.1 ≡ sent_to c.fleet.entries draft draft.targets)
  unfolding start_script_run draft_run
  start_script_run-map c script_name script_body hosts timeout_seconds disk draw now =
      let draft = draft_run J Q c script_name script_body hosts timeout_seconds draw now in
      let done =
        dispatch-map c.fleet.entries draft [] draft.targets [] (add_targets-Apart [] hosts tt) in
      let final : ScriptRun = record draft {
        targets = map (decided c.fleet.entries) draft.targets;
      } in
      let ends = started_lem c final (sent_to c.fleet.entries draft draft.targets) disk in
      let same = ap (λ d. started J Q c d disk) done in
      (
        ap (λ r. r.0.script_runs) same ∙ ends.0,
        decided-All c.fleet.entries draft.targets,
        ap (λ r. commands_in r.1) same ∙ ends.1,
      )
