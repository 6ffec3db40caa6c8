-- ===== src/Controller/Runs.antt =====
-- apps/server/server_controller.cpp: the script runs of the server. Runs are told apart by their ids;
-- a write through the pointer of find_run is a write to the first run with the id.
pub mod Targets
pub mod Start
pub mod Hosts
pub mod Decisions
pub mod Book
pub mod Moves
pub mod History
pub mod Answers
use lab_monitor.Base.{
  ℕ, zero, suc, ◌+◌, Bool, true, false, not, ◌&&◌, ℤ, pos, ltb, ltb_ℤ, Option, none, some, List, [],
  ◌∷◌, ◌++◌, ◌==◌, if◌then◌else◌, length, find_if, Text, text, str_eq, member,
}
use lab_monitor.Base.Json.{JsonLibrary}
use lab_monitor.Types.{Capability, has}
use lab_monitor.Fleet.{HostState, FleetEntry, urgency, host_state_to_string}
use lab_monitor.Dispatch.{
  TargetState, RunTarget, ScriptRun, ScriptResultMessage, RunTally, find_target, apply_result,
  apply_deadline, tally, is_finished, mark_dispatched, refuse_at_dispatch,
}
use lab_monitor.RuleDetail.{Qt}
use lab_monitor.Bus.{ScriptCommand}
use lab_monitor.Controller.{Disk, Output, Event, Result, Server, written}

unfoldable pub find_run : List ScriptRun → Text → Option ScriptRun
find_run [] run_id = none
find_run (run ∷ runs) run_id =
    let rest = find_run runs run_id in if str_eq run.run_id run_id then some run else rest

unfoldable pub write_run : List ScriptRun → ScriptRun → List ScriptRun
write_run [] changed = []
write_run (run ∷ runs) changed =
    let rest = write_run runs changed in
    if str_eq run.run_id changed.run_id then changed ∷ runs else run ∷ rest

abbrev pub is_found : Option ScriptRun → Bool
is_found none = false
is_found (some _) = true

-- The loop that draws an id until it is new; `draw` gives the ids that make_run_id makes, and there is
-- a round for every run and one more.
unfoldable pub new_id : ℕ → List ScriptRun → (ℕ → Text) → Text
new_id zero runs draw = draw 0
new_id (suc rounds) runs draw =
    let rest = new_id rounds runs (λ n. draw (suc n)) in
    if is_found (find_run runs (draw 0)) then rest else draw 0

unfoldable pub is_targeted : List RunTarget → Text → Bool
is_targeted targets host_id = is_some (find_target targets host_id)
  where
    is_some : Option RunTarget → Bool
    is_some none = false
    is_some (some _) = true

abbrev pub new_target : Text → RunTarget
new_target host_id = record {
  host_id = host_id;
  state = TargetState.pending;
  detail = [];
  result = none;
}

unfoldable pub add_targets : List RunTarget → List Text → List RunTarget
unfolding is_targeted
add_targets targets [] = targets
add_targets targets (host_id ∷ hosts) =
    add_targets
      (if is_targeted targets host_id then targets else targets ++ (new_target host_id ∷ [])) hosts

unfoldable pub find_entry : List FleetEntry → Text → Option FleetEntry
find_entry entries host_id = find_if (λ (e : FleetEntry). str_eq e.host_id host_id) entries

abbrev pub is_online : HostState → Bool
is_online state = urgency state == urgency HostState.online

-- What keeps a command from a host: none where it is online and enrolled.
abbrev pub refusal_of : Option FleetEntry → Option Text
refusal_of none = some (text "host is not in the fleet")
refusal_of (some entry) =
    if not (is_online entry.state)
    then some (text "host is " ++ (host_state_to_string entry.state ++ text ", not Online"))
    else if not (has entry.caps Capability.scripts)
    then some (text "not enrolled for script execution")
    else none

abbrev pub command_for : ScriptRun → Text → ScriptCommand
command_for run host_id = record {
  host_id = host_id;
  run_id = run.run_id;
  script_name = run.script_name;
  script_body = run.script_body;
  timeout_seconds = run.timeout_seconds;
}

-- One round of the loop over the targets.
abbrev pub dispatch_one :
    Option Text → Text → ScriptRun × List ScriptCommand → ScriptRun × List ScriptCommand
dispatch_one (some reason) host_id (run, commands) =
    (refuse_at_dispatch run host_id reason, commands)
dispatch_one none host_id (run, commands) =
    (mark_dispatched run host_id, commands ++ (command_for run host_id ∷ []))

unfoldable pub dispatch_targets :
    List FleetEntry
    → List RunTarget
    → ScriptRun × List ScriptCommand
    → ScriptRun × List ScriptCommand
unfolding find_entry
dispatch_targets entries [] state = state
dispatch_targets entries (target ∷ targets) state =
    dispatch_targets entries targets
      (dispatch_one (refusal_of (find_entry entries target.host_id)) target.host_id state)

unfoldable pub insert_id : Text → List Text → List Text
insert_id run_id ids = if member run_id ids then ids else run_id ∷ ids

unfoldable pub erase_id : Text → List Text → List Text
erase_id run_id [] = []
erase_id run_id (id ∷ ids) =
    let rest = erase_id run_id ids in if str_eq run_id id then rest else id ∷ rest

unfoldable pub without_run : Text → List ScriptRun → List ScriptRun
without_run run_id [] = []
without_run run_id (run ∷ runs) =
    let rest = without_run run_id runs in if str_eq run.run_id run_id then rest else run ∷ rest

unfoldable pub runs_from : ℤ → List ScriptRun → List ScriptRun
runs_from cutoff [] = []
runs_from cutoff (run ∷ runs) =
    let rest = runs_from cutoff runs in if ltb_ℤ run.issued_at cutoff then rest else run ∷ rest

unfoldable pub doomed_ids : ℤ → List ScriptRun → List Text
doomed_ids cutoff [] = []
doomed_ids cutoff (run ∷ runs) =
    let rest = doomed_ids cutoff runs in
    if ltb_ℤ run.issued_at cutoff then run.run_id ∷ rest else rest

-- A target that a result may still move.
abbrev pub is_open : TargetState → Bool
is_open TargetState.dispatched = true
is_open TargetState.no_response = true
is_open _ = false

module _ (J : JsonLibrary) (Q : Qt) where
  open Q use {QString}

  abbrev pub commands_out : List ScriptCommand → List (Event J Q)
  commands_out [] = []
  commands_out (command ∷ commands) = Output.publish_script_command command ∷ commands_out commands

  abbrev pub saved : Server J Q → ScriptRun → Option QString → Result J Q
  saved c run none =
      (record c { saved_runs = insert_id run.run_id c.saved_runs }, Output.run_saved run ∷ [])
  saved c run (some error) = (c, Output.config_error error ∷ [])

  unfoldable pub persist_run_if_finished : Server J Q → ScriptRun → Disk QString → Result J Q
  unfolding insert_id
  persist_run_if_finished c run disk =
      if not (is_finished run) then (c, []) else saved c run (disk.save_run run)

  -- The run before its targets are gone through.
  unfoldable pub draft_run : Server J Q → Text → Text → List Text → ℕ → (ℕ → Text) → ℕ → ScriptRun
  unfolding new_id add_targets
  draft_run c script_name script_body hosts timeout_seconds draw now = record {
    run_id = new_id (suc (length c.script_runs)) c.script_runs draw;
    script_name = script_name;
    script_body = script_body;
    issued_at = pos now;
    timeout_seconds = timeout_seconds;
    targets = add_targets [] hosts;
  }

  abbrev pub deadline_out : ScriptRun → List (Event J Q)
  deadline_out run =
      if ltb 0 (tally run).dispatched
      then Output.deadline_set run.run_id run.timeout_seconds ∷ []
      else []

  abbrev pub run_announced : ScriptRun → List (Event J Q)
  run_announced run = Output.script_run_changed (Q.to_qstring run.run_id) ∷ []

  -- The run as it stands when every target has been gone through, and the commands that are sent.
  abbrev pub dispatched_run : Server J Q → ScriptRun → ScriptRun × List ScriptCommand
  dispatched_run c draft = dispatch_targets c.fleet.entries draft.targets (draft, [])

  -- What is left to do when the targets have been gone through.
  unfoldable pub started : Server J Q → ScriptRun × List ScriptCommand → Disk QString → Result J Q
  unfolding persist_run_if_finished
  started c (run, commands) disk =
      let kept =
        persist_run_if_finished (record c { script_runs = c.script_runs ++ (run ∷ []) }) run disk in
      (
        kept.0,
        commands_out commands
            ++ (deadline_out run
                ++ (kept.1 ++ (run_announced run ++ (Output.script_runs_changed ∷ [])))),
      )

  unfoldable pub start_script_run :
      Server J Q → Text → Text → List Text → ℕ → Disk QString → (ℕ → Text) → ℕ → Result J Q
  unfolding draft_run dispatch_targets started
  start_script_run c script_name script_body hosts timeout_seconds disk draw now =
      started c
        (dispatched_run c (draft_run c script_name script_body hosts timeout_seconds draw now)) disk

  -- A run that is written back, saved if it is finished, and announced.
  abbrev pub changed_run : Server J Q → ScriptRun → Disk QString → Result J Q
  changed_run c run disk =
      let kept =
        persist_run_if_finished (record c { script_runs = write_run c.script_runs run }) run disk in
      (kept.0, kept.1 ++ run_announced run)

  abbrev pub result_at :
      Server J Q → ScriptRun → ScriptResultMessage → Disk QString → Option RunTarget → Result J Q
  result_at c run result disk none = (c, [])
  result_at c run result disk (some target) =
      if is_open target.state then changed_run c (apply_result run result) disk else (c, [])

  abbrev pub result_in :
      Server J Q → ScriptResultMessage → Disk QString → Option ScriptRun → Result J Q
  result_in c result disk none = (c, [])
  result_in c result disk (some run) =
      result_at c run result disk (find_target run.targets result.host_id)

  unfoldable pub on_script_result : Server J Q → ScriptResultMessage → Disk QString → Result J Q
  unfolding find_run write_run persist_run_if_finished
  on_script_result c result disk = result_in c result disk (find_run c.script_runs result.run_id)

  abbrev pub deadline_in : Server J Q → Disk QString → Option ScriptRun → Result J Q
  deadline_in c disk none = (c, [])
  deadline_in c disk (some run) =
      if (tally run).dispatched == 0 then (c, []) else changed_run c (apply_deadline run) disk

  unfoldable pub on_run_deadline : Server J Q → Text → Disk QString → Result J Q
  unfolding find_run write_run persist_run_if_finished
  on_run_deadline c run_id disk = deadline_in c disk (find_run c.script_runs run_id)

  -- A run that could not be deleted is an error only if it was saved.
  abbrev pub deletion_out : Option QString → Bool → List (Event J Q)
  deletion_out none was_saved = []
  deletion_out (some error) was_saved = if was_saved then Output.config_error error ∷ [] else []

  abbrev pub is_removed : Option QString → Bool
  is_removed none = true
  is_removed (some _) = false

  unfoldable pub delete_script_run : Server J Q → Text → Disk QString → Result J Q × Bool
  unfolding without_run erase_id
  delete_script_run c run_id disk =
      let answer = disk.delete_run run_id in
      (
        (
          record c {
            script_runs = without_run run_id c.script_runs;
            saved_runs = erase_id run_id c.saved_runs;
          },
          deletion_out answer (member run_id c.saved_runs) ++ (Output.script_runs_changed ∷ []),
        ),
        is_removed answer,
      )

  -- The loop over the doomed ids.
  unfoldable pub delete_doomed : Server J Q → List Text → Disk QString → Result J Q
  unfolding erase_id
  delete_doomed c [] disk = (c, [])
  delete_doomed c (run_id ∷ ids) disk =
      let first = deletion_out (disk.delete_run run_id) (member run_id c.saved_runs) in
      let rest = delete_doomed (record c { saved_runs = erase_id run_id c.saved_runs }) ids disk in
      (rest.0, first ++ rest.1)

  unfoldable pub delete_script_runs_before : Server J Q → ℤ → Disk QString → Result J Q × ℕ
  unfolding delete_doomed doomed_ids runs_from
  delete_script_runs_before c cutoff disk =
      let doomed = doomed_ids cutoff c.script_runs in
      let done = delete_doomed c doomed disk in
      (
        (
          record done.0 { script_runs = runs_from cutoff c.script_runs },
          done.1 ++ (Output.script_runs_changed ∷ []),
        ),
        length doomed,
      )
