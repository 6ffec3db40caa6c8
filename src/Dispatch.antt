-- ===== src/Dispatch.antt =====
-- apps/server/script_run.cpp and script_run.hpp: one dispatch of a script to a list of hosts, and how
-- far each of them has got. `ScriptResultMessage` is from libs/transport/include/lm/transport/messages.hpp.
pub mod Targets
pub mod Tallies
mod Examples
use lab_monitor.Base.{
  ℕ, suc, ◌+◌, Bool, true, false, not, ◌&&◌, ◌||◌, ℤ, Option, none, some, List, [], ◌∷◌, map, ◌==◌,
  if◌then◌else◌, Text, text, str_eq,
}
use lab_monitor.Script.{ScriptStatus}

pub data TargetState : Type 0 where
  pending dispatched completed failed refused no_response : TargetState

unfoldable pub target_state_to_string : TargetState → Text
unfolding text
target_state_to_string TargetState.pending = text "Pending"
target_state_to_string TargetState.dispatched = text "Dispatched"
target_state_to_string TargetState.completed = text "Completed"
target_state_to_string TargetState.failed = text "Failed"
target_state_to_string TargetState.refused = text "Refused"
target_state_to_string TargetState.no_response = text "NoResponse"

unfoldable pub target_state_from_string : Text → Option TargetState
unfolding text
target_state_from_string s =
    if str_eq s (text "Pending")
    then some TargetState.pending
    else if str_eq s (text "Dispatched")
    then some TargetState.dispatched
    else if str_eq s (text "Completed")
    then some TargetState.completed
    else if str_eq s (text "Failed")
    then some TargetState.failed
    else if str_eq s (text "Refused")
    then some TargetState.refused
    else if str_eq s (text "NoResponse")
    then some TargetState.no_response
    else none

pub record ScriptResultMessage : Type 0 where
  pub host_id : Text
  pub run_id : Text
  pub status : ScriptStatus
  pub refusal_reason : Text
  pub exit_code : ℤ
  pub has_reported : Bool
  pub reported_ok : Bool
  pub reported_message : Text
  pub stdout_text : Text
  pub stderr_text : Text
  pub duration_ms : ℕ

pub record RunTarget : Type 0 where
  pub host_id : Text
  pub state : TargetState
  pub detail : Text
  pub result : Option ScriptResultMessage

pub record ScriptRun : Type 0 where
  pub run_id : Text
  pub script_name : Text
  pub script_body : Text
  pub issued_at : ℤ
  pub timeout_seconds : ℕ
  pub targets : List RunTarget

-- The target that `find_target` points at, the first with the host's id.
unfoldable pub find_target : List RunTarget → Text → Option RunTarget
find_target [] host_id = none
find_target (target ∷ targets) host_id =
    let rest = find_target targets host_id in
    if str_eq target.host_id host_id then some target else rest

-- A write through the pointer that `find_target` returns; nothing where it is null.
unfoldable pub write_target : List RunTarget → Text → (RunTarget → RunTarget) → List RunTarget
write_target [] host_id f = []
write_target (target ∷ targets) host_id f =
    let rest = write_target targets host_id f in
    if str_eq target.host_id host_id then f target ∷ targets else target ∷ rest

unfoldable pub state_for : ScriptStatus → TargetState
state_for ScriptStatus.completed = TargetState.completed
state_for ScriptStatus.failed = TargetState.failed
state_for ScriptStatus.refused = TargetState.refused
state_for ScriptStatus.error = TargetState.failed

abbrev pub dispatched_target : RunTarget → RunTarget
dispatched_target target = record target { state = TargetState.dispatched }

unfoldable pub mark_dispatched : ScriptRun → Text → ScriptRun
unfolding write_target
mark_dispatched run host_id = record run {
  targets = write_target run.targets host_id dispatched_target;
}

abbrev pub refused_target : Text → RunTarget → RunTarget
refused_target reason target = record target { state = TargetState.refused; detail = reason }

unfoldable pub refuse_at_dispatch : ScriptRun → Text → Text → ScriptRun
unfolding write_target
refuse_at_dispatch run host_id reason = record run {
  targets = write_target run.targets host_id (refused_target reason);
}

abbrev detail_after : ScriptStatus → Text → Text → Text
detail_after ScriptStatus.refused refusal_reason detail = refusal_reason
detail_after _ refusal_reason detail = detail

abbrev pub answered_target : ScriptResultMessage → RunTarget → RunTarget
answered_target result target = record target {
  state = state_for result.status;
  detail = detail_after result.status result.refusal_reason target.detail;
  result = some result;
}

unfoldable pub apply_result : ScriptRun → ScriptResultMessage → ScriptRun
unfolding write_target
apply_result run result = record run {
  targets = write_target run.targets result.host_id (answered_target result);
}

abbrev pub expired : TargetState → TargetState
expired TargetState.dispatched = TargetState.no_response
expired state = state

abbrev pub expired_target : RunTarget → RunTarget
expired_target target = record target { state = expired target.state }

unfoldable pub apply_deadline : ScriptRun → ScriptRun
apply_deadline run = record run { targets = map expired_target run.targets }

pub record RunTally : Type 0 where
  pub pending : ℕ
  pub dispatched : ℕ
  pub completed : ℕ
  pub failed : ℕ
  pub refused : ℕ
  pub no_response : ℕ

abbrev pub no_targets : RunTally
no_targets = record {
  pending = 0;
  dispatched = 0;
  completed = 0;
  failed = 0;
  refused = 0;
  no_response = 0;
}

abbrev pub counted : RunTally → TargetState → RunTally
counted t TargetState.pending = record t { pending = suc t.pending }
counted t TargetState.dispatched = record t { dispatched = suc t.dispatched }
counted t TargetState.completed = record t { completed = suc t.completed }
counted t TargetState.failed = record t { failed = suc t.failed }
counted t TargetState.refused = record t { refused = suc t.refused }
counted t TargetState.no_response = record t { no_response = suc t.no_response }

-- The loop of `tally`, from a tally of the targets before.
unfoldable pub tally_from : RunTally → List RunTarget → RunTally
tally_from t [] = t
tally_from t (target ∷ targets) = tally_from (counted t target.state) targets

unfoldable pub tally : ScriptRun → RunTally
unfolding tally_from
tally run = tally_from no_targets run.targets

abbrev pub is_waiting : TargetState → Bool
is_waiting TargetState.pending = true
is_waiting TargetState.dispatched = true
is_waiting _ = false

unfoldable pub none_waiting : List RunTarget → Bool
none_waiting [] = true
none_waiting (target ∷ targets) = not (is_waiting target.state) && none_waiting targets

unfoldable pub is_finished : ScriptRun → Bool
unfolding none_waiting
is_finished run = none_waiting run.targets
