-- ===== src/Dispatch/Examples.antt =====
-- Runs of a dispatch to three hosts.
use lab_monitor.Base.{
  ◌≡◌, ◌↔◌, refl, ℕ, ◌+◌, pos, Bool, true, false, none, some, List, [], ◌∷◌, length, Text, text,
}
use lab_monitor.Script.{ScriptStatus}
use lab_monitor.Dispatch.{
  TargetState, target_state_to_string, target_state_from_string, ScriptResultMessage, RunTarget,
  ScriptRun, mark_dispatched, dispatched_target, refuse_at_dispatch, refused_target, apply_result,
  answered_target, apply_deadline, tally, is_finished,
}

abbrev target : Text → TargetState → RunTarget
target host_id state = record { host_id = host_id; state = state; detail = []; result = none }

abbrev run : ScriptRun
run = record {
  run_id = text "r1";
  script_name = text "clean-up";
  script_body = text "exit 0";
  issued_at = pos 100;
  timeout_seconds = 120;
  targets =
      target (text "pc-1") TargetState.dispatched
      ∷ target (text "pc-2") TargetState.completed
      ∷ target (text "pc-3") TargetState.dispatched
      ∷ [];
}

abbrev answer : ScriptResultMessage
answer = record {
  host_id = text "pc-3";
  run_id = text "r1";
  status = ScriptStatus.error;
  refusal_reason = [];
  exit_code = pos 1;
  has_reported = false;
  reported_ok = false;
  reported_message = [];
  stdout_text = [];
  stderr_text = [];
  duration_ms = 40;
}

answered_then_late : is_finished (apply_deadline (apply_result run answer)) ≡ true
unfolding is_finished apply_deadline apply_result lab_monitor.Base.str_eq text
    lab_monitor.Dispatch.state_for
answered_then_late = refl

still_waiting : is_finished (apply_result run answer) ≡ false
unfolding is_finished apply_result lab_monitor.Base.str_eq text
still_waiting = refl
