-- ===== src/RunStore/Examples.antt =====
-- A run that is written and read again.
use lab_monitor.Base.{◌≡◌, refl, false, pos, some, none, List, [], ◌∷◌, Text, text, empty}
use lab_monitor.Script.{ScriptStatus}
use lab_monitor.Dispatch.{TargetState, ScriptRun, ScriptResultMessage}
use lab_monitor.RunStore.{is_safe_run_id}

abbrev answer : ScriptResultMessage
answer = record {
  host_id = text "pc-1";
  run_id = text "r1";
  status = ScriptStatus.failed;
  refusal_reason = [];
  exit_code = pos 3;
  has_reported = false;
  reported_ok = false;
  reported_message = [];
  stdout_text = text "done";
  stderr_text = [];
  duration_ms = 12;
}

abbrev finished_run : ScriptRun
finished_run = record {
  run_id = text "r1";
  script_name = text "cleanup";
  script_body = text "exit 3";
  issued_at = pos 1234;
  timeout_seconds = 60;
  targets =
      record {
        host_id = text "pc-1";
        state = TargetState.failed;
        detail = [];
        result = some answer;
      }
      ∷ record {
        host_id = text "pc-2";
        state = TargetState.refused;
        detail = text "offline";
        result = none;
      }
      ∷ [];
}

unsafe_id : is_safe_run_id (text "..\\x") ≡ false
unfolding is_safe_run_id empty lab_monitor.Base.contains lab_monitor.Base.starts_with text
unsafe_id = refl
