-- ===== src/Script/Examples.antt =====
-- Runs of the script verdict, and the theorems on it at a concrete output.
use lab_monitor.Base.{
  ◌≡◌, ◌≢◌, ◌↔◌, ◌⊎◌, refl, Bool, true, false, pos, none, some, ◌∷◌, [], ◌++◌, ◌==◌, All, Text,
  text,
}
use lab_monitor.Base.SampleJson.{sample_json}
use lab_monitor.Script.{
  ScriptStatus, ScriptOutcome, ReportedResult, status, reported_by, parse_reported_result,
}
use lab_monitor.Script.Verdict.{status_iff}

abbrev killed : ScriptOutcome
killed = record {
  exit_code = pos 0;
  reported = none;
  stdout_text = [];
  stderr_text = [];
  duration_ms = 120000;
  timed_out = true;
  started = true;
}

abbrev line : Text
line = text "LM-RESULT:  {\"ok\":false}\r"

reports_denial :
    parse_reported_result sample_json (text "working" ++ b'\n' ∷ line)
    ≡ some (record { ok = false; message = text "disk full" })
unfolding parse_reported_result lab_monitor.Base.split text reported_by lab_monitor.Base.starts_with
    lab_monitor.Base.str_eq lab_monitor.Base.OrderedMap.find
reports_denial = refl

status_iff_example :
    ((status killed ≡ ScriptStatus.completed) ↔ (
      (killed.started ≡ true)
      × (killed.timed_out ≡ false)
      × (killed.exit_code ≡ pos 0)
      × ((r : ReportedResult) → killed.reported ≡ some r → r.ok ≡ true)))
    × ((status killed ≡ ScriptStatus.error)
        ↔ ((killed.started ≡ false) ⊎ (killed.timed_out ≡ true)))
    × (status killed ≢ ScriptStatus.refused)
status_iff_example = status_iff killed
