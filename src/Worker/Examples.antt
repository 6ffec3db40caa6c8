-- ===== src/Worker/Examples.antt =====
-- Courses of events at a worker, and the theorems on them.
use lab_monitor.Base.{
  ℕ, some, ◌≡◌, refl, arith, true, false, not, ◌&&◌, leb, none, List, [], ◌∷◌, ◌++◌, map, All,
  if◌then◌else◌, Text, text, str_eq, member,
}
use lab_monitor.Base.Json.{JsonLibrary}
use lab_monitor.Base.SampleJson.{Document, json_with, skus, sample_json}
use lab_monitor.Types.{Presence, no_capabilities}
use lab_monitor.Facts.{HostFacts, ResourceSample}
use lab_monitor.Rule.{RulePayload}
use lab_monitor.Bundle.{TemplateBundle, rules_for}
use lab_monitor.BundleJson.{
  bundle_to_json, template_to_json, rule_to_json, names_to_json, version_to_json,
  constraint_to_json,
}
use lab_monitor.BundleJson.RoundTrip.{IsWireBundle}
use lab_monitor.Compliance.{CheckResult}
use lab_monitor.Compliance.Evaluate.{evaluate}
use lab_monitor.Bus.{ScriptCommand}
use lab_monitor.RuleDetail.{Qt, Detail, describe}
use lab_monitor.Worker.{
  Setup, Worker, Output, Happening, new_worker, no_bundle, on_script_command, evaluate_compliance,
  on_bundle, unless_paused, run, step,
}
use lab_monitor.Worker.Runs.{Log, IsSound}
use lab_monitor.Worker.Steps.{note, empty_log, run_new-IsSound, run_ends}
use lab_monitor.Worker.Replies.{
  obstacle, refusal, thread_for, on_script_command_new, IsQuiet, run_paused,
}
use lab_monitor.Worker.Bundles.{message_of_bundle, on_bundle-serialise_bundle, report_rows}
use lab_monitor.Worker.Settled.{warnings, announces_before}
use lab_monitor.Worker.Unheard.{run_warnings}

abbrev qt : Qt
qt = record {
  QString = Text;
  to_qstring = λ s. s;
  literal = λ s. s;
  arg = λ s t. s ++ t;
  arg_both = λ s t u. s ++ (t ++ u);
  arg_int = λ s z. s;
  arg_uint = λ s n. s;
  plus = λ s t. s ++ t;
  is_empty = λ s. str_eq s [];
  trimmed = λ s. s;
  has_text = λ s t. false;
  same = str_eq;
}

abbrev small_bundle : TemplateBundle
small_bundle = record no_bundle {
  revision = 4;
  baseline = record {
    name = text "Baseline";
    rules =
        record {
          id = text "process-cart";
          description = [];
          expectation = Presence.must_be_present;
          payload = RulePayload.process (record { executable = text "cart.exe" });
          version = none;
        }
        ∷ [];
  };
}

abbrev json : JsonLibrary
json = json_with (bundle_to_json sample_json small_bundle)

abbrev setup : Setup
setup = record {
  host_id = text "pc-1";
  capabilities = no_capabilities;
  has_runner = true;
  allow_scripts = true;
}

abbrev idle_sample : ResourceSample ℕ
idle_sample = record {
  cpu_percent = 3;
  mem_total_bytes = 8;
  mem_used_bytes = 2;
  disks = [];
  adapters = [];
}

abbrev facts : TemplateBundle → HostFacts ℕ
facts _ = record {
  host_id = text "pc-1";
  resources = idle_sample;
  processes = [];
  services = [];
  registry = [];
  dds = [];
}

abbrev command : Text → ScriptCommand
command run_id = record {
  host_id = text "pc-1";
  run_id = run_id;
  script_name = text "cleanup";
  script_body = text "exit 0";
  timeout_seconds = 120;
}

abbrev Course : Type 0
Course = List (Happening json qt setup)

-- A run, the same command again, another command while the script runs, the end of the script, and
-- the second command once more.
abbrev course : Course
course =
    Happening.command_arrives (command (text "r1"))
    ∷ Happening.command_arrives (command (text "r1"))
    ∷ Happening.command_arrives (command (text "r2"))
    ∷ Happening.runner_ends none
    ∷ Happening.posted_call_due
    ∷ Happening.command_arrives (command (text "r2"))
    ∷ []

course_run :
    let r = run json qt setup new_worker course in
    ((note json qt setup (empty_log json qt setup) r.1).started ≡ text "r2" ∷ text "r1" ∷ [])
    × ((note json qt setup (empty_log json qt setup) r.1).answered ≡ text "r1" ∷ [])
unfolding run step on_script_command note str_eq text member lab_monitor.Script.status
course_run = (refl, refl)

run_new-IsSound_example :
    let r = run json qt setup new_worker course in
    IsSound r.0 (note json qt setup (empty_log json qt setup) r.1)
run_new-IsSound_example = run_new-IsSound json qt setup course

abbrev first_command : Course
first_command = Happening.command_arrives (command (text "r1")) ∷ []

abbrev busy_worker : Worker
busy_worker = (run json qt setup new_worker first_command).0

abbrev busy_log : Log
busy_log =
    note json qt setup (empty_log json qt setup) (run json qt setup new_worker first_command).1

busy_worker_running : busy_worker.running ≡ true
unfolding run step on_script_command str_eq text member
busy_worker_running = refl

run_ends_example :
    let r =
      run json qt setup busy_worker (Happening.runner_ends none ∷ Happening.posted_call_due ∷ []) in
    (r.0.running ≡ false)
    × ((note json qt setup busy_log r.1).answered ≡ (note json qt setup busy_log r.1).started)
    × ((note json qt setup busy_log r.1).started ≡ busy_log.started)
run_ends_example =
    run_ends json qt setup busy_worker busy_log none (run_new-IsSound json qt setup first_command)
      busy_worker_running

on_script_command_new_example :
    on_script_command json qt setup busy_worker (command (text "r2")) ≡ (
      if (setup.allow_scripts && setup.has_runner) && not busy_worker.running
      then (
        record busy_worker {
          executed = text "r2" ∷ busy_worker.executed;
          running = true;
          script_thread = some (thread_for json qt setup (command (text "r2")));
        },
        Output.thread_started (thread_for json qt setup (command (text "r2"))) ∷ [],
      )
      else (
        busy_worker,
        Output.publish_script_result
              (refusal json qt setup (command (text "r2")) (obstacle json qt setup))
            ∷ [],
      ))
unfolding run step on_script_command str_eq text member
on_script_command_new_example =
    on_script_command_new json qt setup busy_worker (command (text "r2")) refl refl

abbrev paused_worker : Worker
paused_worker = record new_worker { paused = true }

abbrev paused_course : Course
paused_course =
    Happening.announce_due
    ∷ Happening.sample_due idle_sample
    ∷ Happening.pause_set true
    ∷ Happening.bundle_arrives (message_of_bundle json qt setup small_bundle) facts
    ∷ Happening.evaluation_due facts
    ∷ []

run_paused_example : All (IsQuiet json qt setup) (run json qt setup paused_worker paused_course).1
run_paused_example =
    run_paused json qt setup paused_worker paused_course refl (tt, (tt, (tt, (tt, (tt, tt)))))

small_bundle-IsWireBundle : IsWireBundle small_bundle
small_bundle-IsWireBundle = record {
  revision = omega arith;
  baseline = ((tt, tt), tt);
  templates = tt;
  assignments = tt;
}

-- Writing does not look at the document that is to be dumped.
same_json :
    (d : Document) (bundle : TemplateBundle)
    → bundle_to_json (json_with d) bundle ≡ bundle_to_json (json_with skus) bundle
unfolding bundle_to_json template_to_json rule_to_json names_to_json version_to_json
    constraint_to_json
same_json d bundle = refl

on_bundle-serialise_bundle_example :
    let v : Worker = record new_worker { heard_server = true; bundle = small_bundle } in
    on_bundle json qt setup new_worker (message_of_bundle json qt setup small_bundle) facts
    ≡ (v, Output.template_applied 4 ∷ (evaluate_compliance json qt setup v facts).1)
on_bundle-serialise_bundle_example =
    on_bundle-serialise_bundle json qt setup new_worker small_bundle facts small_bundle-IsWireBundle
      (same_json (bundle_to_json sample_json small_bundle) small_bundle) refl

abbrev holding : Worker
holding = record new_worker { bundle = small_bundle }

report_rows_example :
    let report = evaluate json small_bundle (facts small_bundle) no_capabilities in
    let details = map (describe qt) (rules_for small_bundle (text "pc-1")) in
    ((evaluate_compliance json qt setup holding facts).1
      ≡ unless_paused json qt setup holding (Output.publish_report (record { report = report }))
        ++ (Output.report_ready report details ∷ []))
    × (map (λ (r : CheckResult). r.rule_id) report.results ≡ map (λ (d : Detail qt). d.id) details)
report_rows_example = report_rows json qt setup holding facts refl

-- Nine announces, and a bundle behind the eighth.
abbrev announces : Course → Course
announces hs =
    Happening.announce_due ∷ Happening.announce_due ∷ Happening.announce_due
    ∷ Happening.announce_due ∷ hs

abbrev unanswered : Course
unanswered = announces (
    announces (
      Happening.bundle_arrives (message_of_bundle json qt setup small_bundle) facts
      ∷ Happening.announce_due
      ∷ []))

run_warnings_example :
    warnings json qt setup (run json qt setup new_worker unanswered).1
    ≡ (if leb 7 (announces_before json qt setup unanswered) then 1 else 0)
run_warnings_example = run_warnings json qt setup unanswered
