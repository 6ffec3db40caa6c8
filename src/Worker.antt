-- ===== src/Worker.antt =====
-- apps/client/monitor_worker.cpp and monitor_worker.hpp: the worker of a client. Every slot gives the
-- worker behind it and what it has sent, emitted or started, in that order. What the probes and the
-- runner return is an argument. The thread that runs a script, and the call that it posts back to the
-- worker, are part of the state. Log lines are left out.
pub mod Runs
pub mod Steps
pub mod Replies
pub mod Bundles
pub mod Settled
pub mod Unheard
mod Examples
use lab_monitor.Base.{
  ℕ, suc, Bool, true, false, not, ◌||◌, Option, none, some, List, [], ◌∷◌, ◌++◌, map, ◌==◌, leb,
  if◌then◌else◌, pos, Text, text, str_eq, member,
}
use lab_monitor.Base.Json.{Expected, JsonLibrary}
use lab_monitor.Types.{Capabilities}
use lab_monitor.Facts.{HostFacts, ResourceSample}
use lab_monitor.Bundle.{TemplateBundle, rules_for}
use lab_monitor.BundleJson.{parse_bundle}
use lab_monitor.Compliance.{ComplianceReport}
use lab_monitor.Compliance.Evaluate.{evaluate}
use lab_monitor.Script.{ScriptStatus, ReportedResult, ScriptOutcome, status}
use lab_monitor.Dispatch.{ScriptResultMessage}
use lab_monitor.RuleDetail.{Qt, Detail, describe}
use lab_monitor.Bus.{
  ClientAnnounce, ResourceSampleMessage, TemplateBundleMessage, ComplianceReportMessage,
  ScriptCommand,
}

-- What the constructor is given, and what the probes always answer.
pub record Setup : Type 0 where
  pub host_id : Text
  pub capabilities : Capabilities
  pub has_runner : Bool
  pub allow_scripts : Bool

-- A script thread that can be joined: it still runs, or it has posted its outcome.
pub record ScriptThread : Type 0 where
  pub run_id : Text
  pub script_name : Text
  pub script_body : Text
  pub timeout_seconds : ℕ
  pub is_running : Bool

-- The call that the thread posts.
pub record Posted : Type 0 where
  pub run_id : Text
  pub script_name : Text
  pub outcome : ScriptOutcome

pub record Worker : Type 0 where
  pub bundle : TemplateBundle
  pub heard_server : Bool
  pub announces_unheard : ℕ
  pub said_unheard : Bool
  pub paused : Bool
  pub executed : List Text
  pub running : Bool
  pub script_thread : Option ScriptThread
  pub posted : List Posted

abbrev pub no_bundle : TemplateBundle
no_bundle = record {
  revision = 0;
  hash = [];
  baseline = record { name = []; rules = [] };
  templates = [];
  assignments = [];
}

abbrev pub new_worker : Worker
new_worker = record {
  bundle = no_bundle;
  heard_server = false;
  announces_unheard = 0;
  said_unheard = false;
  paused = false;
  executed = [];
  running = false;
  script_thread = none;
  posted = [];
}

pub data Output (Double Detail : Type 0) : Type 0 where
  publish_announce : ClientAnnounce → Output Double Detail
  publish_resources : ResourceSampleMessage Double → Output Double Detail
  publish_report : ComplianceReportMessage → Output Double Detail
  publish_script_result : ScriptResultMessage → Output Double Detail
  server_unheard : Output Double Detail
  resources_sampled : ResourceSample Double → Output Double Detail
  report_ready : ComplianceReport → List Detail → Output Double Detail
  template_applied : ℕ → Output Double Detail
  thread_started : ScriptThread → Output Double Detail

-- std::set::insert and erase; a new element stands first.
abbrev pub insert_new : Text → List Text → List Text
insert_new x xs = if member x xs then xs else x ∷ xs

unfoldable pub erase : Text → List Text → List Text
erase x [] = []
erase x (y ∷ ys) = let rest = erase x ys in if str_eq x y then ys else y ∷ rest

abbrev pub no_outcome : ScriptOutcome
no_outcome = record {
  exit_code = pos 0;
  reported = none;
  stdout_text = [];
  stderr_text = [];
  duration_ms = 0;
  timed_out = false;
  started = true;
}

-- The outcome that stands for an exception of the runner.
abbrev pub thrown_outcome : ScriptOutcome
thrown_outcome = record no_outcome {
  started = false;
  stderr_text = text "the script runner threw while starting the script";
}

abbrev pub caught : Option ScriptOutcome → ScriptOutcome
caught none = thrown_outcome
caught (some outcome) = outcome

abbrev has_value : Option ReportedResult → Bool
has_value none = false
has_value (some _) = true

abbrev ok_of : Option ReportedResult → Bool
ok_of none = false
ok_of (some reported) = reported.ok

abbrev message_of : Option ReportedResult → Text
message_of none = []
message_of (some reported) = reported.message

abbrev pub posted_by : ScriptThread → Option ScriptOutcome → Posted
posted_by thread outcome = record {
  run_id = thread.run_id;
  script_name = thread.script_name;
  outcome = caught outcome;
}

abbrev pub ended : Worker → Option ScriptOutcome → Option ScriptThread → Worker
ended w outcome none = w
ended w outcome (some thread) =
    if thread.is_running
    then record w {
      script_thread = some (record thread { is_running = false });
      posted = w.posted ++ (posted_by thread outcome ∷ []);
    }
    else w

-- The runner has returned in the thread, or it has thrown, and the thread posts the outcome.
unfoldable pub on_runner_end : Worker → Option ScriptOutcome → Worker
on_runner_end w outcome = ended w outcome w.script_thread

abbrev pub thread_of : ScriptCommand → ScriptThread
thread_of command = record {
  run_id = command.run_id;
  script_name = command.script_name;
  script_body = command.script_body;
  timeout_seconds = command.timeout_seconds;
  is_running = true;
}

abbrev pub bool_eq : Bool → Bool → Bool
bool_eq true b = b
bool_eq false b = not b

-- The reasons of the refusals.
abbrev pub not_enrolled : Text
not_enrolled = text "this machine is not enrolled for script execution (--allow-scripts)"

abbrev pub no_runner : Text
no_runner = text "this platform has no script runner"

abbrev pub already_running : Text
already_running = text "another script is already running on this machine"

module _ (J : JsonLibrary) (Q : Qt) (setup : Setup) where
  open J use {Double}

  abbrev pub Event : Type 0
  Event = Output Double (Detail Q)

  abbrev pub Result : Type 0
  Result = Worker × List Event

  abbrev own_announce : Worker → Event
  own_announce w = Output.publish_announce (record {
    host_id = setup.host_id;
    agent_version = text "0.1.0";
    capabilities = setup.capabilities.raw;
    paused = w.paused;
  })

  -- The seventh announce that nothing has answered is said, once.
  unfoldable pub announce : Worker → Result
  announce w =
      if w.heard_server || w.said_unheard
      then (w, own_announce w ∷ [])
      else (let counted = record w { announces_unheard = suc w.announces_unheard } in
          if leb 7 counted.announces_unheard
          then (record counted { said_unheard = true }, own_announce w ∷ Output.server_unheard ∷ [])
          else (counted, own_announce w ∷ []))

  abbrev pub unless_paused : Worker → Event → List Event
  unless_paused w e = if not w.paused then e ∷ [] else []

  unfoldable pub sample_resources : Worker → ResourceSample Double → Result
  sample_resources w sample = (
    w,
    unless_paused w (Output.publish_resources (record { host_id = setup.host_id; sample = sample }))
        ++ (Output.resources_sampled sample ∷ []),
  )

  -- `collect` is what the probes find for a bundle at this time.
  unfoldable pub evaluate_compliance : Worker → (TemplateBundle → HostFacts Double) → Result
  evaluate_compliance w collect =
      let report = evaluate J w.bundle (collect w.bundle) setup.capabilities in
      (
        w,
        unless_paused w (Output.publish_report (record { report = report }))
            ++ (Output.report_ready report (map (describe Q) (rules_for w.bundle setup.host_id))
                ∷ []),
      )

  unfoldable pub set_reporting_paused : Worker → Bool → Result
  set_reporting_paused w paused =
      if bool_eq w.paused paused then (w, []) else (record w { paused = paused }, [])

  abbrev pub applied :
      Worker → (TemplateBundle → HostFacts Double) → Expected TemplateBundle Text → Result
  applied w collect (Expected.unexpected error) = (w, [])
  applied w collect (Expected.value bundle) =
      let evaluated = evaluate_compliance (record w { bundle = bundle }) collect in
      (evaluated.0, Output.template_applied bundle.revision ∷ evaluated.1)

  unfoldable pub on_bundle :
      Worker → TemplateBundleMessage → (TemplateBundle → HostFacts Double) → Result
  unfolding evaluate_compliance
  on_bundle w message collect =
      let heard = record w { heard_server = true } in
      if message.revision == w.bundle.revision
      then (heard, [])
      else applied heard collect (parse_bundle J message.json)

  abbrev no_result : ScriptResultMessage
  no_result = record {
    host_id = setup.host_id;
    run_id = [];
    status = ScriptStatus.error;
    refusal_reason = [];
    exit_code = pos 0;
    has_reported = false;
    reported_ok = false;
    reported_message = [];
    stdout_text = [];
    stderr_text = [];
    duration_ms = 0;
  }

  unfoldable pub refuse_script : ScriptCommand → Text → Event
  refuse_script command reason = Output.publish_script_result (record no_result {
    run_id = command.run_id;
    status = ScriptStatus.refused;
    refusal_reason = reason;
  })

  unfoldable pub publish_script_outcome : Text → ScriptOutcome → Event
  publish_script_outcome run_id outcome = Output.publish_script_result (record no_result {
    run_id = run_id;
    status = status outcome;
    exit_code = outcome.exit_code;
    has_reported = has_value outcome.reported;
    reported_ok = ok_of outcome.reported;
    reported_message = message_of outcome.reported;
    stdout_text = outcome.stdout_text;
    stderr_text = outcome.stderr_text;
    duration_ms = outcome.duration_ms;
  })

  -- The thread before is joined, and the new one takes its place.
  unfoldable pub on_script_command : Worker → ScriptCommand → Result
  unfolding refuse_script erase
  on_script_command w command =
      if not (str_eq command.host_id setup.host_id)
      then (w, [])
      else if not setup.allow_scripts
      then (w, refuse_script command not_enrolled ∷ [])
      else if not setup.has_runner
      then (w, refuse_script command no_runner ∷ [])
      else if member command.run_id w.executed
      then (w, [])
      else (let inserted = insert_new command.run_id w.executed in
          if w.running
          then (
            record w { executed = erase command.run_id inserted; running = true },
            refuse_script command already_running ∷ [],
          )
          else (
            record w {
              executed = inserted;
              running = true;
              script_thread = some (thread_of command);
            },
            Output.thread_started (thread_of command) ∷ [],
          ))

  -- The worker's event loop makes the posted call.
  abbrev pub finished : Worker → List Posted → Result
  finished w [] = (w, [])
  finished w (call ∷ calls) = (
    record w { running = false; posted = calls },
    publish_script_outcome call.run_id call.outcome ∷ [],
  )

  unfoldable pub on_script_finished : Worker → Result
  unfolding publish_script_outcome
  on_script_finished w = finished w w.posted

  -- What can happen to a worker: the timers, the operator, a message, the end of the runner, and the
  -- call that is posted.
  pub data Happening : Type 0 where
    announce_due : Happening
    sample_due : ResourceSample Double → Happening
    evaluation_due : (TemplateBundle → HostFacts Double) → Happening
    pause_set : Bool → Happening
    bundle_arrives : TemplateBundleMessage → (TemplateBundle → HostFacts Double) → Happening
    command_arrives : ScriptCommand → Happening
    runner_ends : Option ScriptOutcome → Happening
    posted_call_due : Happening

  unfoldable pub step : Worker → Happening → Result
  unfolding announce sample_resources evaluate_compliance set_reporting_paused on_bundle
      on_script_command on_runner_end on_script_finished
  step w Happening.announce_due = announce w
  step w (Happening.sample_due sample) = sample_resources w sample
  step w (Happening.evaluation_due collect) = evaluate_compliance w collect
  step w (Happening.pause_set paused) = set_reporting_paused w paused
  step w (Happening.bundle_arrives message collect) = on_bundle w message collect
  step w (Happening.command_arrives command) = on_script_command w command
  step w (Happening.runner_ends outcome) = (on_runner_end w outcome, [])
  step w Happening.posted_call_due = on_script_finished w

  unfoldable pub run : Worker → List Happening → Result
  run w [] = (w, [])
  run w (h ∷ hs) = let first = step w h in let rest = run first.0 hs in (rest.0, first.1 ++ rest.1)
