-- ===== src/Controller/Examples.antt =====
-- Events at a server, and the theorems on them.
use lab_monitor.Base.{
  ℕ, suc, ◌+◌, ◌%◌, ◌^◌, ◌≡◌, ◌≢◌, refl, ap, ◌∙◌, arith, Bool, true, false, Option, none, some,
  List, [], ◌∷◌, ◌++◌, map, All, ◌==◌, if◌then◌else◌, pos, Text, text, str_eq, member, Distinct,
  inl,
}
use lab_monitor.Base.Json.{Expected, JsonLibrary}
use lab_monitor.Base.SampleJson.{Leaf, Members, Document, json_with, skus}
use lab_monitor.Types.{Capabilities, no_capabilities}
use lab_monitor.Facts.{HostFacts}
use lab_monitor.Bundle.{TemplateBundle}
use lab_monitor.BundleJson.{
  content, content_hash, fnv, hex_digits, bundle_to_json, template_to_json, rule_to_json,
  names_to_json, version_to_json, constraint_to_json,
}
use lab_monitor.BundleJson.RoundTrip.{IsWireBundle}
use lab_monitor.Fleet.{HostState, FleetEntry, FleetView}
use lab_monitor.Script.{ScriptStatus}
use lab_monitor.Dispatch.{TargetState, RunTarget, ScriptRun, ScriptResultMessage, find_target}
use lab_monitor.RuleDetail.{Qt}
use lab_monitor.Worker.{Setup, new_worker, no_bundle, on_bundle}
use lab_monitor.Controller.{Controller, Disk, Server, can_publish, stamped, message_of, publish}
use lab_monitor.Controller.Publish.{sent_bundles, publish_lem, on_bundle-publish}
use lab_monitor.Controller.Runs.{find_run, start_script_run, on_script_result, on_run_deadline}
use lab_monitor.Controller.Runs.Targets.{hosts_of}
use lab_monitor.Controller.Runs.Start.{commands_in}
use lab_monitor.Controller.Runs.Decisions.{IsDecidedBy, commands_for, start_script_run_lem}
use lab_monitor.Controller.Runs.Book.{IsBook}
use lab_monitor.Controller.Runs.History.{RunEvent, run_events, run_events-IsBook}
use lab_monitor.Controller.Runs.Answers.{
  AreAged, IsSettled, on_script_result-taken, on_run_deadline-IsSettled,
}

abbrev qt : Qt
qt = record {
  QString = Text;
  to_qstring = λ s. s;
  literal = λ s. s;
  arg = λ s t. s ++ t;
  arg_both = λ s t u. s ++ (t ++ u);
  arg_int = λ s z. s;
  arg_uint = λ s n. s;
  plus = λ s t. s ++ t;
  is_empty = λ s. str_eq s [];
  trimmed = λ s. s;
  has_text = λ s t. false;
  same = str_eq;
}

abbrev draft_bundle : TemplateBundle
draft_bundle = record no_bundle { baseline = record { name = text "Baseline"; rules = [] } }

-- The name of the baseline stands for the dump of a bundle, so that bundles with other names have
-- other hashes.
abbrev named : Document → Text
named
      (Document.fields (
        Members.members key
          (Document.fields (Members.members inner (Document.leaf (Leaf.word name)) rest))
          more)) =
    name
named
      (Document.fields (
        Members.members key value (
          Members.members other
            (Document.fields (Members.members inner (Document.leaf (Leaf.word name)) rest))
            more))) =
    name
named _ = []

abbrev json_for : Document → JsonLibrary
json_for dumped = record (json_with dumped) { dump = named }

abbrev entry : Text → HostState → Capabilities → FleetEntry
entry host_id state caps = record {
  host_id = host_id;
  address = [];
  state = state;
  last_seen = none;
  stale = false;
  caps = caps;
}

-- The bit of Capability::Scripts.
abbrev scripts : Capabilities
scripts = record { raw = 64 }

abbrev fleet : FleetView
fleet = record {
  entries =
      entry (text "pc-1") HostState.online scripts
      ∷ entry (text "pc-2") HostState.offline scripts
      ∷ entry (text "pc-3") HostState.online no_capabilities
      ∷ [];
  counts = record { online = 2; offline = 1; missing = 0; unexpected = 0; paused = 0; stale = 0 };
}

abbrev server_of : Controller Text ℕ
server_of = record {
  registry = [];
  fleet = fleet;
  expected = [];
  draft = draft_bundle;
  published = no_bundle;
  options = record { liveliness_lease = 30; current_revision = 0 };
  script_runs = [];
  saved_runs = [];
  resource_cache = [];
  report_cache = [];
}

-- The hash that the draft has.
abbrev sample_hash : Text
sample_hash = hex_digits 16 (fnv 14695981039346656037 (text "Baseline")) []

abbrev dumped : Document
dumped = bundle_to_json (json_for skus) (stamped (json_for skus) qt server_of sample_hash)

abbrev json : JsonLibrary
json = json_for dumped

abbrev server : Server json qt
server = server_of

abbrev good_disk : Disk Text
good_disk = record {
  save_expected_hosts = λ _. none;
  save_bundle = λ _. none;
  save_run = λ _. none;
  delete_run = λ _. none;
}

abbrev draw : ℕ → Text
draw n = n ∷ []

draw_injective : (m n : ℕ) → draw m ≡ draw n → m ≡ n
draw_injective m n h = cc

abbrev hosts : List Text
hosts = text "pc-1" ∷ text "pc-2" ∷ text "pc-1" ∷ text "pc-3" ∷ text "pc-4" ∷ []

start_script_run_lem_example :
    let r =
      start_script_run json qt server (text "cleanup") (text "exit 0") hosts 60 good_disk draw 5 in
    (run : ScriptRun) × (r.0.script_runs ≡ run ∷ [])
    × ((run.script_name ≡ text "cleanup")
        × (run.script_body ≡ text "exit 0")
        × (run.timeout_seconds ≡ 60)
        × (run.issued_at ≡ pos 5))
    × Distinct (hosts_of run.targets)
    × ((h : Text) → member h (hosts_of run.targets) ≡ member h hosts)
    × All (IsDecidedBy fleet.entries) run.targets
    × (commands_in json qt r.1 ≡ commands_for run run.targets)
start_script_run_lem_example =
    start_script_run_lem json qt server (text "cleanup") (text "exit 0") hosts 60 good_disk draw 5

abbrev answer : ScriptResultMessage
answer = record {
  host_id = text "pc-1";
  run_id = 0 ∷ [];
  status = ScriptStatus.completed;
  refusal_reason = [];
  exit_code = pos 0;
  has_reported = false;
  reported_ok = false;
  reported_message = [];
  stdout_text = [];
  stderr_text = [];
  duration_ms = 12;
}

abbrev events : List (Disk Text × RunEvent json qt)
events =
    (good_disk, RunEvent.starts (text "cleanup") (text "exit 0") hosts 60 draw 5)
    ∷ (good_disk, RunEvent.result_arrives answer)
    ∷ (good_disk, RunEvent.starts (text "report") (text "exit 1") hosts 60 draw 6)
    ∷ (good_disk, RunEvent.deadline_passes (1 ∷ []))
    ∷ (good_disk, RunEvent.deleted_before (pos 6))
    ∷ []

run_events-IsBook_example : IsBook (run_events json qt server events).script_runs
run_events-IsBook_example =
    run_events-IsBook json qt server events (record { decided = tt; distinct = tt })
      (draw_injective, (tt, (draw_injective, (tt, (tt, tt)))))

abbrev waiting_target : RunTarget
waiting_target = record {
  host_id = text "pc-1";
  state = TargetState.dispatched;
  detail = [];
  result = none;
}

abbrev waiting_run : ScriptRun
waiting_run = record {
  run_id = 0 ∷ [];
  script_name = text "cleanup";
  script_body = text "exit 0";
  issued_at = pos 5;
  timeout_seconds = 60;
  targets = waiting_target ∷ [];
}

abbrev waiting_server : Server json qt
waiting_server = record server { script_runs = waiting_run ∷ [] }

on_script_result-taken_example :
    let runs = (on_script_result json qt waiting_server answer good_disk).0.script_runs in
    (after : ScriptRun) × (find_run runs (0 ∷ []) ≡ some after)
    × (find_run runs (1 ∷ [])
        ≡ (if str_eq (0 ∷ []) (1 ∷ []) then some after else find_run (waiting_run ∷ []) (1 ∷ [])))
    × (find_target after.targets (text "pc-1") ≡ (
        if str_eq (text "pc-1") (text "pc-1")
        then some (record waiting_target { state = TargetState.completed; result = some answer })
        else find_target waiting_run.targets (text "pc-1")))
unfolding find_run find_target str_eq text
on_script_result-taken_example =
    on_script_result-taken json qt waiting_server waiting_run waiting_target answer good_disk
      (1 ∷ []) (text "pc-1") refl refl (inl refl)

-- The target has been refused already.
abbrev refused_one : RunTarget
refused_one = record waiting_target { state = TargetState.refused; detail = text "busy" }

abbrev refused_run : ScriptRun
refused_run = record waiting_run { targets = refused_one ∷ [] }

abbrev late_server : Server json qt
late_server = record server { script_runs = refused_run ∷ [] }

on_run_deadline-IsSettled_example :
    (after : ScriptRun) × (find_run
        (on_run_deadline json qt waiting_server (0 ∷ []) good_disk).0.script_runs
        (0 ∷ [])
      ≡ some after)
    × AreAged json qt waiting_run.targets after.targets
    × All (IsSettled json qt) after.targets
unfolding find_run str_eq
on_run_deadline-IsSettled_example =
    on_run_deadline-IsSettled json qt waiting_server waiting_run good_disk (0 ∷ []) refl
      ((λ h. cc), tt)

server_publishable : can_publish json qt server ≡ Expected.value true
unfolding can_publish content_hash bundle_to_json template_to_json rule_to_json names_to_json str_eq
    text lab_monitor.Base.text_ltb lab_monitor.Base.OrderedMap.of_list
    lab_monitor.Base.OrderedMap.insert_or_assign
server_publishable = refl

publish_lem_example :
    let r = publish json qt server good_disk 9 in
    (can_publish json qt r.0 ≡ Expected.value false)
    × (r.0.draft ≡ r.0.published)
    × (content r.0.published ≡ content draft_bundle)
    × (r.0.published.revision ≡ (0 + 1) % 2 ^ 64)
    × (content_hash json draft_bundle ≡ Expected.value r.0.published.hash)
    × (sent_bundles json qt r.1 ≡ message_of json qt r.0.published ∷ [])
publish_lem_example = publish_lem json qt server good_disk 9 server_publishable

-- Writing does not look at the document that is to be dumped, nor does the hash.
same_json :
    (d : Document) (bundle : TemplateBundle)
    → bundle_to_json (json_for d) bundle ≡ bundle_to_json (json_for skus) bundle
unfolding bundle_to_json template_to_json rule_to_json names_to_json version_to_json
    constraint_to_json
same_json d bundle = refl

same_stamped :
    (d : Document)
    → stamped (json_for d) qt server_of sample_hash
      ≡ stamped (json_for skus) qt server_of sample_hash
unfolding content_hash bundle_to_json template_to_json rule_to_json names_to_json version_to_json
    constraint_to_json
same_stamped d = refl

draft_hash : content_hash json draft_bundle ≡ Expected.value sample_hash
unfolding content_hash fnv hex_digits bundle_to_json template_to_json rule_to_json names_to_json
    text lab_monitor.Base.OrderedMap.of_list lab_monitor.Base.OrderedMap.insert_or_assign str_eq
    lab_monitor.Base.text_ltb
draft_hash = refl

stamped-IsWireBundle : IsWireBundle (stamped json qt server sample_hash)
stamped-IsWireBundle = record {
  revision = omega arith;
  baseline = tt;
  templates = tt;
  assignments = tt;
}

abbrev setup : Setup
setup = record {
  host_id = text "pc-1";
  capabilities = no_capabilities;
  has_runner = false;
  allow_scripts = false;
}

abbrev facts : TemplateBundle → HostFacts ℕ
facts _ = record {
  host_id = text "pc-1";
  resources = record {
    cpu_percent = 3;
    mem_total_bytes = 8;
    mem_used_bytes = 2;
    disks = [];
    adapters = [];
  };
  processes = [];
  services = [];
  registry = [];
  dds = [];
}

on_bundle-publish_example :
    let r = publish json qt server good_disk 9 in
    (sent_bundles json qt r.1 ≡ message_of json qt r.0.published ∷ [])
    × ((on_bundle json qt setup new_worker (message_of json qt r.0.published) facts).0.bundle
        ≡ r.0.published)
on_bundle-publish_example =
    on_bundle-publish json qt setup server good_disk 9 new_worker facts sample_hash
      server_publishable draft_hash stamped-IsWireBundle
      (same_json dumped (stamped json qt server sample_hash)
        ∙ ap (bundle_to_json (json_for skus)) (same_stamped dumped))
      refl
