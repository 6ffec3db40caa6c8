-- ===== src/Controller.antt =====
-- apps/server/server_controller.cpp and server_controller.hpp: the state of the server. A slot gives
-- the controller behind it and what it has sent, written, told the fleet model or emitted, in that
-- order. The time, the answers of the file system and the ids of new runs are arguments. The calls of
-- the fleet model and the timers are outputs. Log lines are left out.
pub mod Publish
pub mod Runs
mod Examples
use lab_monitor.Base.{
  ℕ, ◌+◌, ◌%◌, ◌^◌, Bool, true, false, not, ◌&&◌, ◌||◌, Option, none, some, List, [], ◌∷◌, ◌++◌,
  map, ◌==◌, if◌then◌else◌, Text, text, str_eq, member,
}
use lab_monitor.Base.Sorting.{sort}
use lab_monitor.Base.OrderedMap.{Map}
use lab_monitor.Base.Json.{Expected, JsonLibrary}
use lab_monitor.Base.Expected.{◌>>=◌}
use lab_monitor.Types.{Capabilities, CheckStatus, status_eq}
use lab_monitor.Facts.{ResourceSample}
use lab_monitor.Rule.{Rule}
use lab_monitor.Bundle.{TemplateBundle, rules_for}
use lab_monitor.BundleJson.{content_hash, serialise_bundle}
use lab_monitor.Compliance.{ComplianceReport, CheckResult}
use lab_monitor.Registry.{
  ClientRegistry, record_announce, record_report, record_sample, mark_lost, snapshot,
}
use lab_monitor.Fleet.{
  HostState, ExpectedHost, FleetEntry, FleetCounts, FleetView, ReconcileOptions, urgency, reconcile,
}
use lab_monitor.Dispatch.{ScriptRun}
use lab_monitor.RuleDetail.{Qt, describe}
use lab_monitor.Bus.{
  ClientAnnounce, ResourceSampleMessage, TemplateBundleMessage, ComplianceReportMessage,
  ScriptCommand,
}

pub record ComplianceTag (QString : Type 0) : Type 0 where
  pub label : QString
  pub status : CheckStatus

pub record Controller (QString Double : Type 0) : Type 0 where
  pub registry : ClientRegistry
  pub fleet : FleetView
  pub expected : List ExpectedHost
  pub draft : TemplateBundle
  pub published : TemplateBundle
  pub options : ReconcileOptions
  pub script_runs : List ScriptRun
  pub saved_runs : List Text
  pub resource_cache : List (QString × ResourceSample Double)
  pub report_cache : List (QString × ComplianceReport)

pub data Output (QString Double : Type 0) : Type 0 where
  publish_bundle : TemplateBundleMessage → Output QString Double
  publish_script_command : ScriptCommand → Output QString Double
  -- The two files that are written whole, with what is written.
  expected_hosts_saved : List ExpectedHost → Output QString Double
  bundle_saved : Text → Output QString Double
  run_saved : ScriptRun → Output QString Double
  -- The calls of the fleet model.
  model_applied : FleetView → Output QString Double
  model_sampled : ResourceSampleMessage Double → Output QString Double
  model_reported : ComplianceReport → List (ComplianceTag QString) → Output QString Double
  -- A single-shot timer for the deadline of a run: its id and the seconds before the margin.
  deadline_set : Text → ℕ → Output QString Double
  -- The signals.
  counts_changed : FleetCounts → Output QString Double
  fleet_changed : Output QString Double
  expected_hosts_changed : Output QString Double
  resource_sample_received : QString → ResourceSample Double → Output QString Double
  compliance_report_received : QString → ComplianceReport → Output QString Double
  draft_publishable_changed : Bool → Output QString Double
  published_changed : Output QString Double
  script_run_changed : QString → Output QString Double
  script_runs_changed : Output QString Double
  config_error : QString → Output QString Double
  -- An exception that leaves the slot: what stands behind it is not done.
  exception : Text → Output QString Double

-- What the file system answers to each kind of call at this time: none where it succeeds, or else the
-- text of the message that the source makes of the failure.
pub record Disk (QString : Type 0) : Type 0 where
  pub save_expected_hosts : List ExpectedHost → Option QString
  pub save_bundle : Text → Option QString
  pub save_run : ScriptRun → Option QString
  pub delete_run : Text → Option QString

-- `entry.host_id == other.host_id && entry.state == other.state` and the capabilities.
unfoldable pub same_entry : FleetEntry → FleetEntry → Bool
same_entry a b =
    str_eq a.host_id b.host_id && (urgency a.state == urgency b.state) && (a.caps.raw == b.caps.raw)

-- std::ranges::equal.
unfoldable pub same_entries : List FleetEntry → List FleetEntry → Bool
same_entries [] [] = true
same_entries [] (_ ∷ _) = false
same_entries (_ ∷ _) [] = false
same_entries (a ∷ as_before) (b ∷ bs) = same_entry a b && same_entries as_before bs

unfoldable pub is_listed : List ExpectedHost → Text → Bool
is_listed [] host_id = false
is_listed (host ∷ hosts) host_id = str_eq host.host_id host_id || is_listed hosts host_id

-- The loop over the assignments.
unfoldable pub add_assigned : List ExpectedHost → Map (List Text) → List ExpectedHost
unfolding is_listed
add_assigned hosts [] = hosts
add_assigned hosts ((host_id, names) ∷ assignments) =
    add_assigned
      (if is_listed hosts host_id
        then hosts
        else hosts ++ (record { host_id = host_id; address = [] } ∷ []))
      assignments

-- `it->address = address` at the host that std::ranges::find gives, or a new host at the end.
unfoldable pub with_address : List ExpectedHost → Text → Text → List ExpectedHost
with_address [] host_id address = record { host_id = host_id; address = address } ∷ []
with_address (host ∷ hosts) host_id address =
    let rest = with_address hosts host_id address in
    if str_eq host.host_id host_id then (record host { address = address }) ∷ hosts else host ∷ rest

unfoldable pub without_host : List ExpectedHost → Text → List ExpectedHost
without_host [] host_id = []
without_host (host ∷ hosts) host_id =
    let rest = without_host hosts host_id in
    if str_eq host.host_id host_id then rest else host ∷ rest

module _ (J : JsonLibrary) (Q : Qt) where
  open J use {Double}
  open Q use {QString}

  abbrev pub Server : Type 0
  Server = Controller QString Double

  abbrev pub Event : Type 0
  Event = Output QString Double

  abbrev pub Result : Type 0
  Result = Server × List Event

  -- A slot that is called from another.
  infixl 12 ◌then_call◌
  abbrev pub ◌then_call◌ : Result → (Server → Result) → Result
  r then_call f = let next = f r.0 in (next.0, r.1 ++ next.1)

  -- A write of a file: the event, or the error that is emitted in its place.
  abbrev pub written : Option QString → Event → List Event
  written none e = e ∷ []
  written (some error) e = Output.config_error error ∷ []

  -- Whether the draft differs from what is published, or the text of the exception.
  unfoldable pub can_publish : Server → Expected Bool Text
  can_publish c = do
    draft ← content_hash J c.draft
    published ← content_hash J c.published
    Expected.value (not (str_eq draft published))

  unfoldable pub effective_expected_hosts : Server → List ExpectedHost
  unfolding add_assigned
  effective_expected_hosts c = add_assigned c.expected c.published.assignments

  abbrev pub message_of : TemplateBundle → TemplateBundleMessage
  message_of bundle = record {
    revision = bundle.revision;
    hash = bundle.hash;
    json = serialise_bundle J bundle;
  }

  unfoldable pub announce_published : Server → Result
  announce_published c =
      if c.published.revision == 0
      then (c, [])
      else (c, Output.publish_bundle (message_of c.published) ∷ [])

  abbrev pub changed_event : Bool → List Event
  changed_event changed = if changed then Output.fleet_changed ∷ [] else []

  unfoldable pub reconcile_now : Server → ℕ → Result
  unfolding effective_expected_hosts same_entry same_entries
  reconcile_now c now =
      let options = record c.options { current_revision = c.published.revision } in
      let view = reconcile (effective_expected_hosts c) (snapshot c.registry) now options in
      let changed = not (same_entries c.fleet.entries view.entries) in
      (
        record c { options = options; fleet = view },
        Output.model_applied view ∷ Output.counts_changed view.counts ∷ changed_event changed,
      )

  abbrev pub publishable_out : Expected Bool Text → Event
  publishable_out (Expected.value b) = Output.draft_publishable_changed b
  publishable_out (Expected.unexpected error) = Output.exception error

  unfoldable pub mark_draft_dirty : Server → Result
  mark_draft_dirty c = (c, publishable_out (can_publish c) ∷ [])

  -- What the three slots that change the expected hosts have in common.
  abbrev pub with_hosts : Server → List ExpectedHost → Disk QString → ℕ → Result
  with_hosts c hosts disk now =
      (
        record c { expected = hosts },
        written (disk.save_expected_hosts hosts) (Output.expected_hosts_saved hosts)
            ++ (Output.expected_hosts_changed ∷ []),
      )
      then_call (λ d. reconcile_now d now)

  unfoldable pub set_expected_hosts : Server → List ExpectedHost → Disk QString → ℕ → Result
  unfolding reconcile_now
  set_expected_hosts c hosts disk now = with_hosts c hosts disk now

  unfoldable pub add_expected_host : Server → Text → Text → Disk QString → ℕ → Result
  unfolding reconcile_now with_address
  add_expected_host c host_id address disk now =
      with_hosts c (with_address c.expected host_id address) disk now

  unfoldable pub remove_expected_host : Server → Text → Disk QString → ℕ → Result
  unfolding reconcile_now without_host
  remove_expected_host c host_id disk now =
      if not (is_listed c.expected host_id)
      then (c, [])
      else with_hosts c (without_host c.expected host_id) disk now

  -- The draft with its new revision, a std::uint64_t, and then with its hash.
  abbrev pub numbered : Server → TemplateBundle
  numbered c = record c.draft { revision = (c.published.revision + 1) % 2 ^ 64 }

  abbrev pub stamped : Server → Text → TemplateBundle
  stamped c hash = record (numbered c) { hash = hash }

  abbrev pub published_as : Server → TemplateBundle → Server
  published_as c bundle = record c {
    draft = bundle;
    published = bundle;
    options = record c.options { current_revision = bundle.revision };
  }

  -- The published bundle is saved and sent, and the events say so.
  abbrev pub sent_out : Server → Disk QString → Event → List Event
  sent_out d disk e =
      written (disk.save_bundle (serialise_bundle J d.published))
        (Output.bundle_saved (serialise_bundle J d.published))
      ++ (Output.publish_bundle (message_of d.published) ∷ Output.published_changed ∷ e ∷ [])

  -- The rest of the slot once the draft is published; an exception ends it.
  abbrev pub publish_sent : Server → Disk QString → ℕ → Expected Bool Text → Result
  publish_sent d disk now (Expected.unexpected error) =
      (d, sent_out d disk (Output.exception error))
  publish_sent d disk now (Expected.value b) =
      (d, sent_out d disk (Output.draft_publishable_changed b)) then_call (λ e. reconcile_now e now)

  -- The rest of the slot once the revision is set.
  abbrev pub publish_hashed : Server → Disk QString → ℕ → Expected Text Text → Result
  publish_hashed c disk now (Expected.unexpected error) =
      (record c { draft = numbered c }, Output.exception error ∷ [])
  publish_hashed c disk now (Expected.value hash) =
      let d = published_as c (stamped c hash) in publish_sent d disk now (can_publish d)

  abbrev pub publish_if : Server → Disk QString → ℕ → Expected Bool Text → Result
  publish_if c disk now (Expected.unexpected error) = (c, Output.exception error ∷ [])
  publish_if c disk now (Expected.value false) = (c, [])
  publish_if c disk now (Expected.value true) =
      publish_hashed c disk now (content_hash J (numbered c))

  unfoldable pub publish : Server → Disk QString → ℕ → Result
  unfolding can_publish reconcile_now
  publish c disk now = publish_if c disk now (can_publish c)

  unfoldable pub on_announce : Server → ClientAnnounce → ℕ → Result
  unfolding reconcile_now
  on_announce c announce now =
      reconcile_now
        (record c {
          registry =
              record_announce c.registry announce.host_id (record { raw = announce.capabilities })
                announce.paused now;
        })
        now

  -- The labels of the rules by their ids: a later insertion replaces an earlier one.
  unfoldable pub labels_of : List Rule → List (QString × QString) → List (QString × QString)
  labels_of [] labels = labels
  labels_of (rule ∷ rules) labels =
      labels_of rules ((Q.to_qstring rule.id, (describe Q rule).label) ∷ labels)

  unfoldable pub label_for : List (QString × QString) → QString → QString
  label_for [] id = id
  label_for ((key, label) ∷ labels) id =
      let rest = label_for labels id in if Q.same key id then label else rest

  abbrev is_failing : CheckStatus → Bool
  is_failing status = status_eq status CheckStatus.fail || status_eq status CheckStatus.error

  unfoldable pub tags_of :
      List (QString × QString) → List CheckResult → List (ComplianceTag QString)
  unfolding label_for
  tags_of labels [] = []
  tags_of labels (result ∷ results) =
      let rest = tags_of labels results in
      if is_failing result.status
      then record { label = label_for labels (Q.to_qstring result.rule_id); status = result.status }
        ∷ rest
      else rest

  -- The order of std::stable_sort: failures before errors.
  unfoldable pub tag_before : ComplianceTag QString → ComplianceTag QString → Bool
  tag_before lhs rhs =
      status_eq lhs.status CheckStatus.fail && not (status_eq rhs.status CheckStatus.fail)

  unfoldable pub failing_tags : Server → ComplianceReport → List (ComplianceTag QString)
  unfolding labels_of tags_of tag_before
  failing_tags c report =
      sort tag_before (tags_of (labels_of (rules_for c.published report.host_id) []) report.results)

  -- QMap::insert.
  unfoldable pub put : {A : Type 0} → QString → A → List (QString × A) → List (QString × A)
  put key value [] = (key, value) ∷ []
  put key value ((k, v) ∷ entries) =
      let rest = put key value entries in
      if Q.same k key then (key, value) ∷ entries else (k, v) ∷ rest

  unfoldable pub on_report : Server → ComplianceReportMessage → ℕ → Result
  unfolding reconcile_now failing_tags put
  on_report c message now =
      let report = message.report in
      let host_id = Q.to_qstring report.host_id in
      reconcile_now
        (record c {
          registry = record_report c.registry report.host_id report.applied_revision now;
        })
        now
      then_call (λ d. (
        record d { report_cache = put host_id report d.report_cache },
        Output.model_reported report (failing_tags d report)
            ∷ Output.compliance_report_received host_id report
            ∷ [],
      ))

  unfoldable pub on_client_lost : Server → Text → ℕ → Result
  unfolding reconcile_now
  on_client_lost c host_id now =
      reconcile_now
        (if is_listed c.expected host_id
          then c
          else record c { registry = mark_lost c.registry host_id })
        now

  unfoldable pub apply_coalesced : Server → List (ResourceSampleMessage Double) → ℕ → Result
  unfolding put
  apply_coalesced c [] now = (c, [])
  apply_coalesced c (sample ∷ batch) now =
      let host_id = Q.to_qstring sample.host_id in
      (
        record c {
          registry = record_sample c.registry sample.host_id now;
          resource_cache = put host_id sample.sample c.resource_cache;
        },
        Output.model_sampled sample ∷ Output.resource_sample_received host_id sample.sample ∷ [],
      )
      then_call (λ d. apply_coalesced d batch now)
