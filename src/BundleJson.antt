-- ===== src/BundleJson.antt =====
-- libs/core/src/json.cpp: a template bundle as JSON and back. An exception that from_json throws is
-- the text that parse_bundle returns for it.
pub mod Names
pub mod RoundTrip
pub mod Hash
mod Examples
use Prim.Native.Nat.{bit_xor}
use lab_monitor.Base.{
  ℕ, zero, suc, ◌*◌, ◌/◌, ◌%◌, ◌^◌, ltb, Bool, true, false, Option, none, some, List, [], ◌∷◌, ◌++◌,
  map, ◌+◌, ◌-◌, if◌then◌else◌, Text, text, str_eq,
}
use lab_monitor.Base.OrderedMap
use lab_monitor.Base.Json.{Expected, View, JsonLibrary}
use lab_monitor.Base.Expected.{
  ◌>>=◌, or_throw, each, at, contains_key, get_string, get_elements, get_members, string_at,
}
use lab_monitor.Types.{Presence, ServiceState, Comparison, DdsMatch, LinkState}
use lab_monitor.Version.{
  Version, VersionConstraint, version_to_string, op_to_string, parse_version, parse_comparison_op,
}
use lab_monitor.Rule.{
  Rule, RulePayload, ProcessRule, ServiceRule, RegistryRule, RegistryMatch, AdapterCountRule,
  AdapterStateRule, DdsTopicRule, DdsValueRule, hive_to_string, parse_registry_hive,
}
use lab_monitor.Bundle.{Template, TemplateBundle}

unfoldable pub presence_to_string : Presence → Text
presence_to_string Presence.must_be_present = text "MustBePresent"
presence_to_string Presence.must_be_absent = text "MustBeAbsent"

unfoldable pub presence_from_string : Text → Expected Presence Text
presence_from_string s =
    if str_eq s (text "MustBePresent")
    then Expected.value Presence.must_be_present
    else if str_eq s (text "MustBeAbsent")
    then Expected.value Presence.must_be_absent
    else Expected.unexpected (text "unknown expectation: " ++ s)

unfoldable pub service_state_to_string : ServiceState → Text
service_state_to_string ServiceState.running = text "Running"
service_state_to_string ServiceState.stopped = text "Stopped"
service_state_to_string ServiceState.unknown = text "Unknown"

unfoldable pub service_state_from_string : Text → Expected ServiceState Text
service_state_from_string s =
    if str_eq s (text "Running")
    then Expected.value ServiceState.running
    else if str_eq s (text "Stopped")
    then Expected.value ServiceState.stopped
    else if str_eq s (text "Unknown")
    then Expected.value ServiceState.unknown
    else Expected.unexpected (text "unknown service state: " ++ s)

unfoldable pub registry_match_to_string : RegistryMatch → Text
registry_match_to_string RegistryMatch.exists = text "Exists"
registry_match_to_string RegistryMatch.equals = text "Equals"
registry_match_to_string RegistryMatch.contains = text "Contains"

unfoldable pub registry_match_from_string : Text → Expected RegistryMatch Text
registry_match_from_string s =
    if str_eq s (text "Exists")
    then Expected.value RegistryMatch.exists
    else if str_eq s (text "Equals")
    then Expected.value RegistryMatch.equals
    else if str_eq s (text "Contains")
    then Expected.value RegistryMatch.contains
    else Expected.unexpected (text "unknown registry match: " ++ s)

-- The names on the wire, which are not the texts that Types shows.
unfoldable pub comparison_to_name : Comparison → Text
comparison_to_name Comparison.at_least = text "AtLeast"
comparison_to_name Comparison.exactly = text "Exactly"
comparison_to_name Comparison.at_most = text "AtMost"

unfoldable pub comparison_from_string : Text → Expected Comparison Text
comparison_from_string s =
    if str_eq s (text "AtLeast")
    then Expected.value Comparison.at_least
    else if str_eq s (text "Exactly")
    then Expected.value Comparison.exactly
    else if str_eq s (text "AtMost")
    then Expected.value Comparison.at_most
    else Expected.unexpected (text "unknown comparison: " ++ s)

unfoldable pub dds_match_to_name : DdsMatch → Text
dds_match_to_name DdsMatch.equals = text "Equals"
dds_match_to_name DdsMatch.contains = text "Contains"
dds_match_to_name DdsMatch.at_least = text "AtLeast"
dds_match_to_name DdsMatch.at_most = text "AtMost"

unfoldable pub dds_match_from_string : Text → Expected DdsMatch Text
dds_match_from_string s =
    if str_eq s (text "Equals")
    then Expected.value DdsMatch.equals
    else if str_eq s (text "Contains")
    then Expected.value DdsMatch.contains
    else if str_eq s (text "AtLeast")
    then Expected.value DdsMatch.at_least
    else if str_eq s (text "AtMost")
    then Expected.value DdsMatch.at_most
    else Expected.unexpected (text "unknown DDS match: " ++ s)

unfoldable pub link_state_to_name : LinkState → Text
link_state_to_name LinkState.unknown = text "Unknown"
link_state_to_name LinkState.connected = text "Connected"
link_state_to_name LinkState.no_media = text "NoMedia"
link_state_to_name LinkState.disconnected = text "Disconnected"
link_state_to_name LinkState.connecting = text "Connecting"
link_state_to_name LinkState.disabled = text "Disabled"
link_state_to_name LinkState.faulted = text "Faulted"

unfoldable pub link_state_from_string : Text → Expected LinkState Text
link_state_from_string s =
    if str_eq s (text "Unknown")
    then Expected.value LinkState.unknown
    else if str_eq s (text "Connected")
    then Expected.value LinkState.connected
    else if str_eq s (text "NoMedia")
    then Expected.value LinkState.no_media
    else if str_eq s (text "Disconnected")
    then Expected.value LinkState.disconnected
    else if str_eq s (text "Connecting")
    then Expected.value LinkState.connecting
    else if str_eq s (text "Disabled")
    then Expected.value LinkState.disabled
    else if str_eq s (text "Faulted")
    then Expected.value LinkState.faulted
    else Expected.unexpected (text "unknown link state: " ++ s)

-- FNV-1a on 64 bits.
unfoldable pub fnv : ℕ → Text → ℕ
fnv hash [] = hash
fnv hash (byte ∷ bytes) = fnv (bit_xor hash byte * 1099511628211 % 2 ^ 64) bytes

abbrev pub hex_digit : ℕ → ℕ
hex_digit n = if ltb n 10 then b'0' + n else b'a' + (n - 10)

-- The loop from the last digit to the first; `out` is what stands behind.
unfoldable pub hex_digits : ℕ → ℕ → Text → Text
hex_digits zero hash out = out
hex_digits (suc i) hash out = hex_digits i (hash / 16) (hex_digit (hash % 16) ∷ out)

abbrev pub content : TemplateBundle → TemplateBundle
content bundle = record bundle { revision = 0; hash = [] }

module _ (J : JsonLibrary) where
  open J use {
    Json, of_string, of_size, of_integer, of_array, of_object, get_int, get_uint32, get_uint64,
  }

  unfoldable pub version_to_json : Version → Json
  version_to_json version = of_string (version_to_string version)

  unfoldable pub version_from_json : Json → Expected Version Text
  version_from_json j = do
    s ← get_string J j
    or_throw (text "malformed version: " ++ s) (parse_version s)

  unfoldable pub constraint_to_json : VersionConstraint → Json
  constraint_to_json c =
      of_object
        ((text "op", of_string (op_to_string c.op)) ∷ (text "value", version_to_json c.value) ∷ [])

  unfoldable pub constraint_from_json : Json → Expected VersionConstraint Text
  constraint_from_json j = do
    s ← string_at J j (text "op")
    op ← or_throw (text "unknown comparison operator") (parse_comparison_op s)
    value ← at J j (text "value") >>= version_from_json
    Expected.value (record { op = op; value = value })

  abbrev pub state_member : Option ServiceState → List (Text × Json)
  state_member none = []
  state_member (some s) = (text "expected_state", of_string (service_state_to_string s)) ∷ []

  abbrev pub payload_members : RulePayload → List (Text × Json)
  payload_members (RulePayload.process p) =
      (text "type", of_string (text "process")) ∷ (text "executable", of_string p.executable) ∷ []
  payload_members (RulePayload.service p) =
      (text "type", of_string (text "service"))
      ∷ (text "service_name", of_string p.service_name)
      ∷ state_member p.expected_state
  payload_members (RulePayload.registry p) =
      (text "type", of_string (text "registry"))
      ∷ (text "hive", of_string (hive_to_string p.hive))
      ∷ (text "key_path", of_string p.key_path)
      ∷ (text "value_name", of_string p.value_name)
      ∷ (text "match", of_string (registry_match_to_string p.match))
      ∷ (text "expected_value", of_string p.expected_value)
      ∷ []
  payload_members (RulePayload.adapter_count p) =
      (text "type", of_string (text "adapter_count"))
      ∷ (text "comparison", of_string (comparison_to_name p.comparison))
      ∷ (text "count", of_integer p.count)
      ∷ []
  payload_members (RulePayload.adapter_state p) =
      (text "type", of_string (text "adapter_state"))
      ∷ (text "adapter_name", of_string p.adapter_name)
      ∷ (text "expected", of_string (link_state_to_name p.expected))
      ∷ []
  payload_members (RulePayload.dds_topic p) =
      (text "type", of_string (text "dds_topic"))
      ∷ (text "domain_id", of_size p.domain_id)
      ∷ (text "topic_name", of_string p.topic_name)
      ∷ []
  payload_members (RulePayload.dds_value p) =
      (text "type", of_string (text "dds_value"))
      ∷ (text "domain_id", of_size p.domain_id)
      ∷ (text "topic_name", of_string p.topic_name)
      ∷ (text "path", of_string p.path)
      ∷ (text "match", of_string (dds_match_to_name p.match))
      ∷ (text "expected_value", of_string p.expected_value)
      ∷ []

  abbrev pub version_member : Option VersionConstraint → List (Text × Json)
  version_member none = []
  version_member (some c) = (text "version", constraint_to_json c) ∷ []

  unfoldable pub rule_to_json : Rule → Json
  rule_to_json rule = of_object (
      (text "id", of_string rule.id)
      ∷ (text "description", of_string rule.description)
      ∷ (text "expectation", of_string (presence_to_string rule.expectation))
      ∷ (text "payload", of_object (payload_members rule.payload))
      ∷ version_member rule.version)

  unfoldable pub process_from_json : Json → Expected RulePayload Text
  process_from_json j = do
    executable ← string_at J j (text "executable")
    Expected.value (RulePayload.process (record { executable = executable }))

  abbrev pub state_from_json : Json → Bool → Expected (Option ServiceState) Text
  state_from_json j true = do
    s ← string_at J j (text "expected_state")
    state ← service_state_from_string s
    Expected.value (some state)
  state_from_json j false = Expected.value none

  unfoldable pub service_from_json : Json → Expected RulePayload Text
  service_from_json j = do
    service_name ← string_at J j (text "service_name")
    state ← state_from_json j (contains_key J j (text "expected_state"))
    Expected.value
        (RulePayload.service (record { service_name = service_name; expected_state = state }))

  unfoldable pub registry_from_json : Json → Expected RulePayload Text
  registry_from_json j = do
    hive_text ← string_at J j (text "hive")
    hive ← or_throw (text "unknown registry hive") (parse_registry_hive hive_text)
    key_path ← string_at J j (text "key_path")
    value_name ← string_at J j (text "value_name")
    match_text ← string_at J j (text "match")
    match ← registry_match_from_string match_text
    expected_value ← string_at J j (text "expected_value")
    Expected.value (
        RulePayload.registry (record {
          hive = hive;
          key_path = key_path;
          value_name = value_name;
          match = match;
          expected_value = expected_value;
        }))

  unfoldable pub adapter_count_from_json : Json → Expected RulePayload Text
  adapter_count_from_json j = do
    s ← string_at J j (text "comparison")
    comparison ← comparison_from_string s
    count ← at J j (text "count") >>= get_int
    Expected.value (RulePayload.adapter_count (record { comparison = comparison; count = count }))

  unfoldable pub adapter_state_from_json : Json → Expected RulePayload Text
  adapter_state_from_json j = do
    adapter_name ← string_at J j (text "adapter_name")
    s ← string_at J j (text "expected")
    expected ← link_state_from_string s
    Expected.value
        (RulePayload.adapter_state (record { adapter_name = adapter_name; expected = expected }))

  unfoldable pub dds_topic_from_json : Json → Expected RulePayload Text
  dds_topic_from_json j = do
    domain_id ← at J j (text "domain_id") >>= get_uint32
    topic_name ← string_at J j (text "topic_name")
    Expected.value
        (RulePayload.dds_topic (record { domain_id = domain_id; topic_name = topic_name }))

  unfoldable pub dds_value_from_json : Json → Expected RulePayload Text
  dds_value_from_json j = do
    domain_id ← at J j (text "domain_id") >>= get_uint32
    topic_name ← string_at J j (text "topic_name")
    path ← string_at J j (text "path")
    match_text ← string_at J j (text "match")
    match ← dds_match_from_string match_text
    expected_value ← string_at J j (text "expected_value")
    Expected.value (
        RulePayload.dds_value (record {
          domain_id = domain_id;
          topic_name = topic_name;
          path = path;
          match = match;
          expected_value = expected_value;
        }))

  unfoldable pub payload_from_json : Json → Text → Expected RulePayload Text
  payload_from_json j type =
      if str_eq type (text "process")
      then process_from_json j
      else if str_eq type (text "service")
      then service_from_json j
      else if str_eq type (text "registry")
      then registry_from_json j
      else if str_eq type (text "adapter_count")
      then adapter_count_from_json j
      else if str_eq type (text "adapter_state")
      then adapter_state_from_json j
      else if str_eq type (text "dds_topic")
      then dds_topic_from_json j
      else if str_eq type (text "dds_value")
      then dds_value_from_json j
      else Expected.unexpected (text "unknown rule payload type: " ++ type)

  abbrev pub version_from : Json → Bool → Expected (Option VersionConstraint) Text
  version_from j true = do
    c ← at J j (text "version") >>= constraint_from_json
    Expected.value (some c)
  version_from j false = Expected.value none

  unfoldable pub rule_from_json : Json → Expected Rule Text
  rule_from_json j = do
    id ← string_at J j (text "id")
    description ← string_at J j (text "description")
    expectation_text ← string_at J j (text "expectation")
    expectation ← presence_from_string expectation_text
    payload_json ← at J j (text "payload")
    type ← string_at J payload_json (text "type")
    payload ← payload_from_json payload_json type
    version ← version_from j (contains_key J j (text "version"))
    Expected.value (record {
      id = id;
      description = description;
      expectation = expectation;
      payload = payload;
      version = version;
    })

  unfoldable pub template_to_json : Template → Json
  template_to_json tmpl = of_object (
      (text "name", of_string tmpl.name)
      ∷ (text "rules", of_array (map rule_to_json tmpl.rules))
      ∷ [])

  unfoldable pub template_from_json : Json → Expected Template Text
  template_from_json j = do
    name ← string_at J j (text "name")
    rules ← at J j (text "rules") >>= get_elements J >>= each rule_from_json
    Expected.value (record { name = name; rules = rules })

  unfoldable pub names_to_json : Text × List Text → Text × Json
  names_to_json (host_id, names) = (host_id, of_array (map of_string names))

  unfoldable pub bundle_to_json : TemplateBundle → Json
  bundle_to_json bundle = of_object (
      (text "revision", of_size bundle.revision)
      ∷ (text "hash", of_string bundle.hash)
      ∷ (text "baseline", template_to_json bundle.baseline)
      ∷ (text "templates", of_array (map template_to_json bundle.templates))
      ∷ (text "assignments", of_object (map names_to_json bundle.assignments))
      ∷ [])

  unfoldable pub names_from_json : Text × Json → Expected (Text × List Text) Text
  names_from_json (host_id, j) = do
    names ← get_elements J j >>= each (get_string J)
    Expected.value (host_id, names)

  unfoldable pub bundle_from_json : Json → Expected TemplateBundle Text
  bundle_from_json j = do
    revision ← at J j (text "revision") >>= get_uint64
    hash ← string_at J j (text "hash")
    baseline ← at J j (text "baseline") >>= template_from_json
    templates ← at J j (text "templates") >>= get_elements J >>= each template_from_json
    assignments ← at J j (text "assignments") >>= get_members J >>= each names_from_json
    Expected.value (record {
      revision = revision;
      hash = hash;
      baseline = baseline;
      templates = templates;
      assignments = OrderedMap.of_list assignments;
    })

  -- The bundles that the code writes have been read from JSON, or their hash has been taken, so that
  -- their texts are valid UTF-8.
  unfoldable pub serialise_bundle : TemplateBundle → Text
  serialise_bundle bundle = J.dump_indented 2 (bundle_to_json bundle)

  unfoldable pub parse_bundle : Text → Expected TemplateBundle Text
  parse_bundle s = J.parse_json s >>= bundle_from_json

  abbrev pub hashed : Json → Option Text → Expected Text Text
  hashed j (some error) = Expected.unexpected error
  hashed j none = Expected.value (hex_digits 16 (fnv 14695981039346656037 (J.dump j)) [])

  -- The hash, or the text of the exception that the dump throws.
  unfoldable pub content_hash : TemplateBundle → Expected Text Text
  unfolding fnv hex_digits
  content_hash bundle = let j = bundle_to_json (content bundle) in hashed j (J.dump_error j)
