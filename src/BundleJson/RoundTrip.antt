-- ===== src/BundleJson/RoundTrip.antt =====
-- A bundle printed by serialise_bundle and parsed by parse_bundle, of libs/core/src/json.cpp.
use lab_monitor.Base.{
  ◌<◌, ◌^◌, ◌≡◌, ◌≢◌, refl, true, Option, none, some, List, [], ◌∷◌, map, All, All-imp, Text, text,
  str_eq,
}
use lab_monitor.Base.OrderedMap
use lab_monitor.Base.OrderedMap.{find}
use lab_monitor.Base.Json.{Expected, JsonLibrary, IsInt32}
use lab_monitor.Base.Expected.{
  each, each-map, contains_key, get_string, contains_key-of_object, get_string-of_string,
  get_elements-of_array, get_members-of_object, string_at, at_of, string_at_of,
}
use lab_monitor.Base.Strings.{text_ltb}
use lab_monitor.Types.{ServiceState}
use lab_monitor.Version.{Version, VersionConstraint, version_to_string, op_to_string}
use lab_monitor.Version.RoundTrip.{InRange, parse-to_string, parse_comparison_op_iff}
use lab_monitor.Rule.{Rule, RulePayload, hive_to_string}
use lab_monitor.Rule.Keys.{parse_registry_hive_iff}
use lab_monitor.Bundle.{Template, TemplateBundle}
use lab_monitor.BundleJson.{
  version_to_json, version_from_json, constraint_to_json, constraint_from_json, state_member,
  payload_members, version_member, rule_to_json, rule_from_json, state_from_json, payload_from_json,
  version_from, template_to_json, template_from_json, names_to_json, names_from_json,
  bundle_to_json, bundle_from_json, serialise_bundle, parse_bundle, process_from_json,
  service_from_json, registry_from_json, adapter_count_from_json, adapter_state_from_json,
  dds_topic_from_json, dds_value_from_json, registry_match_to_string, comparison_to_name,
  link_state_to_name, dds_match_to_name, presence_to_string, service_state_to_string,
}
use lab_monitor.BundleJson.Names.{
  presence_from-to_string, service_state_from-to_string, registry_match_from-to_string,
  comparison_from-to_name, dds_match_from-to_name, link_state_from-to_name,
}

-- The values fit the types of the source.
abbrev pub IsWireVersion : Version → Type 0
IsWireVersion v = (v.parts ≢ []) × InRange v.parts

abbrev pub IsWireConstraint : Option VersionConstraint → Type 0
IsWireConstraint none = Unit
IsWireConstraint (some c) = IsWireVersion c.value

abbrev pub IsWirePayload : RulePayload → Type 0
IsWirePayload (RulePayload.adapter_count p) = IsInt32 p.count
IsWirePayload (RulePayload.dds_topic p) = p.domain_id < 2 ^ 32
IsWirePayload (RulePayload.dds_value p) = p.domain_id < 2 ^ 32
IsWirePayload _ = Unit

abbrev pub IsWireRule : Rule → Type 0
IsWireRule rule = IsWirePayload rule.payload × IsWireConstraint rule.version

abbrev pub IsWireTemplate : Template → Type 0
IsWireTemplate tmpl = All IsWireRule tmpl.rules

pub record IsWireBundle (bundle : TemplateBundle) : Type 0 where
  pub revision : bundle.revision < 2 ^ 64
  pub baseline : IsWireTemplate bundle.baseline
  pub templates : All IsWireTemplate bundle.templates
  pub assignments : OrderedMap.IsOrdered bundle.assignments

abbrev type_name : RulePayload → Text
type_name (RulePayload.process _) = text "process"
type_name (RulePayload.service _) = text "service"
type_name (RulePayload.registry _) = text "registry"
type_name (RulePayload.adapter_count _) = text "adapter_count"
type_name (RulePayload.adapter_state _) = text "adapter_state"
type_name (RulePayload.dds_topic _) = text "dds_topic"
type_name (RulePayload.dds_value _) = text "dds_value"

module _ (J : JsonLibrary) where
  open J use {
    Json, of_string, of_size, of_integer, of_array, of_object, get_int, get_uint32, get_uint64,
  }

  version_from-to_json :
      (v : Version) → IsWireVersion v → version_from_json J (version_to_json J v) ≡ Expected.value v
  unfolding version_from_json version_to_json
  version_from-to_json v (n, r) =
      rw (get_string-of_string J (version_to_string v), parse-to_string v n r) refl

  constraint_from-to_json :
      (c : VersionConstraint)
      → IsWireVersion c.value
      → constraint_from_json J (constraint_to_json J c) ≡ Expected.value c
  unfolding constraint_from_json constraint_to_json find text str_eq
  constraint_from-to_json c h =
      let ms : List (Text × Json) =
        (text "op", of_string (op_to_string c.op))
        ∷ (text "value", version_to_json J c.value)
        ∷ [] in
      rw
        (
          string_at_of J ms (text "op") (op_to_string c.op) refl,
          (parse_comparison_op_iff (op_to_string c.op) c.op).1 refl,
          at_of J ms (text "value") (version_to_json J c.value) refl,
          version_from-to_json c.value h,
        )
        refl

  state_from-to_json :
      (name : Text) (s : Option ServiceState)
      → let ms : List (Text × Json) =
          (text "type", of_string (text "service"))
          ∷ (text "service_name", of_string name)
          ∷ state_member J s in
        state_from_json J (of_object ms) (contains_key J (of_object ms) (text "expected_state"))
        ≡ Expected.value s
  unfolding find text str_eq
  state_from-to_json name none =
      let ms : List (Text × Json) =
        (text "type", of_string (text "service")) ∷ (text "service_name", of_string name) ∷ [] in
      rw (contains_key-of_object J ms (text "expected_state") none refl) refl
  state_from-to_json name (some s) =
      let ms : List (Text × Json) =
        (text "type", of_string (text "service"))
        ∷ (text "service_name", of_string name)
        ∷ state_member J (some s) in
      rw
        (
          contains_key-of_object J ms (text "expected_state")
              (some (of_string (service_state_to_string s))) refl,
          string_at_of J ms (text "expected_state") (service_state_to_string s) refl,
          service_state_from-to_string s,
        )
        refl

  payload_from-to_json :
      (p : RulePayload)
      → IsWirePayload p
      → payload_from_json J (of_object (payload_members J p)) (type_name p) ≡ Expected.value p
  unfolding payload_from_json process_from_json service_from_json registry_from_json
      adapter_count_from_json adapter_state_from_json dds_topic_from_json dds_value_from_json find
      text str_eq
  payload_from-to_json (RulePayload.process p) h =
      let ms = payload_members J (RulePayload.process p) in
      rw (string_at_of J ms (text "executable") p.executable refl) refl
  payload_from-to_json (RulePayload.service p) h =
      let ms = payload_members J (RulePayload.service p) in
      rw
        (
          string_at_of J ms (text "service_name") p.service_name refl,
          state_from-to_json p.service_name p.expected_state,
        )
        refl
  payload_from-to_json (RulePayload.registry p) h =
      let ms = payload_members J (RulePayload.registry p) in
      rw
        (
          string_at_of J ms (text "hive") (hive_to_string p.hive) refl,
          (parse_registry_hive_iff (hive_to_string p.hive) p.hive).1 refl,
          string_at_of J ms (text "key_path") p.key_path refl,
          string_at_of J ms (text "value_name") p.value_name refl,
          string_at_of J ms (text "match") (registry_match_to_string p.match) refl,
          registry_match_from-to_string p.match,
          string_at_of J ms (text "expected_value") p.expected_value refl,
        )
        refl
  payload_from-to_json (RulePayload.adapter_count p) h =
      let ms = payload_members J (RulePayload.adapter_count p) in
      rw
        (
          string_at_of J ms (text "comparison") (comparison_to_name p.comparison) refl,
          comparison_from-to_name p.comparison,
          at_of J ms (text "count") (of_integer p.count) refl,
          J.get_int-of_integer p.count h,
        )
        refl
  payload_from-to_json (RulePayload.adapter_state p) h =
      let ms = payload_members J (RulePayload.adapter_state p) in
      rw
        (
          string_at_of J ms (text "adapter_name") p.adapter_name refl,
          string_at_of J ms (text "expected") (link_state_to_name p.expected) refl,
          link_state_from-to_name p.expected,
        )
        refl
  payload_from-to_json (RulePayload.dds_topic p) h =
      let ms = payload_members J (RulePayload.dds_topic p) in
      rw
        (
          at_of J ms (text "domain_id") (of_size p.domain_id) refl,
          J.get_uint32-of_size p.domain_id h,
          string_at_of J ms (text "topic_name") p.topic_name refl,
        )
        refl
  payload_from-to_json (RulePayload.dds_value p) h =
      let ms = payload_members J (RulePayload.dds_value p) in
      rw
        (
          at_of J ms (text "domain_id") (of_size p.domain_id) refl,
          J.get_uint32-of_size p.domain_id h,
          string_at_of J ms (text "topic_name") p.topic_name refl,
          string_at_of J ms (text "path") p.path refl,
          string_at_of J ms (text "match") (dds_match_to_name p.match) refl,
          dds_match_from-to_name p.match,
          string_at_of J ms (text "expected_value") p.expected_value refl,
        )
        refl

  type_of_payload :
      (p : RulePayload)
      → string_at J (of_object (payload_members J p)) (text "type") ≡ Expected.value (type_name p)
  unfolding find text str_eq
  type_of_payload (RulePayload.process p) = string_at_of J _ (text "type") (text "process") refl
  type_of_payload (RulePayload.service p) = string_at_of J _ (text "type") (text "service") refl
  type_of_payload (RulePayload.registry p) = string_at_of J _ (text "type") (text "registry") refl
  type_of_payload (RulePayload.adapter_count p) =
      string_at_of J _ (text "type") (text "adapter_count") refl
  type_of_payload (RulePayload.adapter_state p) =
      string_at_of J _ (text "type") (text "adapter_state") refl
  type_of_payload (RulePayload.dds_topic p) = string_at_of J _ (text "type") (text "dds_topic") refl
  type_of_payload (RulePayload.dds_value p) = string_at_of J _ (text "type") (text "dds_value") refl

  abbrev rule_members : Rule → Option VersionConstraint → List (Text × Json)
  rule_members rule version =
      (text "id", of_string rule.id)
      ∷ (text "description", of_string rule.description)
      ∷ (text "expectation", of_string (presence_to_string rule.expectation))
      ∷ (text "payload", of_object (payload_members J rule.payload))
      ∷ version_member J version

  version_from-member :
      (rule : Rule) (version : Option VersionConstraint)
      → IsWireConstraint version
      → let j = of_object (rule_members rule version) in
        version_from J j (contains_key J j (text "version")) ≡ Expected.value version
  unfolding find text str_eq
  version_from-member rule none h =
      rw (contains_key-of_object J (rule_members rule none) (text "version") none refl) refl
  version_from-member rule (some c) h =
      let ms = rule_members rule (some c) in
      rw
        (
          contains_key-of_object J ms (text "version") (some (constraint_to_json J c)) refl,
          at_of J ms (text "version") (constraint_to_json J c) refl,
          constraint_from-to_json c h,
        )
        refl

  rule_from-to_json :
      (rule : Rule) → IsWireRule rule → rule_from_json J (rule_to_json J rule) ≡ Expected.value rule
  unfolding rule_from_json rule_to_json find text str_eq
  rule_from-to_json rule (h, k) =
      let ms = rule_members rule rule.version in
      rw
        (
          string_at_of J ms (text "id") rule.id refl,
          string_at_of J ms (text "description") rule.description refl,
          string_at_of J ms (text "expectation") (presence_to_string rule.expectation) refl,
          presence_from-to_string rule.expectation,
          at_of J ms (text "payload") (of_object (payload_members J rule.payload)) refl,
          type_of_payload rule.payload,
          payload_from-to_json rule.payload h,
          version_from-member rule rule.version k,
        )
        refl

  template_from-to_json :
      (tmpl : Template)
      → IsWireTemplate tmpl
      → template_from_json J (template_to_json J tmpl) ≡ Expected.value tmpl
  unfolding template_from_json template_to_json find text str_eq
  template_from-to_json tmpl h =
      let ms : List (Text × Json) =
        (text "name", of_string tmpl.name)
        ∷ (text "rules", of_array (map (rule_to_json J) tmpl.rules))
        ∷ [] in
      rw
        (
          string_at_of J ms (text "name") tmpl.name refl,
          at_of J ms (text "rules") (of_array (map (rule_to_json J) tmpl.rules)) refl,
          get_elements-of_array J (map (rule_to_json J) tmpl.rules),
          each-map (rule_from_json J) (rule_to_json J) tmpl.rules (
              All-imp IsWireRule (λ r. rule_from_json J (rule_to_json J r) ≡ Expected.value r)
                tmpl.rules rule_from-to_json h),
        )
        refl

  names_from-to_json :
      (entry : Text × List Text) → names_from_json J (names_to_json J entry) ≡ Expected.value entry
  unfolding names_from_json names_to_json
  names_from-to_json (host_id, names) =
      rw
        (
          get_elements-of_array J (map of_string names),
          each-map (get_string J) of_string names (strings names),
        )
        refl
    where
      strings : (names : List Text) → All (λ s. get_string J (of_string s) ≡ Expected.value s) names
      strings [] = tt
      strings (s ∷ names) = (get_string-of_string J s, strings names)

  names_above :
      (k : Text) (m : OrderedMap.Map (List Text))
      → All (λ (p : Text × List Text). text_ltb k p.0 ≡ true) m
      → All (λ (p : Text × Json). text_ltb k p.0 ≡ true) (map (names_to_json J) m)
  unfolding names_to_json
  names_above k [] h = tt
  names_above k ((host_id, names) ∷ m) h = (h.0, names_above k m h.1)

  names_IsOrdered :
      (m : OrderedMap.Map (List Text))
      → OrderedMap.IsOrdered m
      → OrderedMap.IsOrdered (map (names_to_json J) m)
  unfolding names_to_json
  names_IsOrdered [] h = tt
  names_IsOrdered ((host_id, names) ∷ m) h = (names_above host_id m h.0, names_IsOrdered m h.1)

  templates_from-to_json :
      (ts : List Template)
      → All IsWireTemplate ts
      → each (template_from_json J) (map (template_to_json J) ts) ≡ Expected.value ts
  templates_from-to_json ts h = each-map (template_from_json J) (template_to_json J) ts (
      All-imp IsWireTemplate (λ t. template_from_json J (template_to_json J t) ≡ Expected.value t)
        ts template_from-to_json h)

  assignments_from-to_json :
      (m : OrderedMap.Map (List Text))
      → each (names_from_json J) (map (names_to_json J) m) ≡ Expected.value m
  assignments_from-to_json m = each-map (names_from_json J) (names_to_json J) m (entries m)
    where
      entries :
          (m : OrderedMap.Map (List Text))
          → All (λ e. names_from_json J (names_to_json J e) ≡ Expected.value e) m
      entries [] = tt
      entries (e ∷ m) = (names_from-to_json e, entries m)

  bundle_from-to_json :
      (bundle : TemplateBundle)
      → IsWireBundle bundle
      → bundle_from_json J (bundle_to_json J bundle) ≡ Expected.value bundle
  unfolding bundle_from_json bundle_to_json find text str_eq
  bundle_from-to_json bundle h =
      let ms : List (Text × Json) =
        (text "revision", of_size bundle.revision)
        ∷ (text "hash", of_string bundle.hash)
        ∷ (text "baseline", template_to_json J bundle.baseline)
        ∷ (text "templates", of_array (map (template_to_json J) bundle.templates))
        ∷ (text "assignments", of_object (map (names_to_json J) bundle.assignments))
        ∷ [] in
      rw
        (
          at_of J ms (text "revision") (of_size bundle.revision) refl,
          J.get_uint64-of_size bundle.revision h.revision,
          string_at_of J ms (text "hash") bundle.hash refl,
          at_of J ms (text "baseline") (template_to_json J bundle.baseline) refl,
          template_from-to_json bundle.baseline h.baseline,
          at_of J ms (text "templates") (of_array (map (template_to_json J) bundle.templates)) refl,
          get_elements-of_array J (map (template_to_json J) bundle.templates),
          templates_from-to_json bundle.templates h.templates,
          at_of J ms (text "assignments") (of_object (map (names_to_json J) bundle.assignments))
              refl,
          get_members-of_object J (map (names_to_json J) bundle.assignments)
              (names_IsOrdered bundle.assignments h.assignments),
          assignments_from-to_json bundle.assignments,
          OrderedMap.of_list-IsOrdered bundle.assignments h.assignments,
        )
        refl

  -- A bundle whose numbers fit the types of the source, whose versions are not empty and whose
  -- assignments are in the order of a std::map, and whose JSON can be dumped, is read back from the
  -- text that serialise_bundle makes of it as it was.
  pub parse_bundle-serialise_bundle :
      (bundle : TemplateBundle)
      → IsWireBundle bundle
      → J.IsPrintable (bundle_to_json J bundle)
      → parse_bundle J (serialise_bundle J bundle) ≡ Expected.value bundle
  unfolding parse_bundle serialise_bundle
  parse_bundle-serialise_bundle bundle h printable =
      rw (J.parse_json-dump_indented 2 (bundle_to_json J bundle) printable)
        (bundle_from-to_json bundle h)
