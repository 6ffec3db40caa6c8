-- ===== src/RuleDetail.antt =====
-- libs/ui/include/lm/ui/rule_detail.hpp and libs/ui/src/rule_detail.cpp: the display fields of a rule.
-- QString is no part of the repository: its operations are parameters.
use lab_monitor.Base.{
  ◌≡◌, refl, ℕ, ℤ, Bool, Option, none, some, if◌then◌else◌, Text, text, empty, not,
}
use lab_monitor.Types.{
  Presence, ServiceState, link_state_to_string, comparison_to_string, dds_match_to_string,
}
use lab_monitor.Version.{VersionConstraint, op_to_string, version_to_string}
use lab_monitor.Rule.{Rule, RulePayload, RegistryRule, RegistryMatch, DdsValueRule, hive_to_string}

pub record Qt : Type 1 where
  pub QString : Type 0
  -- QString::fromStdString, and a literal.
  pub to_qstring : Text → QString
  pub literal : Text → QString
  -- QString::arg with one text, with two texts at once, with an int and with an unsigned number.
  pub arg : QString → QString → QString
  pub arg_both : QString → QString → QString → QString
  pub arg_int : QString → ℤ → QString
  pub arg_uint : QString → ℕ → QString
  pub plus : QString → QString → QString
  pub is_empty : QString → Bool
  pub trimmed : QString → QString
  pub has_text : QString → QString → Bool
  -- operator==.
  pub same : QString → QString → Bool

pub record RuleDetail (QString : Type 0) : Type 0 where
  pub id : QString
  pub label : QString
  pub kind : QString
  pub target : QString
  pub expectation : QString
  pub constraint : QString

module _ (Q : Qt) where
  open Q use {QString, to_qstring, literal, arg, arg_both, arg_int, arg_uint, plus}

  abbrev pub Detail : Type 0
  Detail = RuleDetail QString

  unfoldable pub service_state_name : ServiceState → QString
  service_state_name ServiceState.running = literal (text "Running")
  service_state_name ServiceState.stopped = literal (text "Stopped")
  service_state_name ServiceState.unknown = literal (text "Unknown")

  unfoldable pub registry_match_name : RegistryMatch → QString
  registry_match_name RegistryMatch.exists = literal (text "exists")
  registry_match_name RegistryMatch.equals = literal (text "equals")
  registry_match_name RegistryMatch.contains = literal (text "contains")

  unfoldable pub registry_target : RegistryRule → QString
  registry_target payload =
      let value =
        if empty payload.value_name
        then literal (text "(Default)")
        else to_qstring payload.value_name in
      plus
        (plus
          (plus (plus (to_qstring (hive_to_string payload.hive)) (literal (text "\\")))
            (to_qstring payload.key_path))
          (literal (text "\\")))
        value

  -- The tooltip of a row.
  unfoldable pub tooltip : Detail → QString
  tooltip detail =
      let head = plus detail.label (literal (text "\n\n")) in
      let kind = plus head (arg (literal (text "Kind:\t%1\n")) detail.kind) in
      let target = plus kind (arg (literal (text "Target:\t%1\n")) detail.target) in
      let expect = plus target (arg (literal (text "Expect:\t%1")) detail.expectation) in
      let also =
        if not (Q.is_empty detail.constraint)
        then plus expect (arg (literal (text "\nAlso:\t%1")) detail.constraint)
        else expect in
      plus also (arg (literal (text "\n\nRule id: %1")) detail.id)

  abbrev expectation_of : Presence → QString
  expectation_of Presence.must_be_present = literal (text "Must be present")
  expectation_of Presence.must_be_absent = literal (text "Must be absent")

  abbrev version_constraint : Option VersionConstraint → QString
  version_constraint none = literal (text "")
  version_constraint (some c) =
      arg_both (literal (text "version %1 %2")) (to_qstring (op_to_string c.op))
        (to_qstring (version_to_string c.value))

  abbrev state_constraint : Option ServiceState → QString
  state_constraint none = literal (text "")
  state_constraint (some s) = arg (literal (text "state %1")) (service_state_name s)

  abbrev match_constraint : RegistryMatch → Text → QString
  match_constraint RegistryMatch.exists expected = registry_match_name RegistryMatch.exists
  match_constraint match expected =
      plus (registry_match_name match) (arg (literal (text " \"%1\"")) (to_qstring expected))

  abbrev addressed : DdsValueRule → QString
  addressed payload =
      let path = to_qstring payload.path in
      if Q.has_text path (literal (text "[*]")) then arg (literal (text "any %1")) path else path

  -- The visit: the kind, the target, the expectation and the constraint of a payload.
  abbrev visited : Detail → Option VersionConstraint → RulePayload → Detail
  visited detail version (RulePayload.process p) = record detail {
    kind = literal (text "Application");
    target = to_qstring p.executable;
    constraint = version_constraint version;
  }
  visited detail version (RulePayload.service p) = record detail {
    kind = literal (text "Service");
    target = to_qstring p.service_name;
    constraint = state_constraint p.expected_state;
  }
  visited detail version (RulePayload.registry p) = record detail {
    kind = literal (text "Registry");
    target = registry_target p;
    constraint = match_constraint p.match p.expected_value;
  }
  visited detail version (RulePayload.adapter_count p) =
      let constraint =
        arg_int (arg (literal (text "%1 %2")) (to_qstring (comparison_to_string p.comparison)))
          p.count in
      record detail {
        kind = literal (text "Network");
        target = literal (text "connected adapters");
        expectation = constraint;
        constraint = constraint;
      }
  visited detail version (RulePayload.adapter_state p) = record detail {
    kind = literal (text "Network");
    target = to_qstring p.adapter_name;
    constraint = arg (literal (text "link %1")) (to_qstring (link_state_to_string p.expected));
  }
  visited detail version (RulePayload.dds_topic p) = record detail {
    kind = literal (text "DDS");
    target =
        arg_uint (arg (literal (text "%1 on domain %2")) (to_qstring p.topic_name)) p.domain_id;
    constraint = literal (text "the topic is published");
  }
  visited detail version (RulePayload.dds_value p) =
      let constraint =
        arg (arg (literal (text "%1 %2")) (to_qstring (dds_match_to_string p.match)))
          (to_qstring p.expected_value) in
      record detail {
        kind = literal (text "DDS");
        target =
            arg_uint
              (arg (arg (literal (text "%1.%2 on domain %3")) (to_qstring p.topic_name))
                (addressed p))
              p.domain_id;
        expectation = constraint;
        constraint = constraint;
      }

  -- The description, or a summary of the rule where it is blank.
  abbrev label_of : Text → Detail → QString
  label_of description detail =
      let label = to_qstring description in
      if Q.is_empty (Q.trimmed label)
      then arg_both (literal (text "%1: %2")) detail.kind detail.target
      else label

  -- The detail before the visit.
  abbrev blank_detail : Rule → Detail
  blank_detail rule = record {
    id = to_qstring rule.id;
    label = literal (text "");
    kind = literal (text "");
    target = literal (text "");
    expectation = expectation_of rule.expectation;
    constraint = literal (text "");
  }

  unfoldable pub describe : Rule → Detail
  describe rule =
      let detail = visited (blank_detail rule) rule.version rule.payload in
      record detail { label = label_of rule.description detail }

  visited_id :
      (detail : Detail) (version : Option VersionConstraint) (p : RulePayload)
      → (visited detail version p).id ≡ detail.id
  visited_id detail version (RulePayload.process p) = refl
  visited_id detail version (RulePayload.service p) = refl
  visited_id detail version (RulePayload.registry p) = refl
  visited_id detail version (RulePayload.adapter_count p) = refl
  visited_id detail version (RulePayload.adapter_state p) = refl
  visited_id detail version (RulePayload.dds_topic p) = refl
  visited_id detail version (RulePayload.dds_value p) = refl

  pub describe_id : (rule : Rule) → (describe rule).id ≡ to_qstring rule.id
  unfolding describe
  describe_id rule = visited_id (blank_detail rule) rule.version rule.payload
