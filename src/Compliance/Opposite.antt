-- ===== src/Compliance/Opposite.antt =====
-- The presence that a rule expects and the other one, over the evaluators of
-- libs/core/src/compliance.cpp.
use lab_monitor.Base.{
  ◌≡◌, refl, inl, inr, Bool, true, false, Option, none, some, List, Text, str_eq, contains, empty,
  Bool-cases,
}
use lab_monitor.Base.OrderedMap
use lab_monitor.Types.{CheckStatus, Presence, link_eq}
use lab_monitor.Rule.{
  Rule, ProcessRule, ServiceRule, RegistryRule, RegistryMatch, AdapterStateRule, DdsTopicRule,
  registry_key,
}
use lab_monitor.Facts.{NetworkAdapter, ProcessInfo, ServiceInfo, RegistryValue, DdsTopicSample}
use lab_monitor.Compliance.{
  resolve, error, evaluate_registry, check_registry, check_value, evaluate_adapter_state,
  check_adapter, find_adapter, evaluate_process, check_process, find_process, evaluate_service,
  check_service, find_service,
}
use lab_monitor.Compliance.Dds.{evaluate_dds_topic, check_topic, find_topic}

abbrev pub flip : Presence → Presence
flip Presence.must_be_present = Presence.must_be_absent
flip Presence.must_be_absent = Presence.must_be_present

-- The same rule with the other presence expected.
abbrev pub opposite : Rule → Rule
opposite rule = record rule { expectation = flip rule.expectation }

-- The answer turned: a pass is a failure and a failure a pass.
abbrev pub turned : CheckStatus → CheckStatus
turned CheckStatus.pass = CheckStatus.fail
turned CheckStatus.fail = CheckStatus.pass
turned CheckStatus.not_applicable = CheckStatus.not_applicable
turned CheckStatus.error = CheckStatus.error

resolve-opposite :
    (rule : Rule) (present : Bool) (o o' e e' : Text)
    → (resolve (opposite rule) present o e).status ≡ turned (resolve rule present o' e').status
unfolding resolve
resolve-opposite rule present o o' e e' = go rule.expectation refl
  where
    go :
        (p : Presence)
        → rule.expectation ≡ p
        → (resolve (opposite rule) present o e).status ≡ turned (resolve rule present o' e').status
    go Presence.must_be_present h = elim (Bool-cases present) [
      | inl b ↦ rw (h, b) refl
      | inr b ↦ rw (h, b) refl
    ]
    go Presence.must_be_absent h = elim (Bool-cases present) [
      | inl b ↦ rw (h, b) refl
      | inr b ↦ rw (h, b) refl
    ]

-- A rule on a registry value, with the opposite presence expected, passes where it failed and fails
-- where it passed; a value that was not read or could not be read is an error for both.
pub evaluate_registry-opposite :
    (rule : Rule) (payload : RegistryRule) (registry : OrderedMap.Map RegistryValue)
    → (evaluate_registry (opposite rule) payload registry).status
      ≡ turned (evaluate_registry rule payload registry).status
unfolding evaluate_registry resolve error
evaluate_registry-opposite rule payload registry =
    value_of (OrderedMap.find (registry_key payload) registry)
  where
    by_match :
        (value : RegistryValue) (m : RegistryMatch)
        → (check_value (opposite rule) payload value m).status
          ≡ turned (check_value rule payload value m).status
    by_match value RegistryMatch.exists = resolve-opposite rule true _ _ _ _
    by_match value RegistryMatch.equals =
        resolve-opposite rule (str_eq value.content payload.expected_value) _ _ _ _
    by_match value RegistryMatch.contains =
        resolve-opposite rule (contains value.content payload.expected_value) _ _ _ _

    value_of :
        (o : Option RegistryValue)
        → (check_registry (opposite rule) payload o).status
          ≡ turned (check_registry rule payload o).status
    value_of none = refl
    value_of (some value) = elim (Bool-cases (empty value.error)) [
      | inl read ↦ elim (Bool-cases value.exists) [
        | inl there ↦ rw (read, there) (by_match value payload.match)
        | inr gone ↦ rw (read, gone) (resolve-opposite rule false _ _ _ _)
      ]
      | inr failed ↦ rw failed refl
    ]

-- A rule on the state of an adapter is turned by the opposite presence, an adapter that is not there
-- included.
pub evaluate_adapter_state-opposite :
    (rule : Rule) (payload : AdapterStateRule) (adapters : List NetworkAdapter)
    → (evaluate_adapter_state (opposite rule) payload adapters).status
      ≡ turned (evaluate_adapter_state rule payload adapters).status
unfolding evaluate_adapter_state resolve
evaluate_adapter_state-opposite rule payload adapters =
    adapter_of (find_adapter adapters payload.adapter_name)
  where
    adapter_of :
        (o : Option NetworkAdapter)
        → (check_adapter (opposite rule) payload o).status
          ≡ turned (check_adapter rule payload o).status
    adapter_of none = resolve-opposite rule false _ _ _ _
    adapter_of (some a) = resolve-opposite rule (link_eq a.link payload.expected) _ _ _ _

-- A rule on a DDS topic is turned by the opposite presence; a bus that was not read or could not be
-- is an error for both.
pub evaluate_dds_topic-opposite :
    (rule : Rule) (payload : DdsTopicRule) (dds : OrderedMap.Map DdsTopicSample)
    → (evaluate_dds_topic (opposite rule) payload dds).status
      ≡ turned (evaluate_dds_topic rule payload dds).status
unfolding evaluate_dds_topic resolve error
evaluate_dds_topic-opposite rule payload dds =
    topic_of (find_topic dds payload.domain_id payload.topic_name)
  where
    topic_of :
        (o : Option DdsTopicSample)
        → (check_topic (opposite rule) payload o).status
          ≡ turned (check_topic rule payload o).status
    topic_of none = refl
    topic_of (some sample) = elim (Bool-cases (empty sample.error)) [
      | inl looked ↦ rw looked (resolve-opposite rule sample.topic_found _ _ _ _)
      | inr failed ↦ rw failed refl
    ]

-- A rule on a process without a version is turned by the opposite presence.
pub evaluate_process-opposite :
    (rule : Rule) (payload : ProcessRule) (processes : List ProcessInfo)
    → rule.version ≡ none
    → (evaluate_process (opposite rule) payload processes).status
      ≡ turned (evaluate_process rule payload processes).status
unfolding evaluate_process resolve error
evaluate_process-opposite rule payload processes h =
    process_of (find_process processes payload.executable)
  where
    process_of :
        (o : Option ProcessInfo)
        → (check_process (opposite rule) payload o).status
          ≡ turned (check_process rule payload o).status
    process_of none = resolve-opposite rule false _ _ _ _
    process_of (some found) = rw h (resolve-opposite rule true _ _ _ _)

-- A rule on a service without an expected state is turned by the opposite presence.
pub evaluate_service-opposite :
    (rule : Rule) (payload : ServiceRule) (services : List ServiceInfo)
    → payload.expected_state ≡ none
    → (evaluate_service (opposite rule) payload services).status
      ≡ turned (evaluate_service rule payload services).status
unfolding evaluate_service resolve
evaluate_service-opposite rule payload services h =
    service_of (find_service services payload.service_name)
  where
    service_of :
        (o : Option ServiceInfo)
        → (check_service (opposite rule) payload o).status
          ≡ turned (check_service rule payload o).status
    service_of none = resolve-opposite rule false _ _ _ _
    service_of (some found) = rw h (resolve-opposite rule true _ _ _ _)
