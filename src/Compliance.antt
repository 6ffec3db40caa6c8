-- ===== src/Compliance.antt =====
-- libs/core/src/compliance.cpp: the report on the rules of a host. This file has the report, its
-- summary and the evaluation of process, service, registry and adapter rules; `Dds` has the rules on
-- DDS topics and `Evaluate` the loop over all rules.
pub mod Dds
pub mod Evaluate
pub mod Opposite
pub mod Answers
pub mod Reports
pub mod Samples
mod Examples
use lab_monitor.Base.{
  ℕ, ◌+◌, Bool, true, false, not, ◌&&◌, Option, none, some, List, ◌∷◌, [], ◌++◌, ◌==◌,
  if◌then◌else◌, pos, length, count_if, find_if, Text, text, str_eq, empty, contains,
  equals_ignore_case,
}
use lab_monitor.Base.Decimal.{to_string}
use lab_monitor.Base.Json.{integer_to_string}
use lab_monitor.Base.OrderedMap
use lab_monitor.Types.{
  Presence, CheckStatus, ServiceState, status_eq, service_eq, link_eq, is_up, link_state_to_string,
  comparison_to_string, satisfies_count,
}
use lab_monitor.Version.{Version, VersionConstraint, satisfies, version_to_string, op_to_string}
use lab_monitor.Rule.{
  Rule, ProcessRule, ServiceRule, RegistryRule, RegistryMatch, AdapterCountRule, AdapterStateRule,
  registry_key,
}
use lab_monitor.Facts.{NetworkAdapter, ProcessInfo, ServiceInfo, RegistryValue, HostFacts}

pub record CheckResult : Type 0 where
  pub rule_id : Text
  pub status : CheckStatus
  pub observed : Text
  pub message : Text

pub record ComplianceReport : Type 0 where
  pub host_id : Text
  pub applied_revision : ℕ
  pub results : List CheckResult

abbrev pub is_wanted : Presence → Bool
is_wanted Presence.must_be_present = true
is_wanted Presence.must_be_absent = false

-- `present == wanted` on Booleans.
abbrev bool_eq : Bool → Bool → Bool
bool_eq true b = b
bool_eq false b = not b

unfoldable pub resolve : Rule → Bool → Text → Text → CheckResult
resolve rule present observed expected =
    if bool_eq present (is_wanted rule.expectation)
    then record { rule_id = rule.id; status = CheckStatus.pass; observed = observed; message = [] }
    else record {
      rule_id = rule.id;
      status = CheckStatus.fail;
      observed = observed;
      message = expected;
    }

unfoldable pub expected_text : Rule → Text → Text → Text
expected_text rule positive negative =
    text "expected " ++ (if is_wanted rule.expectation then positive else negative)

unfoldable pub error : Rule → Text → Text → CheckResult
error rule observed message = record {
  rule_id = rule.id;
  status = CheckStatus.error;
  observed = observed;
  message = message;
}

-- A result by a test of its own: the message is left empty where it passes.
abbrev pub judged : Rule → Bool → Text → Text → CheckResult
judged rule ok observed message =
    if ok
    then record { rule_id = rule.id; status = CheckStatus.pass; observed = observed; message = [] }
    else record {
      rule_id = rule.id;
      status = CheckStatus.fail;
      observed = observed;
      message = message;
    }

abbrev pub process_wanted : Rule → ProcessRule → Text
process_wanted rule payload =
    expected_text rule (payload.executable ++ text " to be running")
      (payload.executable ++ text " not to be running")

abbrev pub check_version : Rule → VersionConstraint → Option Version → CheckResult
check_version rule constraint none =
    error rule (text "running, version unreadable")
      (text "process found but its version could not be determined")
check_version rule constraint (some version) =
    judged rule (satisfies version constraint)
      (text "running, version " ++ version_to_string version)
      (text "expected version "
        ++ (op_to_string constraint.op ++ (b' ' ∷ version_to_string constraint.value)))

-- A constraint on the version counts only where the process has to be present.
abbrev pub check_running : Rule → ProcessRule → ProcessInfo → Option VersionConstraint → CheckResult
check_running rule payload found none =
    resolve rule true (text "running") (process_wanted rule payload)
check_running rule payload found (some constraint) =
    if is_wanted rule.expectation
    then check_version rule constraint found.version
    else resolve rule true (text "running") (process_wanted rule payload)

abbrev pub check_process : Rule → ProcessRule → Option ProcessInfo → CheckResult
check_process rule payload none =
    resolve rule false (text "not running") (process_wanted rule payload)
check_process rule payload (some found) = check_running rule payload found rule.version

unfoldable pub find_process : List ProcessInfo → Text → Option ProcessInfo
find_process processes name =
    find_if (λ (info : ProcessInfo). equals_ignore_case info.executable name) processes

unfoldable pub evaluate_process : Rule → ProcessRule → List ProcessInfo → CheckResult
unfolding resolve error
evaluate_process rule payload processes =
    check_process rule payload (find_process processes payload.executable)

abbrev pub service_wanted : Rule → ServiceRule → Text
service_wanted rule payload =
    expected_text rule (text "service " ++ (payload.service_name ++ text " to be installed"))
      (text "service " ++ (payload.service_name ++ text " not to be installed"))

unfoldable pub service_state_text : ServiceState → Text
service_state_text ServiceState.running = text "Running"
service_state_text ServiceState.stopped = text "Stopped"
service_state_text ServiceState.unknown = text "Unknown"

abbrev pub check_state : Rule → ServiceRule → ServiceInfo → Option ServiceState → CheckResult
check_state rule payload found none =
    resolve rule true (service_state_text found.state) (service_wanted rule payload)
check_state rule payload found (some expected) =
    if is_wanted rule.expectation
    then judged rule (service_eq found.state expected) (service_state_text found.state)
        (text "expected state " ++ service_state_text expected)
    else resolve rule true (service_state_text found.state) (service_wanted rule payload)

abbrev pub check_service : Rule → ServiceRule → Option ServiceInfo → CheckResult
check_service rule payload none =
    resolve rule false (text "not installed") (service_wanted rule payload)
check_service rule payload (some found) = check_state rule payload found payload.expected_state

unfoldable pub find_service : List ServiceInfo → Text → Option ServiceInfo
find_service services name =
    find_if (λ (info : ServiceInfo). equals_ignore_case info.name name) services

unfoldable pub evaluate_service : Rule → ServiceRule → List ServiceInfo → CheckResult
unfolding resolve
evaluate_service rule payload services =
    check_service rule payload (find_service services payload.service_name)

abbrev quoted : Text → Text
quoted s = b'"' ∷ (s ++ b'"' ∷ [])

abbrev pub check_value : Rule → RegistryRule → RegistryValue → RegistryMatch → CheckResult
check_value rule payload value RegistryMatch.exists = resolve rule true value.content (
    expected_text rule (registry_key payload ++ text " to exist")
      (registry_key payload ++ text " not to exist"))
check_value rule payload value RegistryMatch.equals =
    resolve rule (str_eq value.content payload.expected_value) value.content (
      expected_text rule (text "the value to be " ++ quoted payload.expected_value)
        (text "the value not to be " ++ quoted payload.expected_value))
check_value rule payload value RegistryMatch.contains =
    resolve rule (contains value.content payload.expected_value) value.content (
      expected_text rule (text "the value to contain " ++ quoted payload.expected_value)
        (text "the value not to contain " ++ quoted payload.expected_value))

abbrev pub check_registry : Rule → RegistryRule → Option RegistryValue → CheckResult
check_registry rule payload none =
    error rule (text "not probed") (text "registry value was not read on this host")
check_registry rule payload (some value) =
    if not (empty value.error)
    then error rule (text "read failed") value.error
    else if not value.exists
    then resolve rule false (text "value absent") (
        expected_text rule (registry_key payload ++ text " to exist")
          (registry_key payload ++ text " not to exist"))
    else check_value rule payload value payload.match

unfoldable pub evaluate_registry : Rule → RegistryRule → OrderedMap.Map RegistryValue → CheckResult
unfolding resolve error
evaluate_registry rule payload registry =
    check_registry rule payload (OrderedMap.find (registry_key payload) registry)

-- The number of connected adapters fits an `int`.
unfoldable pub connected_count : List NetworkAdapter → ℕ
connected_count adapters = count_if (λ (adapter : NetworkAdapter). is_up adapter.link) adapters

unfoldable pub evaluate_adapter_count : Rule → AdapterCountRule → List NetworkAdapter → CheckResult
evaluate_adapter_count rule payload adapters =
    judged rule (satisfies_count (pos (connected_count adapters)) payload.comparison payload.count)
      (to_string (connected_count adapters)
        ++ (text " of " ++ (to_string (length adapters) ++ text " connected")))
      (text "expected "
        ++ (comparison_to_string payload.comparison
            ++ (b' ' ∷ (integer_to_string payload.count ++ text " connected"))))

abbrev pub adapter_wanted : Rule → AdapterStateRule → Text
adapter_wanted rule payload =
    expected_text rule
      (quoted payload.adapter_name ++ (text " to be " ++ link_state_to_string payload.expected))
      (quoted payload.adapter_name ++ (text " not to be " ++ link_state_to_string payload.expected))

abbrev pub check_adapter : Rule → AdapterStateRule → Option NetworkAdapter → CheckResult
check_adapter rule payload none =
    resolve rule false (text "no adapter named " ++ quoted payload.adapter_name)
      (adapter_wanted rule payload)
check_adapter rule payload (some found) =
    resolve rule (link_eq found.link payload.expected) (link_state_to_string found.link)
      (adapter_wanted rule payload)

unfoldable pub find_adapter : List NetworkAdapter → Text → Option NetworkAdapter
find_adapter adapters name =
    find_if (λ (adapter : NetworkAdapter). equals_ignore_case adapter.name name) adapters

unfoldable pub evaluate_adapter_state : Rule → AdapterStateRule → List NetworkAdapter → CheckResult
unfolding resolve
evaluate_adapter_state rule payload adapters =
    check_adapter rule payload (find_adapter adapters payload.adapter_name)

unfoldable pub count_by_status : ComplianceReport → CheckStatus → ℕ
count_by_status report status =
    count_if (λ (r : CheckResult). status_eq r.status status) report.results

unfoldable pub is_compliant : ComplianceReport → Bool
unfolding count_by_status
is_compliant report = count_by_status report CheckStatus.fail == 0

pub record ComplianceSummary : Type 0 where
  pub passed : ℕ
  pub failing : ℕ
  pub errors : ℕ
  pub not_applicable : ℕ

abbrev pub checked : ComplianceSummary → ℕ
checked summary = summary.passed + summary.failing + summary.errors

abbrev pub total : ComplianceSummary → ℕ
total summary = checked summary + summary.not_applicable

unfoldable pub summarise : ComplianceReport → ComplianceSummary
unfolding count_by_status
summarise report = record {
  passed = count_by_status report CheckStatus.pass;
  failing = count_by_status report CheckStatus.fail;
  errors = count_by_status report CheckStatus.error;
  not_applicable = count_by_status report CheckStatus.not_applicable;
}
