-- ===== src/Compliance/Answers.antt =====
-- What every evaluation of a rule answers, whichever branch it takes.
use lab_monitor.Base.{
  zero, suc, ◌≡◌, ◌≢◌, arith, Bool, true, false, Option, none, some, List, [], ◌∷◌, if◌then◌else◌,
  Text,
}
use lab_monitor.Base.Json.{Expected, JsonLibrary}
use lab_monitor.Base.OrderedMap
use lab_monitor.Types.{CheckStatus, ServiceState}
use lab_monitor.Rule.{
  Rule, RulePayload, ProcessRule, ServiceRule, RegistryRule, RegistryMatch, AdapterStateRule,
  DdsTopicRule, DdsValueRule, registry_key,
}
use lab_monitor.Version.{Version, VersionConstraint}
use lab_monitor.JsonPath.{PathFailure}
use lab_monitor.JsonPath.Resolve.{resolve_all}
use lab_monitor.Facts.{
  ProcessInfo, ServiceInfo, RegistryValue, NetworkAdapter, DdsTopicSample, HostFacts,
}
use lab_monitor.Compliance.{
  CheckResult, resolve, error, judged, is_wanted, check_version, check_running, check_process,
  check_state, check_service, check_value, check_registry, check_adapter, evaluate_process,
  evaluate_service, evaluate_registry, evaluate_adapter_count, evaluate_adapter_state, find_process,
  find_service, find_adapter,
}
use lab_monitor.Compliance.Dds.{
  check_topic, Scan, scanned, check_values, check_document, check_sample, scan, evaluate_dds_topic,
  evaluate_dds_value, find_topic, observed_text,
}
use lab_monitor.Compliance.Evaluate.{evaluate_payload}

-- A result that was reached by looking at the facts: it carries the rule's id, it is not "not
-- applicable", and a pass carries no message.
pub record IsAnswer (rule : Rule) (r : CheckResult) : Type 0 where
  pub named : r.rule_id ≡ rule.id
  pub applicable : r.status ≢ CheckStatus.not_applicable
  pub quiet : r.status ≡ CheckStatus.pass → r.message ≡ []

resolve-IsAnswer :
    (rule : Rule) (present : Bool) (o e : Text) → IsAnswer rule (resolve rule present o e)
unfolding resolve
resolve-IsAnswer rule present o e = ground arith

error-IsAnswer : (rule : Rule) (o e : Text) → IsAnswer rule (error rule o e)
unfolding error
error-IsAnswer rule o e = ground arith

judged-IsAnswer : (rule : Rule) (ok : Bool) (o e : Text) → IsAnswer rule (judged rule ok o e)
judged-IsAnswer rule ok o e = ground arith

either-IsAnswer :
    (rule : Rule) (b : Bool) (x y : CheckResult)
    → IsAnswer rule x
    → IsAnswer rule y
    → IsAnswer rule (if b then x else y)
either-IsAnswer rule true x y h k = h
either-IsAnswer rule false x y h k = k

ruleset answers = (resolve-IsAnswer, error-IsAnswer, judged-IsAnswer, either-IsAnswer)

check_running-IsAnswer :
    (rule : Rule) (p : ProcessRule) (found : ProcessInfo) (c : Option VersionConstraint)
    → IsAnswer rule (check_running rule p found c)
check_running-IsAnswer rule p found none = search answers
check_running-IsAnswer rule p found (some c) =
    either-IsAnswer rule (is_wanted rule.expectation) (check_version rule c found.version) _
      (versioned found.version) (resolve-IsAnswer rule true _ _)
  where
    versioned : (v : Option Version) → IsAnswer rule (check_version rule c v)
    versioned none = search answers
    versioned (some v) = search answers

check_process-IsAnswer :
    (rule : Rule) (p : ProcessRule) (found : Option ProcessInfo)
    → IsAnswer rule (check_process rule p found)
check_process-IsAnswer rule p none = search answers
check_process-IsAnswer rule p (some found) = check_running-IsAnswer rule p found rule.version

check_state-IsAnswer :
    (rule : Rule) (p : ServiceRule) (found : Option ServiceInfo)
    → IsAnswer rule (check_service rule p found)
check_state-IsAnswer rule p none = search answers
check_state-IsAnswer rule p (some found) = stated p.expected_state
  where
    stated : (s : Option ServiceState) → IsAnswer rule (check_state rule p found s)
    stated none = search answers
    stated (some s) = search answers

check_value-IsAnswer :
    (rule : Rule) (p : RegistryRule) (value : RegistryValue) (m : RegistryMatch)
    → IsAnswer rule (check_value rule p value m)
check_value-IsAnswer rule p value RegistryMatch.exists = search answers
check_value-IsAnswer rule p value RegistryMatch.equals = search answers
check_value-IsAnswer rule p value RegistryMatch.contains = search answers

check_registry-IsAnswer :
    (rule : Rule) (p : RegistryRule) (value : Option RegistryValue)
    → IsAnswer rule (check_registry rule p value)
check_registry-IsAnswer rule p none = search answers
check_registry-IsAnswer rule p (some value) = search (answers, check_value-IsAnswer)

check_adapter-IsAnswer :
    (rule : Rule) (p : AdapterStateRule) (found : Option NetworkAdapter)
    → IsAnswer rule (check_adapter rule p found)
check_adapter-IsAnswer rule p none = search answers
check_adapter-IsAnswer rule p (some found) = search answers

check_topic-IsAnswer :
    (rule : Rule) (p : DdsTopicRule) (sample : Option DdsTopicSample)
    → IsAnswer rule (check_topic rule p sample)
check_topic-IsAnswer rule p none = search answers
check_topic-IsAnswer rule p (some sample) = search answers

module _ (J : JsonLibrary) where
  scanned-IsAnswer :
      (rule : Rule) (p : DdsValueRule) (o : Text) (s : Scan) → IsAnswer rule (scanned J rule p o s)
  scanned-IsAnswer rule p o Scan.hit = judged-IsAnswer rule true o []
  scanned-IsAnswer rule p o (Scan.ended none zero) = judged-IsAnswer rule false o _
  scanned-IsAnswer rule p o (Scan.ended none (suc n)) = judged-IsAnswer rule false o _
  scanned-IsAnswer rule p o (Scan.ended (some e) zero) = error-IsAnswer rule o e
  scanned-IsAnswer rule p o (Scan.ended (some e) (suc n)) = judged-IsAnswer rule false o _

  check_values-IsAnswer :
      (rule : Rule) (p : DdsValueRule) (found : Expected (List J.Json) PathFailure)
      → IsAnswer rule (check_values J rule p found)
  check_values-IsAnswer rule p (Expected.unexpected e) = search answers
  check_values-IsAnswer rule p (Expected.value []) = search answers
  check_values-IsAnswer rule p (Expected.value (v ∷ values)) =
      scanned-IsAnswer rule p (observed_text J (v ∷ values)) (scan J p (v ∷ values) none 0)

  check_document-IsAnswer :
      (rule : Rule) (p : DdsValueRule) (document : Expected J.Json Text)
      → IsAnswer rule (check_document J rule p document)
  check_document-IsAnswer rule p (Expected.unexpected e) = search answers
  check_document-IsAnswer rule p (Expected.value document) =
      check_values-IsAnswer rule p (resolve_all J document p.path)

  check_sample-IsAnswer :
      (rule : Rule) (p : DdsValueRule) (sample : Option DdsTopicSample)
      → IsAnswer rule (check_sample J rule p sample)
  check_sample-IsAnswer rule p none = search answers
  check_sample-IsAnswer rule p (some sample) = search (answers, check_document-IsAnswer)

  -- Every evaluation of a rule names its rule, is never "not applicable", and passes in silence.
  pub evaluate_payload-IsAnswer :
      (rule : Rule) (payload : RulePayload) (facts : HostFacts J.Double)
      → IsAnswer rule (evaluate_payload J rule payload facts)
  unfolding evaluate_process evaluate_service evaluate_registry evaluate_adapter_count
      evaluate_adapter_state evaluate_dds_topic evaluate_dds_value
  evaluate_payload-IsAnswer rule (RulePayload.process p) facts =
      check_process-IsAnswer rule p (find_process facts.processes p.executable)
  evaluate_payload-IsAnswer rule (RulePayload.service p) facts =
      check_state-IsAnswer rule p (find_service facts.services p.service_name)
  evaluate_payload-IsAnswer rule (RulePayload.registry p) facts =
      check_registry-IsAnswer rule p (OrderedMap.find (registry_key p) facts.registry)
  evaluate_payload-IsAnswer rule (RulePayload.adapter_count p) facts = judged-IsAnswer rule _ _ _
  evaluate_payload-IsAnswer rule (RulePayload.adapter_state p) facts =
      check_adapter-IsAnswer rule p (find_adapter facts.resources.adapters p.adapter_name)
  evaluate_payload-IsAnswer rule (RulePayload.dds_topic p) facts =
      check_topic-IsAnswer rule p (find_topic facts.dds p.domain_id p.topic_name)
  evaluate_payload-IsAnswer rule (RulePayload.dds_value p) facts =
      check_sample-IsAnswer rule p (find_topic facts.dds p.domain_id p.topic_name)
