-- ===== src/Compliance/Evaluate.antt =====
-- `evaluate` of libs/core/src/compliance.cpp: one result for every rule that applies to the host.
use lab_monitor.Base.{not, List, [], ◌∷◌, ◌++◌, if◌then◌else◌, text}
use lab_monitor.Base.Json.{JsonLibrary}
use lab_monitor.Types.{CheckStatus, Capabilities, has, required_capability, capability_to_string}
use lab_monitor.Rule.{Rule, RulePayload, kind_of}
use lab_monitor.Bundle.{TemplateBundle, rules_for}
use lab_monitor.Facts.{HostFacts}
use lab_monitor.Compliance.{
  CheckResult, ComplianceReport, evaluate_process, evaluate_service, evaluate_registry,
  evaluate_adapter_count, evaluate_adapter_state,
}
use lab_monitor.Compliance.Dds.{evaluate_dds_topic, evaluate_dds_value}

unfoldable pub not_checked : Rule → CheckResult
not_checked rule = record {
  rule_id = rule.id;
  status = CheckStatus.not_applicable;
  observed =
      text "not checked: client does not report the "
      ++ (capability_to_string (required_capability (kind_of rule)) ++ text " capability");
  message = [];
}

module _ (J : JsonLibrary) where
  open J use {Double}

  abbrev pub evaluate_payload : Rule → RulePayload → HostFacts Double → CheckResult
  evaluate_payload rule (RulePayload.process p) facts = evaluate_process rule p facts.processes
  evaluate_payload rule (RulePayload.service p) facts = evaluate_service rule p facts.services
  evaluate_payload rule (RulePayload.registry p) facts = evaluate_registry rule p facts.registry
  evaluate_payload rule (RulePayload.adapter_count p) facts =
      evaluate_adapter_count rule p facts.resources.adapters
  evaluate_payload rule (RulePayload.adapter_state p) facts =
      evaluate_adapter_state rule p facts.resources.adapters
  evaluate_payload rule (RulePayload.dds_topic p) facts = evaluate_dds_topic rule p facts.dds
  evaluate_payload rule (RulePayload.dds_value p) facts = evaluate_dds_value J rule p facts.dds

  -- One round of the loop over the rules.
  unfoldable pub evaluate_rule : Rule → HostFacts Double → Capabilities → CheckResult
  evaluate_rule rule facts caps =
      if not (has caps (required_capability (kind_of rule)))
      then not_checked rule
      else evaluate_payload rule rule.payload facts

  unfoldable pub evaluate_rules : List Rule → HostFacts Double → Capabilities → List CheckResult
  unfolding evaluate_rule
  evaluate_rules [] facts caps = []
  evaluate_rules (rule ∷ rules) facts caps =
      evaluate_rule rule facts caps ∷ evaluate_rules rules facts caps

  unfoldable pub evaluate : TemplateBundle → HostFacts Double → Capabilities → ComplianceReport
  unfolding evaluate_rules
  evaluate bundle facts caps = record {
    host_id = facts.host_id;
    applied_revision = bundle.revision;
    results = evaluate_rules (rules_for bundle facts.host_id) facts caps;
  }
