-- ===== src/Compliance/Examples.antt =====
-- Runs of the evaluation, and the theorems on it at concrete rules and facts.
use lab_monitor.Base.{
  ◌≡◌, ◌≢◌, ◌↔◌, refl, pos, ℕ, Bool, true, false, none, some, List, [], ◌∷◌, length, All, Distinct,
  Text, text,
}
use lab_monitor.Base.Json.{Expected}
use lab_monitor.Base.SampleJson.{Leaf, Document, sample_json}
use lab_monitor.Types.{AdapterType, CheckStatus, DdsMatch, LinkState, Presence, no_capabilities}
use lab_monitor.Rule.{Rule, RulePayload, ProcessRule, DdsValueRule}
use lab_monitor.Facts.{HostFacts, NetworkAdapter, ProcessInfo, DdsTopicSample}
use lab_monitor.Bundle.{TemplateBundle, ids, rules_for}
use lab_monitor.Compliance.{
  CheckResult, ComplianceReport, evaluate_process, evaluate_service, evaluate_registry,
  evaluate_adapter_state, is_compliant, summarise, total,
}
use lab_monitor.Compliance.Dds.{evaluate_dds_topic, check_values}
use lab_monitor.Compliance.Evaluate.{evaluate}
use lab_monitor.Compliance.Reports.{result_ids, evaluate-ids}
use lab_monitor.Compliance.Samples.{Any, Matches, IsIncomparable, check_values-status}

abbrev cart : ProcessRule
cart = record { executable = text "cart.exe" }

abbrev cart_runs : Rule
cart_runs = record {
  id = text "process-cart-exe";
  description = [];
  expectation = Presence.must_be_present;
  payload = RulePayload.process cart;
  version = none;
}

abbrev running : List ProcessInfo
running = record { executable = text "Cart.EXE"; version = none } ∷ []

abbrev wired : NetworkAdapter
wired = record {
  name = text "Ethernet";
  description = [];
  id = text "1";
  type = AdapterType.ethernet;
  link = LinkState.disconnected;
}

abbrev cart_topic : DdsTopicSample
cart_topic = record { topic_found = true; json = text "[7,\"B-2\"]"; has_sample = true; error = [] }

abbrev facts : HostFacts ℕ
facts = record {
  host_id = text "pc-1";
  resources = record {
    cpu_percent = 12;
    mem_total_bytes = 4096;
    mem_used_bytes = 1024;
    disks = [];
    adapters = wired ∷ [];
  };
  processes = running;
  services = [];
  registry = [];
  dds = (text "42/Cart", cart_topic) ∷ [];
}

abbrev bundle : TemplateBundle
bundle = record {
  revision = 3;
  hash = [];
  baseline = record { name = text "Baseline"; rules = cart_runs ∷ [] };
  templates = [];
  assignments = [];
}

abbrev skus_rule : DdsValueRule
skus_rule = record {
  domain_id = 42;
  topic_name = text "Cart";
  path = text "items_[*].sku";
  match = DdsMatch.equals;
  expected_value = text "B-2";
}

cart_found : (evaluate_process cart_runs cart running).status ≡ CheckStatus.pass
unfolding evaluate_process lab_monitor.Compliance.find_process lab_monitor.Base.find_if
    lab_monitor.Base.equals_ignore_case text
cart_found = refl

second_sku_passes :
    (check_values sample_json cart_runs skus_rule (
      Expected.value
        (Document.leaf (Leaf.number 7) ∷ Document.leaf (Leaf.word (text "B-2")) ∷ []))).status
    ≡ CheckStatus.pass
unfolding lab_monitor.Compliance.Dds.scan lab_monitor.Compliance.Dds.matches lab_monitor.Base.str_eq
    text lab_monitor.Compliance.Dds.readable
second_sku_passes = refl

evaluate-ids_example :
    let report = evaluate sample_json bundle facts no_capabilities in
    (result_ids report.results ≡ ids (rules_for bundle facts.host_id))
    × Distinct (result_ids report.results)
    × (report.host_id ≡ facts.host_id)
    × (report.applied_revision ≡ bundle.revision)
evaluate-ids_example = evaluate-ids sample_json bundle facts no_capabilities

abbrev seven : Document
seven = Document.leaf (Leaf.number 7)

check_values-status_example :
    let status =
      (check_values sample_json cart_runs skus_rule (Expected.value (seven ∷ []))).status in
    ((status ≡ CheckStatus.pass) ↔ Any (Matches sample_json skus_rule) (seven ∷ []))
    × ((status ≡ CheckStatus.error) ↔ All (IsIncomparable sample_json skus_rule) (seven ∷ []))
    × (status ≢ CheckStatus.not_applicable)
check_values-status_example = check_values-status sample_json skus_rule cart_runs seven []
