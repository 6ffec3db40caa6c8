-- ===== src/BundleJson/Examples.antt =====
-- Runs of the readers of bundles, and the theorems on them at a bundle with a rule of most kinds.
use lab_monitor.Base.{
  ℕ, ◌≡◌, ◌≢◌, ◌<◌, ◌≤◌, ◌⊎◌, refl, arith, none, some, List, [], ◌∷◌, ◌++◌, All, Text, text, pos,
  length, false,
}
use lab_monitor.Base.Json.{Expected, JsonLibrary}
use lab_monitor.Base.SampleJson.{Document, json_with, skus, sample_json}
use lab_monitor.Types.{Presence, ServiceState, Comparison, LinkState}
use lab_monitor.Version.{VersionConstraint, ComparisonOp}
use lab_monitor.Rule.{Rule, RulePayload}
use lab_monitor.Bundle.{TemplateBundle}
use lab_monitor.BundleJson.{
  template_to_json, rule_to_json, names_to_json, version_to_json, constraint_to_json,
  bundle_to_json, serialise_bundle, parse_bundle,
}
use lab_monitor.BundleJson.RoundTrip.{IsWireBundle, parse_bundle-serialise_bundle}

abbrev rule_of : Text → RulePayload → Rule
rule_of id payload = record {
  id = id;
  description = text "as installed";
  expectation = Presence.must_be_present;
  payload = payload;
  version = none;
}

abbrev at_least_2_1 : VersionConstraint
at_least_2_1 = record { op = ComparisonOp.greater_equal; value = record { parts = 2 ∷ 1 ∷ [] } }

abbrev versioned : Rule
versioned =
    record (rule_of (text "process-cart")
      (RulePayload.process (record { executable = text "cart.exe" }))) {
        version = some at_least_2_1;
      }

abbrev sample_bundle : TemplateBundle
sample_bundle = record {
  revision = 7;
  hash = text "0f";
  baseline = record {
    name = text "Baseline";
    rules =
        versioned
        ∷ rule_of (text "service") (
            RulePayload.service (record {
              service_name = text "Spooler";
              expected_state = some ServiceState.running;
            }))
        ∷ [];
  };
  templates =
      record {
        name = text "Render";
        rules =
            rule_of (text "adapters") (
              RulePayload.adapter_count
                (record { comparison = Comparison.at_least; count = pos 2 }))
            ∷ rule_of (text "link") (
                RulePayload.adapter_state
                  (record { adapter_name = text "Ethernet"; expected = LinkState.no_media }))
            ∷ rule_of (text "topic")
                (RulePayload.dds_topic (record { domain_id = 42; topic_name = text "Cart" }))
            ∷ [];
      }
      ∷ [];
  assignments = (text "pc-1", text "Render" ∷ []) ∷ (text "pc-2", []) ∷ [];
}

abbrev json : JsonLibrary
json = json_with (bundle_to_json sample_json sample_bundle)

-- Writing does not look at the document that is to be dumped.
same_json :
    (d : Document) (bundle : TemplateBundle)
    → bundle_to_json (json_with d) bundle ≡ bundle_to_json (json_with skus) bundle
unfolding bundle_to_json template_to_json rule_to_json names_to_json version_to_json
    constraint_to_json
same_json d bundle = refl

two_parts : (n : ℕ) (ns : List ℕ) → (n ∷ ns) ≢ []
two_parts n ns h = cc

sample_IsWireBundle : IsWireBundle sample_bundle
unfolding lab_monitor.Base.text_ltb text
sample_IsWireBundle = record {
  revision = omega arith;
  baseline = ((tt, (two_parts 2 (1 ∷ []), (omega arith, (omega arith, tt)))), ((tt, tt), tt));
  templates = (((omega arith, tt), ((tt, tt), ((omega arith, tt), tt))), tt);
  assignments = ((refl, tt), (tt, tt));
}

parse_bundle-serialise_bundle_example :
    parse_bundle json (serialise_bundle json sample_bundle) ≡ Expected.value sample_bundle
parse_bundle-serialise_bundle_example =
    parse_bundle-serialise_bundle json sample_bundle sample_IsWireBundle
      (same_json (bundle_to_json sample_json sample_bundle) sample_bundle)

abbrev strange_payload : Document
strange_payload =
    sample_json.of_object ((text "type", sample_json.of_string (text "firewall")) ∷ [])

abbrev strange_rule : Document
strange_rule = sample_json.of_object (
    (text "id", sample_json.of_string (text "r1"))
    ∷ (text "description", sample_json.of_string [])
    ∷ (text "expectation", sample_json.of_string (text "MustBePresent"))
    ∷ (text "payload", strange_payload)
    ∷ [])
