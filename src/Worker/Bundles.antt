-- ===== src/Worker/Bundles.antt =====
-- The bundle that a client's worker holds, its report, and the warning that no server answers.
use lab_monitor.Base.{◌≡◌, refl, ap, ◌∙◌, true, false, List, [], ◌∷◌, ◌++◌, ◌==◌, map}
use lab_monitor.Base.Json.{JsonLibrary}
use lab_monitor.Facts.{HostFacts}
use lab_monitor.Rule.{Rule}
use lab_monitor.Types.{Capabilities}
use lab_monitor.Bundle.{TemplateBundle, rules_for}
use lab_monitor.BundleJson.{serialise_bundle, bundle_to_json}
use lab_monitor.BundleJson.RoundTrip.{IsWireBundle, parse_bundle-serialise_bundle}
use lab_monitor.Compliance.{CheckResult}
use lab_monitor.Compliance.Evaluate.{evaluate, evaluate_rules}
use lab_monitor.Compliance.Reports.{evaluate_rule-not_applicable}
use lab_monitor.Bus.{TemplateBundleMessage}
use lab_monitor.RuleDetail.{Qt, Detail, describe, describe_id}
use lab_monitor.Worker.{Setup, Worker, Output, unless_paused, evaluate_compliance, on_bundle}

module _ (J : JsonLibrary) (Q : Qt) (setup : Setup) where
  -- The message that a server sends for a bundle.
  abbrev pub message_of_bundle : TemplateBundle → TemplateBundleMessage
  message_of_bundle bundle = record {
    revision = bundle.revision;
    hash = bundle.hash;
    json = serialise_bundle J bundle;
  }

  -- A bundle with another revision than the one held, whose numbers fit the types of the source, whose
  -- versions are not empty, whose assignments are in the order of a std::map and whose JSON can be
  -- dumped, sent as serialise_bundle writes it: the worker then holds this very
  -- bundle, says its revision and evaluates it, and it has heard the server; nothing else changes.
  pub on_bundle-serialise_bundle :
      (w : Worker) (bundle : TemplateBundle) (collect : TemplateBundle → HostFacts J.Double)
      → IsWireBundle bundle
      → J.IsPrintable (bundle_to_json J bundle)
      → (bundle.revision == w.bundle.revision) ≡ false
      → let v : Worker = record w { heard_server = true; bundle = bundle } in
        on_bundle J Q setup w (message_of_bundle bundle) collect
        ≡ (v, Output.template_applied bundle.revision ∷ (evaluate_compliance J Q setup v collect).1)
  unfolding on_bundle evaluate_compliance
  on_bundle-serialise_bundle w bundle collect wire printable other =
      rw (other, parse_bundle-serialise_bundle J bundle wire printable) refl

  rows :
      (rules : List Rule) (facts : HostFacts J.Double) (caps : Capabilities)
      → map (λ (r : CheckResult). Q.to_qstring r.rule_id) (evaluate_rules J rules facts caps)
        ≡ map (λ (d : Detail Q). d.id) (map (describe Q) rules)
  unfolding evaluate_rules
  rows [] facts caps = refl
  rows (rule ∷ rules) facts caps =
      rw
        (
          (evaluate_rule-not_applicable J rule facts caps).1,
          describe_id Q rule,
          rows rules facts caps,
        )
        refl

  -- Where the probes find facts on this host, the rows of the report that the worker shows name the
  -- same rules, in the same order, as the details that it shows beside them.
  pub report_rows :
      (w : Worker) (collect : TemplateBundle → HostFacts J.Double)
      → (collect w.bundle).host_id ≡ setup.host_id
      → let report = evaluate J w.bundle (collect w.bundle) setup.capabilities in
        let details = map (describe Q) (rules_for w.bundle setup.host_id) in
        ((evaluate_compliance J Q setup w collect).1
          ≡ unless_paused J Q setup w (Output.publish_report (record { report = report }))
            ++ (Output.report_ready report details ∷ []))
        × (map (λ (r : CheckResult). Q.to_qstring r.rule_id) report.results
            ≡ map (λ (d : Detail Q). d.id) details)
  unfolding evaluate_compliance evaluate
  report_rows w collect h = (
    refl,
    ap
          (λ host_id.
            map (λ (r : CheckResult). Q.to_qstring r.rule_id)
              (evaluate_rules J (rules_for w.bundle host_id) (collect w.bundle) setup.capabilities))
          h
        ∙ rows (rules_for w.bundle setup.host_id) (collect w.bundle) setup.capabilities,
  )
