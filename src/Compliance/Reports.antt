-- ===== src/Compliance/Reports.antt =====
-- What every report has: a result for each rule, the meaning of not applicable, and the summary.
use lab_monitor.Base.{
  ◌+◌, ◌≡◌, ◌≢◌, ◌↔◌, refl, sym, subst, arith, true, false, List, [], ◌∷◌, map, All, length,
  count_if, Text, Distinct, Bool-cases, inl, inr,
}
use mathlib.Core.Path.{ap₂}
use lab_monitor.Base.Json.{JsonLibrary}
use lab_monitor.Types.{CheckStatus, Capabilities, has, required_capability, status_eq}
use lab_monitor.Rule.{Rule, kind_of}
use lab_monitor.Bundle.{TemplateBundle, ids, rules_for}
use lab_monitor.Bundle.RulesFor.{rules_for-first}
use lab_monitor.Facts.{HostFacts}
use lab_monitor.Compliance.{
  CheckResult, ComplianceReport, count_by_status, is_compliant, summarise, total,
}
use lab_monitor.Compliance.Evaluate.{not_checked, evaluate_rule, evaluate_rules, evaluate}
use lab_monitor.Compliance.Answers.{evaluate_payload-IsAnswer}

-- The rule ids of the results.
abbrev pub result_ids : List CheckResult → List Text
result_ids results = map (λ (r : CheckResult). r.rule_id) results

module _ (J : JsonLibrary) where
  -- A rule is not applicable exactly when the client lacks the capability that its kind needs; the
  -- result names the rule either way, and is silent where it passes or does not apply.
  pub evaluate_rule-not_applicable :
      (rule : Rule) (facts : HostFacts J.Double) (caps : Capabilities)
      → let r = evaluate_rule J rule facts caps in
        ((r.status ≡ CheckStatus.not_applicable)
          ↔ (has caps (required_capability (kind_of rule)) ≡ false))
        × (r.rule_id ≡ rule.id)
        × (r.status ≡ CheckStatus.pass → r.message ≡ [])
        × (r.status ≡ CheckStatus.not_applicable → r.message ≡ [])
  unfolding evaluate_rule not_checked
  evaluate_rule-not_applicable rule facts caps =
      elim (Bool-cases (has caps (required_capability (kind_of rule)))) [
        | inl h ↦
            let a = evaluate_payload-IsAnswer J rule rule.payload facts in
            rw h (
              (λ e. absurd (a.applicable e), λ e. cc),
              a.named,
              a.quiet,
              λ e. absurd (a.applicable e),
            )
        | inr h ↦ rw (h) ((λ e. refl, λ e. refl), refl, (λ e. refl), λ e. refl)
      ]

  result_ids-rules :
      (rules : List Rule) (facts : HostFacts J.Double) (caps : Capabilities)
      → result_ids (evaluate_rules J rules facts caps) ≡ ids rules
  unfolding evaluate_rules
  result_ids-rules [] facts caps = refl
  result_ids-rules (rule ∷ rules) facts caps =
      ap₂ (λ x l. x ∷ l) (evaluate_rule-not_applicable rule facts caps).1
        (result_ids-rules rules facts caps)

  -- A report has one result for each rule that applies to the host, in the order of rules_for and
  -- under the rule's id, so no id stands in it twice; and it carries the host and the revision.
  pub evaluate-ids :
      (bundle : TemplateBundle) (facts : HostFacts J.Double) (caps : Capabilities)
      → let report = evaluate J bundle facts caps in
        (result_ids report.results ≡ ids (rules_for bundle facts.host_id))
        × Distinct (result_ids report.results)
        × (report.host_id ≡ facts.host_id)
        × (report.applied_revision ≡ bundle.revision)
  unfolding evaluate
  evaluate-ids bundle facts caps =
      let same = result_ids-rules (rules_for bundle facts.host_id) facts caps in
      (same, subst Distinct (sym same) (rules_for-first bundle facts.host_id).0, refl, refl)

statuses_sum :
    (results : List CheckResult)
    → count_if (λ (r : CheckResult). status_eq r.status CheckStatus.pass) results
        + count_if (λ (r : CheckResult). status_eq r.status CheckStatus.fail) results
        + count_if (λ (r : CheckResult). status_eq r.status CheckStatus.error) results
        + count_if (λ (r : CheckResult). status_eq r.status CheckStatus.not_applicable) results
      ≡ length results
unfolding count_if
statuses_sum [] = refl
statuses_sum (r ∷ results) = ground (arith, statuses_sum results)

none_fail :
    (results : List CheckResult)
    → count_if (λ (r : CheckResult). status_eq r.status CheckStatus.fail) results ≡ 0
    → All (λ (r : CheckResult). r.status ≢ CheckStatus.fail) results
unfolding count_if
none_fail [] h = tt
none_fail (r ∷ results) h = (λ e. ground arith, none_fail results (ground arith))

no_count :
    (results : List CheckResult)
    → All (λ (r : CheckResult). r.status ≢ CheckStatus.fail) results
    → count_if (λ (r : CheckResult). status_eq r.status CheckStatus.fail) results ≡ 0
unfolding count_if
no_count [] h = refl
no_count (r ∷ results) h = ground (arith, no_count results h.1)

-- The summary of a report counts every result once, and the host is compliant exactly when none of
-- its results is a failure: errors and what does not apply do not count against it.
pub summarise-total :
    (report : ComplianceReport)
    → (total (summarise report) ≡ length report.results)
      × ((is_compliant report ≡ true) ↔ ((summarise report).failing ≡ 0))
      × ((is_compliant report ≡ true)
          ↔ All (λ (r : CheckResult). r.status ≢ CheckStatus.fail) report.results)
unfolding summarise is_compliant count_by_status
summarise-total report = (
  statuses_sum report.results,
  ground arith,
  (λ h. none_fail report.results (ground arith), λ h. rw (no_count report.results h)),
)
