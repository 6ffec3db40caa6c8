-- ===== src/Bundle/Examples.antt =====
-- Runs of the bundle functions, and the theorems on them at a bundle whose ids are broken.
use lab_monitor.Base.{
  ◌≡◌, ◌≢◌, ◌⊎◌, refl, ℕ, Bool, true, false, Option, none, some, List, [], ◌∷◌, ◌++◌, map, All,
  Text, text, empty, member, Distinct,
}
use lab_monitor.Types.{Presence}
use lab_monitor.Rule.{Rule, RulePayload}
use lab_monitor.Bundle.{
  Template, TemplateBundle, slugify, ends_with_dash, base_id, candidate, unique_id, ids,
  ids_of_templates, all_ids, make_rule_id, deduplicate_rule_ids,
}
use lab_monitor.Bundle.Ids.{make_rule_id-free}
use lab_monitor.Bundle.Repair.{
  changed, changed_templates, template_without_ids, deduplicate-Distinct, deduplicate-kept,
  deduplicate_first_holder,
}

abbrev process_rule : Text → Text → Rule
process_rule id name = record {
  id = id;
  description = [];
  expectation = Presence.must_be_present;
  payload = RulePayload.process record { executable = name };
  version = none;
}

abbrev no_id : Rule
no_id = process_rule [] (text "cart.exe")

-- The second rule is the only one that holds an id, and it holds the one that the first will get.
abbrev holds_id : Rule
holds_id = process_rule (unique_id [] no_id) (text "cart.exe")

abbrev broken : TemplateBundle
broken = record {
  revision = 3;
  hash = text "0f";
  baseline = record { name = text "Baseline"; rules = no_id ∷ holds_id ∷ [] };
  templates = record { name = text "Render"; rules = holds_id ∷ [] } ∷ [];
  assignments = (text "pc-1", text "Render" ∷ text "Missing" ∷ []) ∷ [];
}

slug_run : slugify (text " Lab\\Notepad++.EXE ") ≡ text "lab-notepad-exe"
unfolding text slugify lab_monitor.Base.is_alnum lab_monitor.Base.to_lower
slug_run = refl

first_id : unique_id [] no_id ≡ text "process-cart-exe"
unfolding text unique_id member base_id slugify lab_monitor.Bundle.target_of
    lab_monitor.Base.is_alnum lab_monitor.Base.to_lower lab_monitor.Bundle.prefix_of
    lab_monitor.Rule.kind_of
first_id = refl

second_id : unique_id (text "process-cart-exe" ∷ []) no_id ≡ text "process-cart-exe-2"
unfolding text unique_id member lab_monitor.Base.str_eq base_id slugify lab_monitor.Bundle.target_of
    lab_monitor.Base.is_alnum lab_monitor.Base.to_lower lab_monitor.Bundle.prefix_of
    lab_monitor.Rule.kind_of lab_monitor.Base.Decimal.to_string
second_id = refl

make_rule_id-free_example :
    (member (make_rule_id broken no_id) (ids broken.baseline.rules) ≡ false)
    × (member (make_rule_id broken no_id) (ids_of_templates broken.templates) ≡ false)
make_rule_id-free_example = make_rule_id-free broken no_id

deduplicate-Distinct_example :
    Distinct (all_ids (deduplicate_rule_ids broken).0)
    × All (λ x. empty x ≡ false) (all_ids (deduplicate_rule_ids broken).0)
deduplicate-Distinct_example = deduplicate-Distinct broken

deduplicate-kept_example :
    let after = (deduplicate_rule_ids broken).0 in
    (after.revision ≡ broken.revision)
    × (after.hash ≡ broken.hash)
    × (after.assignments ≡ broken.assignments)
    × (template_without_ids after.baseline ≡ template_without_ids broken.baseline)
    × (map template_without_ids after.templates ≡ map template_without_ids broken.templates)
    × ((deduplicate_rule_ids broken).1
        ≡ changed broken.baseline.rules after.baseline.rules
          ++ changed_templates broken.templates after.templates)
deduplicate-kept_example = deduplicate-kept broken

deduplicate_first_holder_example :
    (no_id.id ≢ holds_id.id)
    × (ids (deduplicate_rule_ids broken).0.baseline.rules
        ≡ holds_id.id ∷ unique_id (holds_id.id ∷ []) holds_id ∷ [])
    × (holds_id.id ≢ unique_id (holds_id.id ∷ []) holds_id)
deduplicate_first_holder_example = deduplicate_first_holder broken no_id holds_id refl refl refl
