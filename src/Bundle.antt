-- ===== src/Bundle.antt =====
-- libs/core/include/lm/core/template_bundle.hpp and libs/core/src/template_bundle.cpp: templates, the
-- rules that apply to a host, and the generation and repair of rule ids. A set of strings is a list.
pub mod Slug
pub mod Ids
pub mod RulesFor
pub mod Repair
mod Examples
use mathlib.Core.List.{reverse}
use lab_monitor.Base.{
  ℕ, zero, suc, ◌+◌, Bool, true, false, not, ◌&&◌, Option, none, some, List, [], ◌∷◌, ◌++◌, map,
  ◌==◌, if◌then◌else◌, length, find_if, Text, text, str_eq, empty, member, is_alnum, to_lower,
  equals_ignore_case,
}
use lab_monitor.Base.Decimal.{to_string}
use lab_monitor.Base.OrderedMap
use lab_monitor.Base.OrderedMap.{Map}
use lab_monitor.Types.{RuleKind}
use lab_monitor.Rule.{Rule, RulePayload, RegistryRule, DdsValueRule, kind_of}

pub record Template : Type 0 where
  pub name : Text
  pub rules : List Rule

pub record TemplateBundle : Type 0 where
  pub revision : ℕ
  pub hash : Text
  pub baseline : Template
  pub templates : List Template
  pub assignments : Map (List Text)

unfoldable pub is_baseline_name : Text → Bool
is_baseline_name name = equals_ignore_case name (text "Baseline")

-- The last character of the slug so far; the slug is kept with its last character first.
abbrev ends_with_dash : Text → Bool
ends_with_dash [] = false
ends_with_dash (c ∷ _) = c == b'-'

unfoldable pub push_slug : ℕ → Text → Text
push_slug ch slug =
    if is_alnum ch
    then to_lower ch ∷ slug
    else if not (empty slug) && not (ends_with_dash slug)
    then b'-' ∷ slug
    else slug

unfoldable pub slugify_from : Text → Text → Text
slugify_from slug [] = slug
slugify_from slug (ch ∷ rest) = slugify_from (push_slug ch slug) rest

-- The loop that pops the dashes at the end.
unfoldable pub trim_dashes : Text → Text
trim_dashes [] = []
trim_dashes (c ∷ slug) = if c == b'-' then trim_dashes slug else c ∷ slug

unfoldable pub slugify : Text → Text
unfolding push_slug slugify_from trim_dashes
slugify s = reverse (trim_dashes (slugify_from [] s))

unfoldable pub prefix_of : RuleKind → Text
prefix_of RuleKind.process = text "process"
prefix_of RuleKind.service = text "service"
prefix_of RuleKind.registry = text "registry"
prefix_of RuleKind.network = text "network"
prefix_of RuleKind.dds = text "dds"

-- The text behind the last `\` or `/`, or the whole text if there is none: find_last_of and substr.
unfoldable pub leaf_from : Text → Text → Text
leaf_from leaf [] = leaf
leaf_from leaf (c ∷ rest) =
    leaf_from (if c == b'\\' then rest else if c == b'/' then rest else leaf) rest

abbrev registry_target : RegistryRule → Text
registry_target registry =
    if not (empty registry.value_name)
    then registry.value_name
    else leaf_from registry.key_path registry.key_path

abbrev dds_value_target : DdsValueRule → Text
dds_value_target value =
    if empty value.path then value.topic_name else value.topic_name ++ (b'-' ∷ value.path)

abbrev pub target_of_payload : RulePayload → Text
target_of_payload (RulePayload.process p) = p.executable
target_of_payload (RulePayload.service s) = s.service_name
target_of_payload (RulePayload.adapter_state s) = s.adapter_name
target_of_payload (RulePayload.adapter_count _) = text "adapters"
target_of_payload (RulePayload.dds_topic t) = t.topic_name
target_of_payload (RulePayload.dds_value v) = dds_value_target v
target_of_payload (RulePayload.registry r) = registry_target r

unfoldable pub target_of : Rule → Text
unfolding leaf_from
target_of rule = target_of_payload rule.payload

unfoldable pub base_id : Rule → Text
base_id rule =
    let target = slugify (target_of rule) in
    if not (empty target)
    then prefix_of (kind_of rule) ++ (b'-' ∷ target)
    else prefix_of (kind_of rule)

abbrev pub candidate : Text → ℕ → Text
candidate base suffix = base ++ (b'-' ∷ to_string suffix)

-- The loop over the suffixes, with the rounds left: one for each taken id, behind which the last
-- candidate stands.
unfoldable pub next_free : ℕ → List Text → Text → ℕ → Text
next_free zero taken base suffix = candidate base suffix
next_free (suc left) taken base suffix =
    let rest = next_free left taken base (suffix + 1) in
    if not (member (candidate base suffix) taken) then candidate base suffix else rest

unfoldable pub unique_id : List Text → Rule → Text
unfolding next_free
unique_id taken rule =
    let base = base_id rule in
    if not (member base taken) then base else next_free (length taken) taken base 2

abbrev pub ids : List Rule → List Text
ids rules = map (λ (r : Rule). r.id) rules

unfoldable pub ids_of_templates : List Template → List Text
ids_of_templates [] = []
ids_of_templates (tmpl ∷ templates) = ids tmpl.rules ++ ids_of_templates templates

unfoldable pub all_ids : TemplateBundle → List Text
unfolding ids_of_templates
all_ids bundle = ids bundle.baseline.rules ++ ids_of_templates bundle.templates

-- The two variables that the closure `append` of rules_for changes.
pub record Collected : Type 0 where
  pub result : List Rule
  pub seen : List Text

unfoldable pub append : Collected → List Rule → Collected
append c [] = c
append c (rule ∷ rules) =
    append
      (if member rule.id c.seen
        then c
        else record { result = c.result ++ rule ∷ []; seen = rule.id ∷ c.seen })
      rules

abbrev append_found : Collected → Option Template → Collected
append_found c none = c
append_found c (some tmpl) = append c tmpl.rules

unfoldable pub find_template : List Template → Text → Option Template
find_template templates name = find_if (λ (t : Template). str_eq t.name name) templates

unfoldable pub append_assigned : List Template → Collected → List Text → Collected
append_assigned templates c [] = c
append_assigned templates c (name ∷ names) =
    append_assigned templates (append_found c (find_template templates name)) names

abbrev append_assignment : List Template → Collected → Option (List Text) → Collected
append_assignment templates c none = c
append_assignment templates c (some names) = append_assigned templates c names

unfoldable pub rules_for : TemplateBundle → Text → List Rule
unfolding append append_assigned find_template
rules_for bundle host_id =
    let start : Collected = record { result = []; seen = [] } in
    (append_assignment bundle.templates (append start bundle.baseline.rules)
      (OrderedMap.find host_id bundle.assignments)).result

unfoldable pub make_rule_id : TemplateBundle → Rule → Text
unfolding all_ids
make_rule_id bundle rule = unique_id (all_ids bundle) rule

-- What the closure `repair` of deduplicate_rule_ids has behind it.
pub record Repaired : Type 0 where
  pub rules : List Rule
  pub renames : List (Text × Text)
  pub seen : List Text

-- One round of the loop over the rules of a template: the rule as it is left, the rename if there is
-- one, and the set of ids seen.
unfoldable pub repair_rule : List Text → Rule → Repaired
repair_rule seen rule =
    if not (empty rule.id) && not (member rule.id seen)
    then record { rules = rule ∷ []; renames = []; seen = rule.id ∷ seen }
    else (let replacement = unique_id seen rule in
        record {
          rules = (record rule { id = replacement }) ∷ [];
          renames = (rule.id, replacement) ∷ [];
          seen = replacement ∷ seen;
        })

unfoldable pub repair : List Text → List Rule → Repaired
unfolding repair_rule
repair seen [] = record { rules = []; renames = []; seen = seen }
repair seen (rule ∷ rules) =
    let first = repair_rule seen rule in
    let rest = repair first.seen rules in
    record {
      rules = first.rules ++ rest.rules;
      renames = first.renames ++ rest.renames;
      seen = rest.seen;
    }

pub record RepairedTemplates : Type 0 where
  pub templates : List Template
  pub renames : List (Text × Text)

unfoldable pub repair_templates : List Text → List Template → RepairedTemplates
repair_templates seen [] = record { templates = []; renames = [] }
repair_templates seen (tmpl ∷ templates) =
    let first = repair seen tmpl.rules in
    let rest = repair_templates first.seen templates in
    record {
      templates = (record tmpl { rules = first.rules }) ∷ rest.templates;
      renames = first.renames ++ rest.renames;
    }

-- The bundle that the call leaves behind, and the renames that it returns.
unfoldable pub deduplicate_rule_ids : TemplateBundle → TemplateBundle × List (Text × Text)
unfolding repair repair_templates
deduplicate_rule_ids bundle =
    let base = repair [] bundle.baseline.rules in
    let rest = repair_templates base.seen bundle.templates in
    (
      record bundle {
        baseline = record bundle.baseline { rules = base.rules };
        templates = rest.templates;
      },
      base.renames ++ rest.renames,
    )
