-- ===== src/Bundle/Repair.antt =====
-- What deduplicate_rule_ids of libs/core/src/template_bundle.cpp makes of a bundle.
use lab_monitor.Base.{
  ◌≡◌, ◌≢◌, refl, subst, ap, arith, true, false, not, ◌&&◌, List, [], ◌∷◌, ◌++◌, map, if◌then◌else◌,
  All, Text, str_eq, str_eq_iff, str_eq_refl, empty, member, Distinct, Bool-cases, inl, inr,
}
use mathlib.Core.Path.{ap₂}
use lab_monitor.Rule.{Rule}
use lab_monitor.Bundle.{
  Template, TemplateBundle, Repaired, RepairedTemplates, ids, ids_of_templates, all_ids, unique_id,
  repair, repair_templates, deduplicate_rule_ids,
}
use lab_monitor.Bundle.Ids.{unique_id-free, unique_id-ne_nil}

-- Each id is new when it is met: not empty, not seen before, and not met twice.
abbrev pub AreNew : List Text → List Text → Type 0
AreNew seen [] = Unit
AreNew seen (x ∷ xs) = (empty x ≡ false) × (member x seen ≡ false) × AreNew (x ∷ seen) xs

abbrev noted : List Text → List Text → List Text
noted seen [] = seen
noted seen (x ∷ xs) = noted (x ∷ seen) xs

AreNew-append :
    (seen xs ys : List Text) → AreNew seen xs → AreNew (noted seen xs) ys → AreNew seen (xs ++ ys)
AreNew-append seen [] ys h k = k
AreNew-append seen (x ∷ xs) ys h k = (h.0, h.1, AreNew-append (x ∷ seen) xs ys h.2 k)

-- The rule with its id taken out: what the repair must not touch.
abbrev pub without_id : Rule → Rule
without_id rule = record rule { id = [] }

abbrev id_changed : Text → Text → List (Text × Text)
id_changed old new = if str_eq old new then [] else (old, new) ∷ []

-- The pairs of old and new id, of the rules whose id is another one behind the repair.
abbrev pub changed : List Rule → List Rule → List (Text × Text)
changed [] after = []
changed (r ∷ before) [] = []
changed (r ∷ before) (s ∷ after) = id_changed r.id s.id ++ changed before after

-- What holds of the repair of a list of rules.
record IsRepair (seen : List Text) (rules : List Rule) (out : Repaired) : Type 0 where
  pub are_new : AreNew seen (ids out.rules)
  pub seen_after : out.seen ≡ noted seen (ids out.rules)
  pub kept : map without_id out.rules ≡ map without_id rules
  pub reported : out.renames ≡ changed rules out.rules

or_is_old :
    (x y : Text) (seen : List Text)
    → (not (empty x) && not (member x seen)) ≡ false
    → empty y ≡ false
    → member y seen ≡ false
    → str_eq x y ≡ false
or_is_old x y seen h e m = ground (arith, str_eq_iff x y)

repair-IsRepair : (rules : List Rule) (seen : List Text) → IsRepair seen rules (repair seen rules)
unfolding repair
repair-IsRepair [] seen = record { are_new = tt; seen_after = refl; kept = refl; reported = refl }
repair-IsRepair (rule ∷ rules) seen =
    elim (Bool-cases (not (empty rule.id) && not (member rule.id seen))) [
      | inl keep ↦
          let rest = repair-IsRepair rules (rule.id ∷ seen) in
          rw keep (record {
            are_new = ground (arith, rest.are_new);
            seen_after = rest.seen_after;
            kept = ap (λ l. without_id rule ∷ l) rest.kept;
            reported = rw (str_eq_refl rule.id) rest.reported;
          })
      | inr change ↦
          let new = unique_id seen rule in
          let rest = repair-IsRepair rules (new ∷ seen) in
          rw change (record {
            are_new = (unique_id-ne_nil seen rule, unique_id-free seen rule, rest.are_new);
            seen_after = rest.seen_after;
            kept = ap (λ l. without_id rule ∷ l) rest.kept;
            reported =
                rw
                  (or_is_old rule.id new seen change (unique_id-ne_nil seen rule)
                    (unique_id-free seen rule))
                  (ap (λ l. (rule.id, new) ∷ l) rest.reported);
          })
    ]

AreNew→Distinct :
    (seen xs : List Text)
    → AreNew seen xs
    → Distinct xs × ((x : Text) → member x seen ≡ true → member x xs ≡ false)
unfolding member
AreNew→Distinct seen [] h = (tt, λ x m. refl)
AreNew→Distinct seen (y ∷ xs) h =
    let (distinct, apart) = AreNew→Distinct (y ∷ seen) xs h.2 in
    ((apart y (rw (str_eq_refl y)), distinct), λ x m. ground (arith, str_eq_iff x y, apart x, h.1))

AreNew→nonempty : (seen xs : List Text) → AreNew seen xs → All (λ x. empty x ≡ false) xs
AreNew→nonempty seen [] h = tt
AreNew→nonempty seen (x ∷ xs) h = (h.0, AreNew→nonempty (x ∷ seen) xs h.2)

-- Rules whose ids are all new are left alone.
repair-new :
    (rules : List Rule) (seen : List Text)
    → AreNew seen (ids rules)
    → repair seen rules ≡ record { rules = rules; renames = []; seen = noted seen (ids rules) }
unfolding repair
repair-new [] seen h = refl
repair-new (rule ∷ rules) seen h = rw (h.0, h.1, repair-new rules (rule.id ∷ seen) h.2)

abbrev pub changed_templates : List Template → List Template → List (Text × Text)
changed_templates [] after = []
changed_templates (t ∷ before) [] = []
changed_templates (t ∷ before) (u ∷ after) =
    changed t.rules u.rules ++ changed_templates before after

-- A template with the ids of its rules taken out.
abbrev pub template_without_ids : Template → Template
template_without_ids tmpl = record tmpl { rules = map without_id tmpl.rules }

record AreRepaired (seen : List Text) (before : List Template) (out : RepairedTemplates)
    : Type 0 where
  pub are_new : AreNew seen (ids_of_templates out.templates)
  pub kept : map template_without_ids out.templates ≡ map template_without_ids before
  pub reported : out.renames ≡ changed_templates before out.templates

repair_templates-AreRepaired :
    (templates : List Template) (seen : List Text)
    → AreRepaired seen templates (repair_templates seen templates)
unfolding repair_templates ids_of_templates
repair_templates-AreRepaired [] seen = record { are_new = tt; kept = refl; reported = refl }
repair_templates-AreRepaired (tmpl ∷ templates) seen =
    let first = repair-IsRepair tmpl.rules seen in
    let out = repair seen tmpl.rules in
    let rest = repair_templates-AreRepaired templates out.seen in
    record {
      are_new =
          AreNew-append seen (ids out.rules)
            (ids_of_templates (repair_templates out.seen templates).templates) first.are_new
            (subst
              (λ s. AreNew s (ids_of_templates (repair_templates out.seen templates).templates))
              first.seen_after rest.are_new);
      kept = ap₂ (λ l m. (record tmpl { rules = l }) ∷ m) first.kept rest.kept;
      reported = ap₂ (λ l m. l ++ m) first.reported rest.reported;
    }

AreNew-split :
    (seen xs ys : List Text) → AreNew seen (xs ++ ys) → AreNew seen xs × AreNew (noted seen xs) ys
AreNew-split seen [] ys h = (tt, h)
AreNew-split seen (x ∷ xs) ys h =
    let (l, r) = AreNew-split (x ∷ seen) xs ys h.2 in ((h.0, h.1, l), r)

repair_templates-new :
    (templates : List Template) (seen : List Text)
    → AreNew seen (ids_of_templates templates)
    → repair_templates seen templates ≡ record { templates = templates; renames = [] }
unfolding repair_templates ids_of_templates
repair_templates-new [] seen h = refl
repair_templates-new (tmpl ∷ templates) seen h =
    let (l, r) = AreNew-split seen (ids tmpl.rules) (ids_of_templates templates) h in
    rw
      (repair-new tmpl.rules seen l, repair_templates-new templates (noted seen (ids tmpl.rules)) r)

-- The ids of a bundle are all new, in the order of the repair: the baseline's first.
all_ids-new : (bundle : TemplateBundle) → AreNew [] (all_ids (deduplicate_rule_ids bundle).0)
unfolding deduplicate_rule_ids all_ids
all_ids-new bundle =
    let base = repair-IsRepair bundle.baseline.rules [] in
    let out = repair [] bundle.baseline.rules in
    let rest = repair_templates-AreRepaired bundle.templates out.seen in
    AreNew-append [] (ids out.rules)
      (ids_of_templates (repair_templates out.seen bundle.templates).templates) base.are_new
      (subst
        (λ s. AreNew s (ids_of_templates (repair_templates out.seen bundle.templates).templates))
        base.seen_after rest.are_new)

-- Behind the repair no two rules of the bundle share an id, whether in the baseline or in templates,
-- and no rule has an empty one.
pub deduplicate-Distinct :
    (bundle : TemplateBundle)
    → Distinct (all_ids (deduplicate_rule_ids bundle).0)
      × All (λ x. empty x ≡ false) (all_ids (deduplicate_rule_ids bundle).0)
deduplicate-Distinct bundle =
    let ids_after = all_ids (deduplicate_rule_ids bundle).0 in
    (
      (AreNew→Distinct [] ids_after (all_ids-new bundle)).0,
      AreNew→nonempty [] ids_after (all_ids-new bundle),
    )

-- The repair changes nothing but ids: revision, hash, assignments, names and the rules up to their
-- ids stay, in their order; and the renames returned are the pairs of old and new id of exactly the
-- rules whose id has changed.
pub deduplicate-kept :
    (bundle : TemplateBundle)
    → let after = (deduplicate_rule_ids bundle).0 in
      (after.revision ≡ bundle.revision)
      × (after.hash ≡ bundle.hash)
      × (after.assignments ≡ bundle.assignments)
      × (template_without_ids after.baseline ≡ template_without_ids bundle.baseline)
      × (map template_without_ids after.templates ≡ map template_without_ids bundle.templates)
      × ((deduplicate_rule_ids bundle).1
          ≡ changed bundle.baseline.rules after.baseline.rules
            ++ changed_templates bundle.templates after.templates)
unfolding deduplicate_rule_ids
deduplicate-kept bundle =
    let base = repair-IsRepair bundle.baseline.rules [] in
    let rest =
      repair_templates-AreRepaired bundle.templates (repair [] bundle.baseline.rules).seen in
    (
      refl,
      refl,
      refl,
      ap (λ l. record bundle.baseline { rules = l }) base.kept,
      rest.kept,
      ap₂ (λ l m. l ++ m) base.reported rest.reported,
    )

-- A bundle whose ids are all new is left alone.
deduplicate-new : (b : TemplateBundle) → AreNew [] (all_ids b) → deduplicate_rule_ids b ≡ (b, [])
unfolding deduplicate_rule_ids all_ids
deduplicate-new b h =
    let (l, r) = AreNew-split [] (ids b.baseline.rules) (ids_of_templates b.templates) h in
    rw (
      repair-new b.baseline.rules [] l,
      repair_templates-new b.templates (noted [] (ids b.baseline.rules)) r,
    )

-- Repairing a repaired bundle changes nothing and reports no rename.
pub deduplicate_idem :
    (bundle : TemplateBundle)
    → deduplicate_rule_ids (deduplicate_rule_ids bundle).0 ≡ ((deduplicate_rule_ids bundle).0, [])
deduplicate_idem bundle = deduplicate-new (deduplicate_rule_ids bundle).0 (all_ids-new bundle)

-- A rule that is the first to hold its id does not always keep it: where the rule before it has no
-- id, and the id generated for that one is the id of the second, the two ids differ before the
-- repair, and the second rule is renamed all the same.
pub deduplicate_first_holder :
    (bundle : TemplateBundle) (r s : Rule)
    → bundle.baseline.rules ≡ r ∷ s ∷ []
    → r.id ≡ []
    → s.id ≡ unique_id [] r
    → (r.id ≢ s.id)
      × (ids (deduplicate_rule_ids bundle).0.baseline.rules ≡ s.id ∷ unique_id (s.id ∷ []) s ∷ [])
      × (s.id ≢ unique_id (s.id ∷ []) s)
unfolding deduplicate_rule_ids repair member
deduplicate_first_holder bundle r s e f g = (
  ground (arith, unique_id-ne_nil [] r),
  rw (e, f) (ground (arith, str_eq_refl s.id)),
  ground (
    arith,
    unique_id-free (s.id ∷ []) s,
    str_eq_refl s.id,
    str_eq_iff (unique_id (s.id ∷ []) s) s.id,
  ),
)
