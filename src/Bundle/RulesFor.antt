-- ===== src/Bundle/RulesFor.antt =====
-- Which rules apply to a host: the baseline's and then the assigned templates', one for each id.
use lab_monitor.Base.{
  ◌≡◌, refl, sym, ◌∙◌, arith, Bool, true, false, Option, none, some, List, [], ◌∷◌, ◌++◌,
  append_assoc, append-nil, if◌then◌else◌, find_if, Text, str_eq, str_eq_iff, member, member-append,
  Distinct, Bool-cases, inl, inr,
}
use lab_monitor.Base.OrderedMap
use lab_monitor.Rule.{Rule}
use lab_monitor.Bundle.{
  Template, TemplateBundle, Collected, ids, append, find_template, append_found, append_assigned,
  append_assignment, rules_for,
}

-- The first rule with an id.
pub holder : Text → List Rule → Option Rule
holder x rules = find_if (λ (r : Rule). str_eq r.id x) rules

-- What rules_for goes through: each assigned template that exists, in the order of the assignment.
abbrev pub found_rules : Option Template → List Rule
found_rules none = []
found_rules (some tmpl) = tmpl.rules

abbrev pub assigned_rules : List Template → List Text → List Rule
assigned_rules templates [] = []
assigned_rules templates (name ∷ names) =
    found_rules (find_template templates name) ++ assigned_rules templates names

abbrev pub names_of : Option (List Text) → List Text
names_of none = []
names_of (some names) = names

abbrev pub applying : TemplateBundle → Text → List Rule
applying bundle host_id =
    bundle.baseline.rules
    ++ assigned_rules bundle.templates (names_of (OrderedMap.find host_id bundle.assignments))

abbrev or_else : Option Rule → Option Rule → Option Rule
or_else none b = b
or_else (some r) b = some r

holder-append : (x : Text) (l m : List Rule) → holder x (l ++ m) ≡ or_else (holder x l) (holder x m)
unfolding holder find_if
holder-append x [] m = refl
holder-append x (r ∷ l) m = ground (arith, holder-append x l m)

abbrev is_some : Option Rule → Bool
is_some none = false
is_some (some r) = true

holder-member : (x : Text) (l : List Rule) → is_some (holder x l) ≡ member x (ids l)
unfolding holder find_if member
holder-member x [] = refl
holder-member x (r ∷ l) = ground (arith, str_eq_iff r.id x, str_eq_iff x r.id, holder-member x l)

Distinct-concat :
    (x : Text) (l : List Text) → Distinct l → member x l ≡ false → Distinct (l ++ x ∷ [])
unfolding member
Distinct-concat x [] d h = (refl, tt)
Distinct-concat x (t ∷ l) d h =
    ground
      (arith, Distinct-concat x l d.1, member-append t l (x ∷ []), str_eq_iff t x, str_eq_iff x t)

-- Between two rounds, `done` holds the rules gone through.
record Inv (c : Collected) (done : List Rule) : Type 0 where
  noted : (x : Text) → member x c.seen ≡ member x (ids c.result)
  distinct : Distinct (ids c.result)
  first : (x : Text) → holder x c.result ≡ holder x done

ids-concat : (l : List Rule) (r : Rule) → ids (l ++ r ∷ []) ≡ ids l ++ r.id ∷ []
ids-concat [] r = refl
ids-concat (s ∷ l) r = rw (ids-concat l r)

holder_one : (x : Text) (r : Rule) → holder x (r ∷ []) ≡ (if str_eq r.id x then some r else none)
unfolding holder find_if
holder_one x r = refl

holder_old :
    (x : Text) (done : List Rule) (r : Rule)
    → is_some (holder r.id done) ≡ true
    → holder x (done ++ r ∷ []) ≡ holder x done
holder_old x done r h =
    holder-append x done (r ∷ []) ∙ rw (holder_one x r) (ground (arith, str_eq_iff r.id x))

module _ (c : Collected) (done : List Rule) (inv : Inv c done) (r : Rule) where
  Inv-skip : member r.id c.seen ≡ true → Inv c (done ++ r ∷ [])
  Inv-skip m = record {
    noted = inv.noted;
    distinct = inv.distinct;
    first = λ x.
        inv.first x
        ∙ sym (
            holder_old x done r
              (rw (← inv.first r.id) (holder-member r.id c.result ∙ sym (inv.noted r.id) ∙ m)));
  }

  Inv-push :
      member r.id c.seen ≡ false
      → Inv (record { result = c.result ++ r ∷ []; seen = r.id ∷ c.seen }) (done ++ r ∷ [])
  unfolding member
  Inv-push m = record {
    noted = λ x.
        rw (ids-concat c.result r, member-append x (ids c.result) (r.id ∷ []))
          (ground (arith, inv.noted x));
    distinct =
        rw (ids-concat c.result r)
          (Distinct-concat r.id (ids c.result) inv.distinct (sym (inv.noted r.id) ∙ m));
    first = λ x. rw (holder-append x c.result (r ∷ []), holder-append x done (r ∷ []), inv.first x);
  }

append-Inv :
    (rules : List Rule) (c : Collected) (done : List Rule)
    → Inv c done
    → Inv (append c rules) (done ++ rules)
unfolding append
append-Inv [] c done inv = rw append-nil inv
append-Inv (r ∷ rules) c done inv = elim (Bool-cases (member r.id c.seen)) [
  | inl m ↦ rw m (
      rw (append_assoc done (r ∷ []) rules) at
        (append-Inv rules c (done ++ r ∷ []) (Inv-skip c done inv r m)))
  | inr m ↦ rw m (
      rw (append_assoc done (r ∷ []) rules) at (
        append-Inv rules (record { result = c.result ++ r ∷ []; seen = r.id ∷ c.seen })
          (done ++ r ∷ []) (Inv-push c done inv r m)))
]

append_found-Inv :
    (found : Option Template) (c : Collected) (done : List Rule)
    → Inv c done
    → Inv (append_found c found) (done ++ found_rules found)
append_found-Inv none c done inv = rw append-nil inv
append_found-Inv (some tmpl) c done inv = append-Inv tmpl.rules c done inv

append_assigned-Inv :
    (templates : List Template) (names : List Text) (c : Collected) (done : List Rule)
    → Inv c done
    → Inv (append_assigned templates c names) (done ++ assigned_rules templates names)
unfolding append_assigned
append_assigned-Inv templates [] c done inv = rw append-nil inv
append_assigned-Inv templates (name ∷ names) c done inv =
    let found = find_template templates name in
    rw (← append_assoc done (found_rules found) (assigned_rules templates names)) (
      append_assigned-Inv templates names (append_found c found) (done ++ found_rules found)
        (append_found-Inv found c done inv))

pub rules_for-first :
    (bundle : TemplateBundle) (host_id : Text)
    → Distinct (ids (rules_for bundle host_id))
      × ((x : Text) → holder x (rules_for bundle host_id) ≡ holder x (applying bundle host_id))
unfolding rules_for member
rules_for-first bundle host_id = go (OrderedMap.find host_id bundle.assignments)
  where
    start : Collected
    start = record { result = []; seen = [] }

    base : Inv (append start bundle.baseline.rules) bundle.baseline.rules
    base =
        append-Inv bundle.baseline.rules start []
          (record { noted = λ x. refl; distinct = tt; first = λ x. refl })

    go :
        (names : Option (List Text))
        → Distinct (
            ids
              (append_assignment bundle.templates
                (append start bundle.baseline.rules)
                names).result)
          × ((x : Text)
              → holder x
                  (append_assignment bundle.templates
                    (append start bundle.baseline.rules)
                    names).result
                ≡ holder x
                    (bundle.baseline.rules ++ assigned_rules bundle.templates (names_of names)))
    go none = (base.distinct, λ x. rw append-nil (base.first x))
    go (some names) =
        let inv =
          append_assigned-Inv bundle.templates names (append start bundle.baseline.rules)
            bundle.baseline.rules base in
        (inv.distinct, inv.first)
