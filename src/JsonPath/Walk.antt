-- ===== src/JsonPath/Walk.antt =====
-- What a walk does to the vector of values, and which values a path addresses.
use lab_monitor.Base.{
  ℕ, ◌+◌, ◌≡◌, ◌≢◌, refl, sym, ◌∙◌, ap, arith, Bool, true, false, Option, none, some, List, [], ◌∷◌,
  ◌++◌, append-nil, append_assoc, ◌==◌, ==_iff, All, if◌then◌else◌, length, length-append, Text,
  Bool-cases, inl, inr,
}
use lab_monitor.Base.Json.{Expected, View, JsonLibrary}
use lab_monitor.JsonPath.{PathFailure, Segment, field, index, any_index}
use lab_monitor.JsonPath.Resolve.{
  Walked, append_leaf, leaf_length, walk_on, field_of, element_of, walk_elements, fork_result,
  walk_fork, walk, index_walked, field_walked, first_of_failures,
}

length-zero : {A : Type 0} (xs : List A) → length xs ≡ 0 → xs ≡ []
length-zero [] h = refl
length-zero (x ∷ xs) h = absurd (omega arith)

if_same : {A : Type 0} (b : Bool) (x : A) → (if b then x else x) ≡ x
if_same true x = refl
if_same false x = refl

-- A segment other than the wildcard.
abbrev pub IsSingular : Segment → Type 0
IsSingular any_index = ⊥
IsSingular _ = Unit

module _ (J : JsonLibrary) where
  open J use {Json, Double, view, of_size}

  -- The walk has left the vector with new values behind the old ones, and with none if it failed.
  abbrev pub Appends : List Json → Walked J → Type 0
  Appends out (failed, out') =
      (news : List Json) × (out' ≡ out ++ news) × (failed ≢ none → news ≡ [])

  fails : (out : List Json) (e : PathFailure) → Appends out (some e, out)
  fails out e = ([], sym (append-nil out), λ h. refl)

  Appends-one : (out : List Json) (v : Json) → Appends out (none, out ++ v ∷ [])
  Appends-one out v = (v ∷ [], refl, λ h. absurd (h refl))

  leaf_length-Appends :
      (v : View Json Double) (walked : Text) (out : List Json)
      → Appends out (leaf_length J v walked out)
  leaf_length-Appends (View.string s) walked out = Appends-one out (of_size (length s))
  leaf_length-Appends (View.array xs) walked out = Appends-one out (of_size (length xs))
  leaf_length-Appends (View.object ms) walked out = Appends-one out (of_size (length ms))
  leaf_length-Appends _ walked out = fails out _

  append_leaf-Appends :
      (node : Json) (projection : Bool) (walked : Text) (out : List Json)
      → Appends out (append_leaf J node projection walked out)
  unfolding append_leaf
  append_leaf-Appends node false walked out = Appends-one out node
  append_leaf-Appends node true walked out = leaf_length-Appends (view node) walked out

  walk_on-Appends :
      (go : Json → Walked J) (out : List Json) (e : Expected Json PathFailure)
      → ((next : Json) → Appends out (go next))
      → Appends out (walk_on J go out e)
  walk_on-Appends go out (Expected.unexpected e) h = fails out e
  walk_on-Appends go out (Expected.value node) h = h node

  -- The loop over the elements appends too, and nothing is lost where a branch fails.
  elements-Append :
      (branch : Json → Text → List Json → Walked J)
      → ((node : Json) (walked : Text) (out : List Json) → Appends out (branch node walked out))
      → (elements : List Json) (i : ℕ) (walked : Text) (first : Option PathFailure)
        (out : List Json)
      → (news : List Json) × ((walk_elements J branch elements i walked first out).1 ≡ out ++ news)
  unfolding walk_elements
  elements-Append branch h [] i walked first out = ([], sym (append-nil out))
  elements-Append branch h (node ∷ elements) i walked first out =
      let (one, e, _) = h node (index_walked J i walked) out in
      let step = branch node (index_walked J i walked) out in
      let (more, f) =
        elements-Append branch h elements (i + 1) walked (first_of_failures J first step.0)
          step.1 in
      (one ++ more, f ∙ ap (λ o. o ++ more) e ∙ append_assoc out one more)

  fork-Appends :
      (out : List Json) (w : Walked J)
      → ((news : List Json) × (w.1 ≡ out ++ news))
      → Appends out (fork_result J (length out) w)
  fork-Appends out (first, out') (news, e) = elim (Bool-cases (length out' == length out)) [
    | inl same ↦ rw same (
      news,
      e,
      λ h. length-zero news (
          omega (
            arith,
            (==_iff (length out') (length out)).0 same,
            ap length e,
            length-append out news,
          )),
    )
    | inr other ↦ rw other (news, e, λ h. absurd (h refl))
  ]

  fork_at-Appends :
      (branch : Json → Text → List Json → Walked J)
      → ((node : Json) (walked : Text) (out : List Json) → Appends out (branch node walked out))
      → (walked : Text) (out : List Json) (v : View Json Double)
      → Appends out (walk_fork J branch walked out v)
  fork_at-Appends branch h walked out (View.array elements) =
      fork-Appends out (walk_elements J branch elements 0 walked none out)
        (elements-Append branch h elements 0 walked none out)
  fork_at-Appends branch h walked out _ = fails out _

  -- A walk leaves the values that were there, puts the values that it finds behind them, and finds
  -- none if it fails.
  pub walk-Appends :
      (projection : Bool) (segments : List Segment) (node : Json) (walked : Text) (out : List Json)
      → Appends out (walk J projection segments node walked out)
  unfolding walk
  walk-Appends projection [] node walked out = append_leaf-Appends node projection walked out
  walk-Appends projection (field name ∷ segments) node walked out =
      walk_on-Appends (λ next. walk J projection segments next (field_walked J name walked) out) out
        (field_of J name walked (view node))
        (λ next. walk-Appends projection segments next (field_walked J name walked) out)
  walk-Appends projection (index i ∷ segments) node walked out =
      walk_on-Appends (λ next. walk J projection segments next (index_walked J i walked) out) out
        (element_of J i walked (view node))
        (λ next. walk-Appends projection segments next (index_walked J i walked) out)
  walk-Appends projection (any_index ∷ segments) node walked out =
      fork_at-Appends (walk J projection segments) (walk-Appends projection segments) walked out
        (view node)

  -- The walk has found one value, or failed.
  abbrev pub FindsOne : List Json → Walked J → Type 0
  FindsOne out (none, out') = (v : Json) × (out' ≡ out ++ v ∷ [])
  FindsOne out (some e, out') = out' ≡ out

  leaf_length-FindsOne :
      (v : View Json Double) (walked : Text) (out : List Json)
      → FindsOne out (leaf_length J v walked out)
  leaf_length-FindsOne (View.string s) walked out = (of_size (length s), refl)
  leaf_length-FindsOne (View.array xs) walked out = (of_size (length xs), refl)
  leaf_length-FindsOne (View.object ms) walked out = (of_size (length ms), refl)
  leaf_length-FindsOne _ walked out = refl

  append_leaf-FindsOne :
      (node : Json) (projection : Bool) (walked : Text) (out : List Json)
      → FindsOne out (append_leaf J node projection walked out)
  unfolding append_leaf
  append_leaf-FindsOne node false walked out = (node, refl)
  append_leaf-FindsOne node true walked out = leaf_length-FindsOne (view node) walked out

  walk_on-FindsOne :
      (go : Json → Walked J) (out : List Json) (e : Expected Json PathFailure)
      → ((next : Json) → FindsOne out (go next))
      → FindsOne out (walk_on J go out e)
  walk_on-FindsOne go out (Expected.unexpected e) h = refl
  walk_on-FindsOne go out (Expected.value node) h = h node

  -- A path with no wildcard addresses exactly one value or fails.
  pub walk-FindsOne :
      (projection : Bool) (segments : List Segment) (node : Json) (walked : Text) (out : List Json)
      → All IsSingular segments
      → FindsOne out (walk J projection segments node walked out)
  unfolding walk
  walk-FindsOne projection [] node walked out h = append_leaf-FindsOne node projection walked out
  walk-FindsOne projection (field name ∷ segments) node walked out h =
      walk_on-FindsOne (λ next. walk J projection segments next (field_walked J name walked) out)
        out (field_of J name walked (view node))
        (λ next. walk-FindsOne projection segments next (field_walked J name walked) out h.1)
  walk-FindsOne projection (index i ∷ segments) node walked out h =
      walk_on-FindsOne (λ next. walk J projection segments next (index_walked J i walked) out) out
        (element_of J i walked (view node))
        (λ next. walk-FindsOne projection segments next (index_walked J i walked) out h.1)
  walk-FindsOne projection (any_index ∷ segments) node walked out h = absurd h.0

  -- The wildcard at the end of a path collects all elements.
  elements-collect :
      (elements : List Json) (i : ℕ) (walked : Text) (out : List Json)
      → walk_elements J (walk J false []) elements i walked none out ≡ (none, out ++ elements)
  unfolding walk walk_elements append_leaf
  elements-collect [] i walked out = rw append-nil
  elements-collect (node ∷ elements) i walked out =
      elements-collect elements (i + 1) walked (out ++ node ∷ [])
      ∙ rw (append_assoc out (node ∷ []) elements)

  -- At a sequence, `[*]` finds its elements in their order, without failing on an empty one, and
  -- `.length` finds the number of them.
  pub walk_star :
      (node : Json) (walked : Text) (elements : List Json)
      → view node ≡ View.array elements
      → (walk J false (any_index ∷ []) node walked [] ≡ (none, elements))
        × (walk J true [] node walked [] ≡ (none, of_size (length elements) ∷ []))
  unfolding walk append_leaf
  walk_star node walked elements e = rw e (
    rw (elements-collect elements 0 walked []) (if_same (length elements == 0) (none, elements)),
    refl,
  )
