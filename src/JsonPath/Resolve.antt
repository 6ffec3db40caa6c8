-- ===== src/JsonPath/Resolve.antt =====
-- The second half of libs/core/src/json_path.cpp: walking a document along a parsed path. The
-- documents are those of the JSON library, a parameter.
use lab_monitor.Base.{
  ℕ, ◌+◌, Bool, not, Option, none, some, List, [], ◌∷◌, ◌++◌, ◌==◌, if◌then◌else◌, length,
  get_elem?, Text, text, empty,
}
use lab_monitor.Base.Decimal.{to_string}
use lab_monitor.Base.OrderedMap
use lab_monitor.Base.Json.{Expected, View, JsonLibrary}
use lab_monitor.JsonPath.{
  PathFailure, Segment, field, index, any_index, Parsed, fail_malformed, fail_missing, quoted_name,
  parse,
}

module _ (J : JsonLibrary) where
  open J use {Json, Double, view, of_size}

  -- What a walk leaves behind: its failure, if it fails, and the vector that it appends to.
  abbrev pub Walked : Type 0
  Walked = Option PathFailure × List Json

  abbrev pub no_length : Text → List Json → Walked
  no_length walked out = (
    some (
        fail_missing (
          quoted_name walked
          ++ text " has no length: it is neither a sequence, an object nor a string")),
    out,
  )

  abbrev pub leaf_length : View Json Double → Text → List Json → Walked
  leaf_length (View.string s) walked out = (none, out ++ of_size (length s) ∷ [])
  leaf_length (View.array elements) walked out = (none, out ++ of_size (length elements) ∷ [])
  leaf_length (View.object members) walked out = (none, out ++ of_size (length members) ∷ [])
  leaf_length _ walked out = no_length walked out

  unfoldable pub append_leaf : Json → Bool → Text → List Json → Walked
  append_leaf node length_projection walked out =
      if not length_projection then (none, out ++ node ∷ []) else leaf_length (view node) walked out

  abbrev pub no_object : Text → Text → PathFailure
  no_object name walked = fail_missing (
      if empty walked
      then text "the sample is not an object, so it has no field " ++ quoted_name name
      else quoted_name walked
        ++ (text " is not an object, so it has no field " ++ quoted_name name))

  abbrev pub no_field : Text → Text → PathFailure
  no_field name walked = fail_missing (
      text "no field "
      ++ (quoted_name name
          ++ (if empty walked then text " in the sample" else text " in " ++ quoted_name walked)))

  abbrev pub field_found : Text → Text → Option Json → Expected Json PathFailure
  field_found name walked none = Expected.unexpected (no_field name walked)
  field_found name walked (some found) = Expected.value found

  abbrev pub field_of : Text → Text → View Json Double → Expected Json PathFailure
  field_of name walked (View.object members) =
      field_found name walked (OrderedMap.find name members)
  field_of name walked _ = Expected.unexpected (no_object name walked)

  abbrev pub no_sequence : Text → PathFailure
  no_sequence walked =
      fail_missing (quoted_name walked ++ text " is not a sequence, so it cannot be indexed")

  abbrev pub element_found : ℕ → ℕ → Text → Option Json → Expected Json PathFailure
  element_found i count walked none = Expected.unexpected (
      fail_missing (
        text "index "
        ++ (to_string i
            ++ (text " is past the end of "
                ++ (quoted_name walked ++ (text " (" ++ (to_string count ++ text " elements)")))))))
  element_found i count walked (some found) = Expected.value found

  abbrev pub element_of : ℕ → Text → View Json Double → Expected Json PathFailure
  element_of i walked (View.array elements) =
      element_found i (length elements) walked (get_elem? elements i)
  element_of i walked _ = Expected.unexpected (no_sequence walked)

  abbrev pub field_walked : Text → Text → Text
  field_walked name walked = if empty walked then name else walked ++ (b'.' ∷ name)

  abbrev pub index_walked : ℕ → Text → Text
  index_walked i walked = walked ++ (b'[' ∷ (to_string i ++ b']' ∷ []))

  -- Go on at the node that a segment addresses, or stop with the failure.
  abbrev pub walk_on : (Json → Walked) → List Json → Expected Json PathFailure → Walked
  walk_on go out (Expected.unexpected e) = (some e, out)
  walk_on go out (Expected.value node) = go node

  abbrev pub first_of_failures : Option PathFailure → Option PathFailure → Option PathFailure
  first_of_failures none e = e
  first_of_failures (some f) e = some f

  -- The loop over the elements of a sequence: the first failure, and the vector.
  unfoldable pub walk_elements :
      (Json → Text → List Json → Walked)
      → List Json
      → ℕ
      → Text
      → Option PathFailure
      → List Json
      → Walked
  walk_elements branch [] element walked first out = (first, out)
  walk_elements branch (node ∷ elements) element walked first out =
      let (failed, out') = branch node (index_walked element walked) out in
      walk_elements branch elements (element + 1) walked (first_of_failures first failed) out'

  -- The failure counts only if nothing came back.
  abbrev pub fork_result : ℕ → Walked → Walked
  fork_result before (first, out) = if length out == before then (first, out) else (none, out)

  abbrev pub walk_fork :
      (Json → Text → List Json → Walked) → Text → List Json → View Json Double → Walked
  walk_fork branch walked out (View.array elements) =
      fork_result (length out) (walk_elements branch elements 0 walked none out)
  walk_fork branch walked out _ = (some (no_sequence walked), out)

  unfoldable pub walk : Bool → List Segment → Json → Text → List Json → Walked
  unfolding append_leaf walk_elements
  walk projection [] node walked out = append_leaf node projection walked out
  walk projection (field name ∷ segments) node walked out =
      walk_on (λ next. walk projection segments next (field_walked name walked) out) out
        (field_of name walked (view node))
  walk projection (index i ∷ segments) node walked out =
      walk_on (λ next. walk projection segments next (index_walked i walked) out) out
        (element_of i walked (view node))
  walk projection (any_index ∷ segments) node walked out =
      walk_fork (walk projection segments) walked out (view node)

  abbrev pub resolved : Walked → Expected (List Json) PathFailure
  resolved (none, values) = Expected.value values
  resolved (some e, values) = Expected.unexpected e

  abbrev pub resolve_parsed : Json → Expected Parsed PathFailure → Expected (List Json) PathFailure
  resolve_parsed document (Expected.unexpected e) = Expected.unexpected e
  resolve_parsed document (Expected.value parsed) =
      resolved (walk parsed.length_projection parsed.segments document [] [])

  unfoldable pub resolve_all : Json → Text → Expected (List Json) PathFailure
  unfolding walk parse
  resolve_all document path =
      if empty path then Expected.value (document ∷ []) else resolve_parsed document (parse path)

  abbrev pub single : Expected (List Json) PathFailure → Expected Json PathFailure
  single (Expected.unexpected e) = Expected.unexpected e
  single (Expected.value []) =
      Expected.unexpected (fail_missing (text "the path addressed no value"))
  single (Expected.value (v ∷ [])) = Expected.value v
  single (Expected.value (v ∷ w ∷ values)) = Expected.unexpected (
      fail_malformed (
        text "the path addresses "
        ++ (to_string (length (v ∷ w ∷ values))
            ++ text " values; it needs a rule that reads them all")))

  unfoldable pub resolve_path : Json → Text → Expected Json PathFailure
  unfolding resolve_all
  resolve_path document path = single (resolve_all document path)
