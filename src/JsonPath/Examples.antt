-- ===== src/JsonPath/Examples.antt =====
-- Runs of the path parser and the walk, and the theorems on them at a small document.
use lab_monitor.Base.{
  ◌≡◌, refl, ℕ, ◌≤◌, arith, Bool, true, false, Option, none, some, List, [], ◌∷◌, All, length, Text,
  text,
}
use lab_monitor.Base.Json.{Expected}
use lab_monitor.Base.SampleJson.{Leaf, Document, skus, sample_json}
use lab_monitor.JsonPath.{
  PathFailure, Segment, field, index, any_index, parse_loop, parse, fail_malformed,
}
use lab_monitor.JsonPath.Resolve.{walk, resolve_all}
use lab_monitor.JsonPath.Total.{parse_loop-total}
use lab_monitor.JsonPath.Walk.{Appends, walk-Appends}

abbrev second : List Segment
second = index 1 ∷ []

refuses_leading_bracket :
    resolve_all sample_json skus (text "[*]")
    ≡ Expected.unexpected (fail_malformed (text "a path cannot start with '['"))
unfolding resolve_all text
refuses_leading_bracket = refl

-- A dot before a bracket is let through.
accepts_dot_bracket :
    parse (text "a.[0]")
    ≡ Expected.value
        (record { segments = field (text "a") ∷ index 0 ∷ []; length_projection = false })
unfolding parse text lab_monitor.JsonPath.index_segment lab_monitor.Base.str_eq
    lab_monitor.Base.Decimal.is_digit
accepts_dot_bracket = refl

resolves_length :
    resolve_all sample_json skus (text "length")
    ≡ Expected.value (Document.leaf (Leaf.number 2) ∷ [])
unfolding resolve_all text lab_monitor.Base.str_eq
resolves_length = refl

parse_loop-total_example :
    (r : Expected (List Segment) PathFailure) × (parse_loop 14 [] (text "items_[*].name") ≡ some r)
unfolding text
parse_loop-total_example = parse_loop-total 14 [] (text "items_[*].name") (omega arith)

walk-Appends_example :
    Appends sample_json (skus ∷ []) (walk sample_json false second skus [] (skus ∷ []))
walk-Appends_example = walk-Appends sample_json false second skus [] (skus ∷ [])
