-- ===== src/Compliance/Dds.antt =====
-- The rules on DDS topics and on values in their samples, in libs/core/src/compliance.cpp.
use mathlib.Core.List.{reverse}
use lab_monitor.Base.{
  ℕ, zero, suc, ◌+◌, ◌-◌, Bool, true, false, not, ◌||◌, Option, none, some, List, ◌∷◌, [], ◌++◌,
  ltb, ◌==◌, if◌then◌else◌, length, Text, text, str_eq, empty, contains,
}
use lab_monitor.Base.Decimal.{to_string}
use lab_monitor.Base.Json.{Expected, View, JsonLibrary, int64_of_unsigned, integer_to_string}
use lab_monitor.Base.OrderedMap
use lab_monitor.Types.{DdsMatch, dds_match_to_string}
use lab_monitor.Rule.{Rule, DdsTopicRule, DdsValueRule, dds_key}
use lab_monitor.JsonPath.{PathFailure}
use lab_monitor.JsonPath.Resolve.{resolve_all}
use lab_monitor.Facts.{DdsTopicSample}
use lab_monitor.Compliance.{CheckResult, resolve, expected_text, error, judged}

abbrev pub not_probed : Rule → CheckResult
not_probed rule = error rule (text "not probed") (text "the DDS bus was not read on this host")

unfoldable pub find_topic : OrderedMap.Map DdsTopicSample → ℕ → Text → Option DdsTopicSample
find_topic dds domain_id topic_name = OrderedMap.find (dds_key domain_id topic_name) dds

unfoldable pub on_domain : ℕ → Text → Text
on_domain domain_id topic_name =
    b'"' ∷ (topic_name ++ (text "\" on domain " ++ to_string domain_id))

abbrev pub check_topic : Rule → DdsTopicRule → Option DdsTopicSample → CheckResult
check_topic rule payload none = not_probed rule
check_topic rule payload (some sample) =
    if not (empty sample.error)
    then error rule (text "look failed") sample.error
    else resolve rule sample.topic_found
        (if sample.topic_found then text "present on the bus" else text "not on the bus")
        (expected_text rule (on_domain payload.domain_id payload.topic_name ++ text " to exist")
          (on_domain payload.domain_id payload.topic_name ++ text " not to exist"))

unfoldable pub evaluate_dds_topic :
    Rule → DdsTopicRule → OrderedMap.Map DdsTopicSample → CheckResult
unfolding resolve error find_topic
evaluate_dds_topic rule payload dds =
    check_topic rule payload (find_topic dds payload.domain_id payload.topic_name)

-- The loops that take zeros, and then one point, off the end; the text has its last character first.
-- A text of one character keeps it.
unfoldable pub trim_zeros : Text → Text
trim_zeros [] = []
trim_zeros (c ∷ []) = c ∷ []
trim_zeros (c ∷ d ∷ s) = if c == b'0' then trim_zeros (d ∷ s) else c ∷ d ∷ s

abbrev trim_point : Text → Text
trim_point [] = []
trim_point (c ∷ s) = if c == b'.' then s else c ∷ s

-- No more than this many values are listed.
abbrev pub max_listed : ℕ
max_listed = 5

abbrev pub is_numeric : DdsMatch → Bool
is_numeric DdsMatch.at_least = true
is_numeric DdsMatch.at_most = true
is_numeric _ = false

abbrev is_equals : DdsMatch → Bool
is_equals DdsMatch.equals = true
is_equals _ = false

-- How the loop over the values ends: with a value that matches, or at the end of the list.
pub data Scan : Type 0 where
  hit : Scan
  ended : Option Text → ℕ → Scan

abbrev pub first_of : Option Text → Text → Option Text
first_of none e = some e
first_of (some f) e = some f

module _ (J : JsonLibrary) where
  open J use {
    Json, Double, view, parse_json, dump, stod, double_of_integer, double_of_unsigned, double_le,
    double_eq, double_to_string,
  }

  unfoldable pub document_kind : View Json Double → Text
  document_kind (View.string s) = text "text"
  document_kind (View.boolean b) = text "a true/false value"
  document_kind (View.array xs) = text "a sequence"
  document_kind (View.object ms) = text "a structure"
  document_kind View.null = text "nothing"
  document_kind _ = text "a value of another kind"

  -- The value is part of a document that was parsed, so that its texts are valid UTF-8.
  abbrev readable_view : Json → View Json Double → Text
  readable_view value (View.string s) = s
  readable_view value (View.integer n) = integer_to_string n
  readable_view value (View.unsigned n) = integer_to_string (int64_of_unsigned n)
  readable_view value (View.float d) =
      reverse (trim_point (trim_zeros (reverse (double_to_string d))))
  readable_view value _ = dump value

  unfoldable pub readable : Json → Text
  unfolding trim_zeros
  readable value = readable_view value (view value)

  -- The loop over the values listed, with the number of them that may still be.
  unfoldable pub listed : ℕ → List Json → Text
  listed zero values = []
  listed (suc left) [] = []
  listed (suc left) (v ∷ values) = text ", " ++ (readable v ++ listed left values)

  abbrev listed_first : List Json → Text
  listed_first [] = []
  listed_first (v ∷ values) = readable v ++ listed (max_listed - 1) values

  abbrev several_text : List Json → Text
  several_text values =
      to_string (length values)
      ++ (text " values: "
          ++ (listed_first values
              ++ (if ltb max_listed (length values)
                  then text ", +" ++ (to_string (length values - max_listed) ++ text " more")
                  else [])))

  unfoldable pub observed_text : List Json → Text
  unfolding listed
  observed_text (v ∷ []) = readable v
  observed_text [] = several_text []
  observed_text (v ∷ w ∷ values) = several_text (v ∷ w ∷ values)

  -- is_number, with the value as a double.
  abbrev pub number_of : View Json Double → Option Double
  number_of (View.integer n) = some (double_of_integer n)
  number_of (View.unsigned n) = some (double_of_unsigned n)
  number_of (View.float d) = some d
  number_of _ = none

  abbrev compare_doubles : DdsMatch → Double → Double → Bool
  compare_doubles DdsMatch.at_least observed expected = double_le expected observed
  compare_doubles DdsMatch.at_most observed expected = double_le observed expected
  compare_doubles _ observed expected = double_eq observed expected

  abbrev compare_number : DdsValueRule → Double → Option Double → Expected Bool Text
  compare_number payload observed none =
      Expected.unexpected (
        text "the rule's expected value \""
        ++ (payload.expected_value ++ text "\" is not a number"))
  compare_number payload observed (some expected) =
      Expected.value (compare_doubles payload.match observed expected)

  abbrev match_text : DdsMatch → Text → Text → Bool
  match_text DdsMatch.contains observed expected = contains observed expected
  match_text _ observed expected = str_eq observed expected

  -- The number is there: a numeric match, and Equals, compare numbers.
  abbrev match_number : Json → DdsValueRule → Option Double → Expected Bool Text
  match_number value payload (some observed) =
      if is_numeric payload.match || is_equals payload.match
      then compare_number payload observed (stod payload.expected_value)
      else Expected.value (match_text payload.match (readable value) payload.expected_value)
  match_number value payload none =
      if is_numeric payload.match
      then Expected.unexpected (
          text "expected a number at "
          ++ (payload.path
              ++ (text " to compare against "
                  ++ (payload.expected_value ++ (text ", found " ++ document_kind (view value))))))
      else Expected.value (match_text payload.match (readable value) payload.expected_value)

  unfoldable pub matches : Json → DdsValueRule → Expected Bool Text
  matches value payload = match_number value payload (number_of (view value))

  abbrev pub scan_next : (Option Text → ℕ → Scan) → Option Text → ℕ → Expected Bool Text → Scan
  scan_next go first_error comparable (Expected.unexpected e) =
      go (first_of first_error e) comparable
  scan_next go first_error comparable (Expected.value true) = hit
  scan_next go first_error comparable (Expected.value false) = go first_error (comparable + 1)

  unfoldable pub scan : DdsValueRule → List Json → Option Text → ℕ → Scan
  scan payload [] first_error comparable = ended first_error comparable
  scan payload (value ∷ values) first_error comparable =
      scan_next (scan payload values) first_error comparable (matches value payload)

  abbrev pub expectation_text : DdsValueRule → Text
  expectation_text payload =
      text "expected "
      ++ ((if contains payload.path (text "[*]") then text "any " else [])
          ++ (payload.path
              ++ (b' ' ∷ (dds_match_to_string payload.match ++ (b' ' ∷ payload.expected_value)))))

  abbrev pub scanned : Rule → DdsValueRule → Text → Scan → CheckResult
  scanned rule payload observed hit = judged rule true observed []
  scanned rule payload observed (ended (some e) zero) = error rule observed e
  scanned rule payload observed (ended first_error comparable) =
      judged rule false observed (expectation_text payload)

  abbrev pub check_values : Rule → DdsValueRule → Expected (List Json) PathFailure → CheckResult
  check_values rule payload (Expected.unexpected e) =
      error rule (if empty payload.path then text "(whole sample)" else payload.path) e.message
  check_values rule payload (Expected.value []) =
      judged rule false (text "no elements") (expectation_text payload)
  check_values rule payload (Expected.value (v ∷ values)) =
      scanned rule payload (observed_text (v ∷ values)) (scan payload (v ∷ values) none 0)

  abbrev pub check_document : Rule → DdsValueRule → Expected Json Text → CheckResult
  check_document rule payload (Expected.unexpected what) =
      error rule (text "unreadable sample") (text "the sample could not be read as JSON: " ++ what)
  check_document rule payload (Expected.value document) =
      check_values rule payload (resolve_all J document payload.path)

  abbrev pub check_sample : Rule → DdsValueRule → Option DdsTopicSample → CheckResult
  check_sample rule payload none = not_probed rule
  check_sample rule payload (some sample) =
      if not (empty sample.error)
      then error rule (text "look failed") sample.error
      else if not sample.topic_found
      then judged rule false (text "topic not on the bus") (
          text "expected "
          ++ (on_domain payload.domain_id payload.topic_name ++ text " to be publishing"))
      else if not sample.has_sample
      then error rule (text "no sample yet")
          (text "the topic is on the bus but nothing has been published on it")
      else check_document rule payload (parse_json sample.json)

  unfoldable pub evaluate_dds_value :
      Rule → DdsValueRule → OrderedMap.Map DdsTopicSample → CheckResult
  unfolding error find_topic
  evaluate_dds_value rule payload dds =
      check_sample rule payload (find_topic dds payload.domain_id payload.topic_name)
