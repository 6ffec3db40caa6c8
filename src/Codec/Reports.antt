-- ===== src/Codec/Reports.antt =====
-- Compliance reports as bytes and back, of libs/transport/src/codec.cpp.
use lab_monitor.Base.{
  ℕ, ◌<◌, ◌^◌, ◌≡◌, refl, ap, ◌∙◌, subst, Bool, true, arith, none, some, List, [], ◌∷◌, map, length,
  All, false, ◌++◌, Text, if◌then◌else◌, leb,
}
use lab_monitor.Types.{CheckStatus, status_number}
use lab_monitor.Compliance.{CheckResult}
use lab_monitor.Bus.{ComplianceReportMessage}
use lab_monitor.Codec.Cdr.{Item, CdrLibrary, IsCdrText, IsWritable, status_of}
use lab_monitor.Codec.{
  Items, vector_items, check_items, read_result, values, all_valid, if_valid, encode_report,
  read_report, decode_report,
}
use lab_monitor.Codec.Gives.{
  Gives, Gives-return, give, Gives-text, Gives-uint8, Gives-uint64, deserialise-write,
  all_items-All,
}
use lab_monitor.Codec.Vectors.{small, Gives-vector, Gives-end, values-valid, all_valid-valid}

status_of-number : (s : CheckStatus) → status_of (status_number s) ≡ s
unfolding status_of
status_of-number CheckStatus.pass = refl
status_of-number CheckStatus.fail = refl
status_of-number CheckStatus.not_applicable = refl
status_of-number CheckStatus.error = refl

status_number-le : (s : CheckStatus) → leb (status_number s) 3 ≡ true
status_number-le CheckStatus.pass = refl
status_number-le CheckStatus.fail = refl
status_number-le CheckStatus.not_applicable = refl
status_number-le CheckStatus.error = refl

abbrev pub IsWireCheck : CheckResult → Type 0
IsWireCheck r = IsCdrText r.rule_id × IsCdrText r.observed × IsCdrText r.message

module _ (C : CdrLibrary) where
  -- The items of a check result that carries a number for its status.
  abbrev pub numbered_items : CheckResult × ℕ → Items C
  numbered_items (r, n) =
      Item.text_item r.rule_id
      ∷ Item.uint8_item n
      ∷ Item.text_item r.observed
      ∷ Item.text_item r.message
      ∷ []

  abbrev pub numbered : CheckResult × ℕ → CheckResult × Bool
  numbered (r, n) = (record r { status = status_of n }, leb n 3)

  -- The texts of the result are CDR strings, and its number is a byte.
  abbrev pub IsNumbered : CheckResult × ℕ → Type 0
  IsNumbered p = IsWireCheck p.0 × (p.1 < 2 ^ 8)

  Gives-numbered :
      (p : CheckResult × ℕ) → IsNumbered p → Gives C (read_result C) (numbered_items p) (numbered p)
  unfolding read_result
  Gives-numbered (r, n) (w, h) = give C _ _ _ r.rule_id (Gives-text C r.rule_id w.0) (
      give C _ _ _ n (Gives-uint8 C n h) (
        give C _ _ _ r.observed (Gives-text C r.observed w.1)
          (give C _ _ _ r.message (Gives-text C r.message w.2) (Gives-return C (numbered (r, n))))))

  Gives-check :
      (r : CheckResult) → IsWireCheck r → Gives C (read_result C) (check_items C r) (r, true)
  Gives-check r h =
      let n = status_number r.status in
      subst (Gives C (read_result C) (check_items C r))
        (λ i. (record r { status = status_of-number r.status i }, status_number-le r.status i))
        (Gives-numbered (r, n) (h, small n 3 (status_number-le r.status) (omega arith)))

  -- The items of results with numbers can be written.
  numbered-All : (p : CheckResult × ℕ) → IsNumbered p → All IsWritable (numbered_items p)
  numbered-All (r, n) ((a, b, c), h) = (a, (tt, (b, (c, tt))))

  check-All : (r : CheckResult) → IsWireCheck r → All IsWritable (check_items C r)
  check-All r (a, b, c) = (a, (tt, (b, (c, tt))))

  -- What is made of a report whose results carry numbers for their statuses.
  abbrev pub numbered_report : Text → ℕ → List (CheckResult × ℕ) → Items C
  numbered_report host_id revision results =
      Item.text_item host_id ∷ Item.uint64_item revision ∷ vector_items C numbered_items results

  abbrev report_of : Text → ℕ → List CheckResult → ComplianceReportMessage
  report_of host_id revision results = record {
    report = record { host_id = host_id; applied_revision = revision; results = results };
  }

  report_read :
      (host_id : Text) (revision : ℕ) (results : List (CheckResult × ℕ))
      → IsCdrText host_id
      → revision < 2 ^ 64
      → All IsNumbered results
      → length results < 2 ^ 32
      → (bytes : Text) × (C.write (numbered_report host_id revision results) ≡ some bytes)
        × (decode_report C bytes ≡ (
            if all_valid C (map numbered results)
            then some (report_of host_id revision (values C (map numbered results)))
            else none))
  unfolding decode_report read_report
  report_read host_id revision results w h k l =
      let (bytes, e, d) =
        deserialise-write C (read_report C) _ _ _
          (w, (tt, (tt, all_items-All C numbered_items IsNumbered numbered-All results k)))
          (give C _ _ _ host_id (Gives-text C host_id w) (
            give C _ _ _ revision (Gives-uint64 C revision h) (
              Gives-end C (map numbered results)
                (λ results. (report_of host_id revision (values C results), all_valid C results))
                (Gives-vector C (read_result C) numbered_items numbered IsNumbered Gives-numbered
                  results k l)))) in
      (bytes, e, ap (if_valid C) d)

  strange_one :
      (before after : List (CheckResult × ℕ)) (r : CheckResult) (n : ℕ)
      → 3 < n
      → all_valid C (map numbered (before ++ ((r, n) ∷ after))) ≡ false
  strange_one [] after r n h = ground arith
  strange_one (p ∷ before) after r n h = rw (strange_one before after r n h) (ground arith)

  -- A report whose texts are CDR strings and whose numbers fit, one of whose results carries a number
  -- over 3 for its status, is not decoded at all: 3 is the number of the last status.
  pub decode_report-unknown :
      (host_id : Text) (revision : ℕ) (before after : List (CheckResult × ℕ)) (r : CheckResult)
      (n : ℕ)
      → let results = before ++ ((r, n) ∷ after) in
        IsCdrText host_id
        → revision < 2 ^ 64
        → All IsNumbered results
        → length results < 2 ^ 32
        → 3 < n
        → (bytes : Text) × (C.write (numbered_report host_id revision results) ≡ some bytes)
          × (decode_report C bytes ≡ none)
  decode_report-unknown host_id revision before after r n w h k l over =
      let (bytes, e, d) = report_read host_id revision (before ++ ((r, n) ∷ after)) w h k l in
      (bytes, e, d ∙ rw (strange_one before after r n over) refl)

  -- A compliance report whose texts are CDR strings, whose revision fits its type and whose results
  -- can be counted in 32 bits is encoded, and it is decoded from its bytes as it was.
  pub decode-encode_report :
      (message : ComplianceReportMessage)
      → IsCdrText message.report.host_id
      → message.report.applied_revision < 2 ^ 64
      → All IsWireCheck message.report.results
      → length message.report.results < 2 ^ 32
      → (bytes : Text) × (encode_report C message ≡ some bytes)
        × (decode_report C bytes ≡ some message)
  unfolding decode_report encode_report read_report
  decode-encode_report message w h k l =
      let results = message.report.results in
      let back : List (CheckResult × Bool) → ComplianceReportMessage × Bool = λ rs. (
        report_of message.report.host_id message.report.applied_revision (values C rs),
        all_valid C rs,
      ) in
      let (bytes, e, d) =
        deserialise-write C (read_report C) _ _ (back (map (λ x. (x, true)) results))
          (w, (tt, (tt, all_items-All C (check_items C) IsWireCheck check-All results k)))
          (give C _ _ _ message.report.host_id (Gives-text C message.report.host_id w) (
            give C _ _ _ message.report.applied_revision
              (Gives-uint64 C message.report.applied_revision h)
              (Gives-end C (map (λ x. (x, true)) results) back (
                Gives-vector C (read_result C) (check_items C) (λ x. (x, true)) IsWireCheck
                  Gives-check results k l)))) in
      (bytes, e, ap (if_valid C) d ∙ rw (values-valid C results, all_valid-valid C results) refl)
