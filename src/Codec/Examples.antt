-- ===== src/Codec/Examples.antt =====
-- Messages that are encoded and decoded.
use lab_monitor.Base.{
  ◌≡◌, refl, arith, ℕ, All, Text, true, false, negsuc, some, none, List, [], ◌∷◌, text,
}
use lab_monitor.Types.{CheckStatus, AdapterType, LinkState}
use lab_monitor.Compliance.{CheckResult}
use lab_monitor.Script.{ScriptStatus}
use lab_monitor.Dispatch.{ScriptResultMessage}
use lab_monitor.Bus.{ClientAnnounce, ResourceSampleMessage, ComplianceReportMessage}
use lab_monitor.Codec.Cdr.{IsCdrText, is_cdr_text}
use lab_monitor.Codec.{
  encode_resources, decode_resources, encode_report, decode_report, encode_script_result,
  decode_script_result, decode_announce, script_items,
}
use lab_monitor.Codec.SampleCdr.{sample_cdr}
use lab_monitor.Codec.RoundTrip.{
  IsWireResult, decode_script_result-number, decode-encode_script_result,
}
use lab_monitor.Codec.Vectors.{IsWireSample, decode-encode_resources}
use lab_monitor.Codec.Reports.{
  IsWireCheck, IsNumbered, numbered_report, decode_report-unknown, decode-encode_report,
}
use lab_monitor.Codec.Legacy.{legacy_items, decode_announce-legacy}

abbrev answer : ScriptResultMessage
answer = record {
  host_id = text "pc-1";
  run_id = text "r1";
  status = ScriptStatus.refused;
  refusal_reason = text "busy";
  exit_code = negsuc 2;
  has_reported = false;
  reported_ok = true;
  reported_message = [];
  stdout_text = text "done";
  stderr_text = [];
  duration_ms = 12;
}

answer-IsWireResult : IsWireResult answer
unfolding is_cdr_text text
answer-IsWireResult = record {
  host_id = refl;
  run_id = refl;
  refusal_reason = refl;
  exit_code = omega arith;
  reported_message = refl;
  stdout_text = refl;
  stderr_text = refl;
  duration_ms = omega arith;
}

decode-encode_script_result_example :
    (bytes : Text) × (encode_script_result sample_cdr answer ≡ some bytes)
    × (decode_script_result sample_cdr bytes ≡ some answer)
decode-encode_script_result_example =
    decode-encode_script_result sample_cdr answer answer-IsWireResult

decode_script_result-number_example :
    (bytes : Text) × (sample_cdr.write (script_items sample_cdr answer 7) ≡ some bytes)
    × (decode_script_result sample_cdr bytes ≡ some (record answer { status = ScriptStatus.error }))
decode_script_result-number_example =
    decode_script_result-number sample_cdr answer 7 ScriptStatus.error (omega arith) (omega arith)
      answer-IsWireResult

abbrev sample : ResourceSampleMessage ℕ
sample = record {
  host_id = text "pc-1";
  sample = record {
    cpu_percent = 3;
    mem_total_bytes = 800;
    mem_used_bytes = 200;
    disks = record { mount = text "C:"; total_bytes = 90; free_bytes = 10 } ∷ [];
    adapters =
        record {
          name = text "Ethernet";
          description = [];
          id = text "e0";
          type = AdapterType.ethernet;
          link = LinkState.no_media;
        }
        ∷ record {
          name = text "Wi-Fi";
          description = [];
          id = text "w0";
          type = AdapterType.wi_fi;
          link = LinkState.faulted;
        }
        ∷ [];
  };
}

sample-IsWireSample : IsWireSample sample_cdr sample
unfolding is_cdr_text text
sample-IsWireSample = record {
  host_id = refl;
  total = omega arith;
  used = omega arith;
  disks = ((refl, omega arith, omega arith), tt);
  disk_count = omega arith;
  adapters = ((refl, refl, refl), ((refl, refl, refl), tt));
  adapter_count = omega arith;
}

decode-encode_resources_example :
    (bytes : Text) × (encode_resources sample_cdr sample ≡ some bytes)
    × (decode_resources sample_cdr bytes ≡ some sample)
decode-encode_resources_example = decode-encode_resources sample_cdr sample sample-IsWireSample

abbrev result : CheckResult
result = record {
  rule_id = text "process-cart";
  status = CheckStatus.fail;
  observed = text "absent";
  message = text "cart.exe";
}

abbrev report : ComplianceReportMessage
report = record {
  report = record { host_id = text "pc-1"; applied_revision = 4; results = result ∷ [] };
}

result-IsWireCheck : IsWireCheck result
unfolding is_cdr_text text
result-IsWireCheck = (refl, refl, refl)

pc-IsCdrText : IsCdrText (text "pc-1")
unfolding is_cdr_text text
pc-IsCdrText = refl

decode-encode_report_example :
    (bytes : Text) × (encode_report sample_cdr report ≡ some bytes)
    × (decode_report sample_cdr bytes ≡ some report)
decode-encode_report_example =
    decode-encode_report sample_cdr report pc-IsCdrText (omega arith) (result-IsWireCheck, tt)
      (omega arith)

-- The second result carries a number that is no status.
abbrev strange : List (CheckResult × ℕ)
strange = (result, 1) ∷ (result, 9) ∷ (result, 0) ∷ []

strange-IsNumbered : All (IsNumbered sample_cdr) strange
strange-IsNumbered = (
  (result-IsWireCheck, omega arith),
  ((result-IsWireCheck, omega arith), ((result-IsWireCheck, omega arith), tt)),
)

decode_report-unknown_example :
    (bytes : Text) × (sample_cdr.write (numbered_report sample_cdr (text "pc-1") 4 strange)
      ≡ some bytes)
    × (decode_report sample_cdr bytes ≡ none)
decode_report-unknown_example =
    decode_report-unknown sample_cdr (text "pc-1") 4 ((result, 1) ∷ []) ((result, 0) ∷ []) result 9
      pc-IsCdrText (omega arith) strange-IsNumbered (omega arith) (omega arith)

abbrev announce : ClientAnnounce
announce = record {
  host_id = text "pc-1";
  agent_version = text "0.0.9";
  capabilities = 31;
  paused = false;
}

version-IsCdrText : IsCdrText (text "0.0.9")
unfolding is_cdr_text text
version-IsCdrText = refl

decode_announce-legacy_example :
    (bytes : Text) × (sample_cdr.write (legacy_items sample_cdr announce) ≡ some bytes)
    × (decode_announce sample_cdr bytes ≡ some announce)
decode_announce-legacy_example =
    decode_announce-legacy sample_cdr announce pc-IsCdrText version-IsCdrText (omega arith)
