-- ===== src/Codec.antt =====
-- libs/transport/src/codec.cpp: the messages as bytes and back. The CDR library is not part of the
-- repository: a writer turns items into bytes, and a reader is seen by the items that it stands
-- before. A decoder gives the message, or none where it returns false and leaves the output alone.
pub mod Cdr
pub mod Gives
pub mod RoundTrip
pub mod Vectors
pub mod Reports
pub mod Legacy
pub mod SampleCdr
mod Examples
use lab_monitor.Base.{
  ℕ, zero, suc, ◌%◌, ◌^◌, ◌<◌, ◌≡◌, ℤ, Bool, true, false, ◌&&◌, Option, none, some, List, [], ◌∷◌,
  ◌++◌, ◌==◌, leb, if◌then◌else◌, length, Text, empty,
}
use lab_monitor.Base.Json.{IsInt32}
use lab_monitor.Types.{CheckStatus, AdapterType, LinkState, status_number, link_number}
use lab_monitor.Facts.{DiskUsage, NetworkAdapter, ResourceSample}
use lab_monitor.Compliance.{CheckResult, ComplianceReport}
use lab_monitor.Script.{ScriptStatus}
use lab_monitor.Dispatch.{ScriptResultMessage}
use lab_monitor.Bus.{
  ClientAnnounce, ResourceSampleMessage, TemplateBundleMessage, ComplianceReportMessage,
  ScriptCommand,
}
use lab_monitor.Codec.Cdr.{
  Item, CdrLibrary, adapter_type_number, adapter_type_of, link_of, status_of, script_status_number,
  script_status_of,
}

module _ (C : CdrLibrary) where
  open C use {
    Double, Reader, read_text, read_uint8, read_uint32, read_uint64, read_int32, read_bool,
    read_double,
  }

  abbrev pub Items : Type 0
  Items = List (Item Double)

  abbrev pub Read : Type 0 → Type 0
  Read A = Reader → Option (A × Reader)

  abbrev pub and_then : {A B : Type 0} → Option (A × Reader) → (A → Read B) → Option (B × Reader)
  and_then none f = none
  and_then (some (a, r)) f = f a r

  infixl 10 ◌>>=◌
  abbrev pub ◌>>=◌ : {A B : Type 0} → Read A → (A → Read B) → Read B
  (m >>= f) r = and_then (m r) f

  abbrev pub return : {A : Type 0} → A → Read A
  return a r = some (a, r)

  -- A loop that reads a number of values.
  unfoldable pub read_many : {A : Type 0} → ℕ → Read A → Read (List A)
  read_many zero m = return []
  read_many (suc n) m = m >>= λ x. read_many n m >>= λ xs. return (x ∷ xs)

  abbrev pub result_of : {A : Type 0} → Option (A × Reader) → Option A
  result_of none = none
  result_of (some (a, r)) = some a

  unfoldable pub deserialise : {A : Type 0} → Text → Read A → Option A
  deserialise bytes m = if empty bytes then none else result_of (m (C.open_reader bytes))

  abbrev pub disk_items : DiskUsage → Items
  disk_items disk =
      Item.text_item disk.mount
      ∷ Item.uint64_item disk.total_bytes
      ∷ Item.uint64_item disk.free_bytes
      ∷ []

  unfoldable pub read_disk : Read DiskUsage
  read_disk = do
    mount ← read_text
    total_bytes ← read_uint64
    free_bytes ← read_uint64
    return (record { mount = mount; total_bytes = total_bytes; free_bytes = free_bytes })

  abbrev pub adapter_items : NetworkAdapter → Items
  adapter_items adapter =
      Item.text_item adapter.name
      ∷ Item.text_item adapter.description
      ∷ Item.text_item adapter.id
      ∷ Item.uint8_item (adapter_type_number adapter.type)
      ∷ Item.uint8_item (link_number adapter.link)
      ∷ []

  -- An adapter, and whether its numbers are values of the enumerations.
  unfoldable pub read_adapter : Read (NetworkAdapter × Bool)
  unfolding adapter_type_of link_of
  read_adapter = do
    name ← read_text
    description ← read_text
    id ← read_text
    type ← read_uint8
    link ← read_uint8
    return (
      record {
        name = name;
        description = description;
        id = id;
        type = adapter_type_of type;
        link = link_of link;
      },
      leb type 7 && leb link 6,
    )

  abbrev pub check_items : CheckResult → Items
  check_items result =
      Item.text_item result.rule_id
      ∷ Item.uint8_item (status_number result.status)
      ∷ Item.text_item result.observed
      ∷ Item.text_item result.message
      ∷ []

  unfoldable pub read_result : Read (CheckResult × Bool)
  unfolding status_of
  read_result = do
    rule_id ← read_text
    status ← read_uint8
    observed ← read_text
    message ← read_text
    return (
      record {
        rule_id = rule_id;
        status = status_of status;
        observed = observed;
        message = message;
      },
      leb status 3,
    )

  -- The values of a loop that also reads whether each is valid.
  abbrev pub values : {A : Type 0} → List (A × Bool) → List A
  values [] = []
  values ((a, b) ∷ rest) = a ∷ values rest

  abbrev pub all_valid : {A : Type 0} → List (A × Bool) → Bool
  all_valid [] = true
  all_valid ((a, b) ∷ rest) = b && all_valid rest

  abbrev pub if_valid : {A : Type 0} → Option (A × Bool) → Option A
  if_valid none = none
  if_valid (some (a, valid)) = if valid then some a else none

  -- The items of a vector: its size as a std::uint32_t, and those of its elements.
  unfoldable pub all_items : {A : Type 0} → (A → Items) → List A → Items
  all_items f [] = []
  all_items f (x ∷ xs) = f x ++ all_items f xs

  abbrev pub vector_items : {A : Type 0} → (A → Items) → List A → Items
  vector_items f xs = Item.uint32_item (length xs % 2 ^ 32) ∷ all_items f xs

  abbrev pub read_vector : {A : Type 0} → Read A → Read (List A)
  read_vector m = read_uint32 >>= λ count. read_many count m

  abbrev pub announce_items : ClientAnnounce → Items
  announce_items message =
      Item.text_item message.host_id
      ∷ Item.text_item message.agent_version
      ∷ Item.uint32_item message.capabilities
      ∷ Item.bool_item message.paused
      ∷ []

  unfoldable pub encode_announce : ClientAnnounce → Option Text
  encode_announce message = C.write (announce_items message)

  -- A reader that has nothing more throws, and then the client is not paused.
  abbrev pub or_false : Reader → Option (Bool × Reader) → Option (Bool × Reader)
  or_false r none = some (false, r)
  or_false r (some result) = some result

  abbrev pub read_paused : Read Bool
  read_paused r = or_false r (read_bool r)

  unfoldable pub read_announce : Read ClientAnnounce
  read_announce = do
    host_id ← read_text
    agent_version ← read_text
    capabilities ← read_uint32
    paused ← read_paused
    return (record {
      host_id = host_id;
      agent_version = agent_version;
      capabilities = capabilities;
      paused = paused;
    })

  unfoldable pub decode_announce : Text → Option ClientAnnounce
  unfolding deserialise
  decode_announce bytes = deserialise bytes read_announce

  abbrev pub sample_items : ResourceSampleMessage Double → Items
  sample_items message =
      Item.text_item message.host_id
        ∷ Item.double_item message.sample.cpu_percent
        ∷ Item.uint64_item message.sample.mem_total_bytes
        ∷ Item.uint64_item message.sample.mem_used_bytes
        ∷ vector_items disk_items message.sample.disks
      ++ vector_items adapter_items message.sample.adapters

  unfoldable pub encode_resources : ResourceSampleMessage Double → Option Text
  unfolding all_items
  encode_resources message = C.write (sample_items message)

  unfoldable pub read_resources : Read (ResourceSampleMessage Double × Bool)
  unfolding read_many read_disk read_adapter
  read_resources = do
    host_id ← read_text
    cpu_percent ← read_double
    mem_total_bytes ← read_uint64
    mem_used_bytes ← read_uint64
    disks ← read_vector read_disk
    adapters ← read_vector read_adapter
    return (
      record {
        host_id = host_id;
        sample = record {
          cpu_percent = cpu_percent;
          mem_total_bytes = mem_total_bytes;
          mem_used_bytes = mem_used_bytes;
          disks = disks;
          adapters = values adapters;
        };
      },
      all_valid adapters,
    )

  unfoldable pub decode_resources : Text → Option (ResourceSampleMessage Double)
  unfolding deserialise
  decode_resources bytes = if_valid (deserialise bytes read_resources)

  abbrev pub bundle_items : TemplateBundleMessage → Items
  bundle_items message =
      Item.uint64_item message.revision
      ∷ Item.text_item message.hash
      ∷ Item.text_item message.json
      ∷ []

  unfoldable pub encode_bundle : TemplateBundleMessage → Option Text
  encode_bundle message = C.write (bundle_items message)

  unfoldable pub read_bundle : Read TemplateBundleMessage
  read_bundle = do
    revision ← read_uint64
    hash ← read_text
    json ← read_text
    return (record { revision = revision; hash = hash; json = json })

  unfoldable pub decode_bundle : Text → Option TemplateBundleMessage
  unfolding deserialise
  decode_bundle bytes = deserialise bytes read_bundle

  abbrev pub report_items : ComplianceReportMessage → Items
  report_items message =
      Item.text_item message.report.host_id
      ∷ Item.uint64_item message.report.applied_revision
      ∷ vector_items check_items message.report.results

  unfoldable pub encode_report : ComplianceReportMessage → Option Text
  unfolding all_items
  encode_report message = C.write (report_items message)

  unfoldable pub read_report : Read (ComplianceReportMessage × Bool)
  unfolding read_many read_result
  read_report = do
    host_id ← read_text
    applied_revision ← read_uint64
    results ← read_vector read_result
    return (
      record {
        report = record {
          host_id = host_id;
          applied_revision = applied_revision;
          results = values results;
        };
      },
      all_valid results,
    )

  unfoldable pub decode_report : Text → Option ComplianceReportMessage
  unfolding deserialise
  decode_report bytes = if_valid (deserialise bytes read_report)

  abbrev pub command_items : ScriptCommand → Items
  command_items message =
      Item.text_item message.host_id
      ∷ Item.text_item message.run_id
      ∷ Item.text_item message.script_name
      ∷ Item.text_item message.script_body
      ∷ Item.uint32_item message.timeout_seconds
      ∷ []

  unfoldable pub encode_command : ScriptCommand → Option Text
  encode_command message = C.write (command_items message)

  unfoldable pub read_command : Read ScriptCommand
  read_command = do
    host_id ← read_text
    run_id ← read_text
    script_name ← read_text
    script_body ← read_text
    timeout_seconds ← read_uint32
    return (record {
      host_id = host_id;
      run_id = run_id;
      script_name = script_name;
      script_body = script_body;
      timeout_seconds = timeout_seconds;
    })

  unfoldable pub decode_command : Text → Option ScriptCommand
  unfolding deserialise
  decode_command bytes = deserialise bytes read_command

  -- The items of a result, with the number that stands for its status.
  abbrev pub script_items : ScriptResultMessage → ℕ → Items
  script_items message status =
      Item.text_item message.host_id
      ∷ Item.text_item message.run_id
      ∷ Item.uint32_item status
      ∷ Item.text_item message.refusal_reason
      ∷ Item.int32_item message.exit_code
      ∷ Item.bool_item message.has_reported
      ∷ Item.bool_item message.reported_ok
      ∷ Item.text_item message.reported_message
      ∷ Item.text_item message.stdout_text
      ∷ Item.text_item message.stderr_text
      ∷ Item.uint64_item message.duration_ms
      ∷ []

  unfoldable pub encode_script_result : ScriptResultMessage → Option Text
  unfolding script_status_number
  encode_script_result message =
      C.write (script_items message (script_status_number message.status))

  unfoldable pub read_script_result : Read ScriptResultMessage
  unfolding script_status_of
  read_script_result = do
    host_id ← read_text
    run_id ← read_text
    status ← read_uint32
    refusal_reason ← read_text
    exit_code ← read_int32
    has_reported ← read_bool
    reported_ok ← read_bool
    reported_message ← read_text
    stdout_text ← read_text
    stderr_text ← read_text
    duration_ms ← read_uint64
    return (record {
      host_id = host_id;
      run_id = run_id;
      status = script_status_of status;
      refusal_reason = refusal_reason;
      exit_code = exit_code;
      has_reported = has_reported;
      reported_ok = reported_ok;
      reported_message = reported_message;
      stdout_text = stdout_text;
      stderr_text = stderr_text;
      duration_ms = duration_ms;
    })

  unfoldable pub decode_script_result : Text → Option ScriptResultMessage
  unfolding deserialise
  decode_script_result bytes = deserialise bytes read_script_result
