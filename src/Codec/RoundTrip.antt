-- ===== src/Codec/RoundTrip.antt =====
-- Messages encoded and decoded, of libs/transport/src/codec.cpp.
use lab_monitor.Base.{ℕ, ◌<◌, ◌≤◌, ◌^◌, ◌≡◌, refl, ap, ◌∙◌, arith, some, Text}
use lab_monitor.Base.Json.{IsInt32}
use lab_monitor.Script.{ScriptStatus}
use lab_monitor.Dispatch.{ScriptResultMessage}
use lab_monitor.Bus.{ClientAnnounce, TemplateBundleMessage, ScriptCommand}
use lab_monitor.Codec.Cdr.{CdrLibrary, IsCdrText, script_status_number, script_status_of}
use lab_monitor.Codec.{
  encode_announce, read_announce, decode_announce, encode_bundle, read_bundle, decode_bundle,
  encode_command, read_command, decode_command, encode_script_result, read_script_result,
  decode_script_result, script_items,
}
use lab_monitor.Codec.Gives.{
  Gives-return, give, Gives-text, Gives-uint32, Gives-uint64, Gives-int32, Gives-bool, Gives-paused,
  deserialise-write,
}

script_status_number-lt : (s : ScriptStatus) → script_status_number s < 2 ^ 32
unfolding script_status_number
script_status_number-lt ScriptStatus.completed = omega arith
script_status_number-lt ScriptStatus.failed = omega arith
script_status_number-lt ScriptStatus.refused = omega arith
script_status_number-lt ScriptStatus.error = omega arith

-- What a status number of a message means: a number that this build does not know, from 3 on, is an
-- error.
abbrev pub IsMeant : ℕ → ScriptStatus → Type 0
IsMeant n ScriptStatus.completed = n ≡ 0
IsMeant n ScriptStatus.failed = n ≡ 1
IsMeant n ScriptStatus.refused = n ≡ 2
IsMeant n ScriptStatus.error = 3 ≤ n

script_status_of-IsMeant :
    (n : ℕ) (status : ScriptStatus) → IsMeant n status → script_status_of n ≡ status
unfolding script_status_of
script_status_of-IsMeant n ScriptStatus.completed h = ground (arith, h)
script_status_of-IsMeant n ScriptStatus.failed h = ground (arith, h)
script_status_of-IsMeant n ScriptStatus.refused h = ground (arith, h)
script_status_of-IsMeant n ScriptStatus.error h = ground (arith, h)

script_status_number-IsMeant : (s : ScriptStatus) → IsMeant (script_status_number s) s
unfolding script_status_number
script_status_number-IsMeant ScriptStatus.completed = refl
script_status_number-IsMeant ScriptStatus.failed = refl
script_status_number-IsMeant ScriptStatus.refused = refl
script_status_number-IsMeant ScriptStatus.error = omega arith

-- The texts of a result can be held by CDR strings, and its numbers fit their types.
pub record IsWireResult (message : ScriptResultMessage) : Type 0 where
  pub host_id : IsCdrText message.host_id
  pub run_id : IsCdrText message.run_id
  pub refusal_reason : IsCdrText message.refusal_reason
  pub exit_code : IsInt32 message.exit_code
  pub reported_message : IsCdrText message.reported_message
  pub stdout_text : IsCdrText message.stdout_text
  pub stderr_text : IsCdrText message.stderr_text
  pub duration_ms : message.duration_ms < 2 ^ 64

module _ (C : CdrLibrary) where
  -- An announce whose texts are CDR strings is encoded, and it is decoded from its bytes as it was.
  pub decode-encode_announce :
      (message : ClientAnnounce)
      → IsCdrText message.host_id
      → IsCdrText message.agent_version
      → message.capabilities < 2 ^ 32
      → (bytes : Text) × (encode_announce C message ≡ some bytes)
        × (decode_announce C bytes ≡ some message)
  unfolding decode_announce encode_announce read_announce
  decode-encode_announce message a b h =
      deserialise-write C (read_announce C) _ _ message (a, (b, (tt, (tt, tt))))
        (give C _ _ _ message.host_id (Gives-text C message.host_id a) (
          give C _ _ _ message.agent_version (Gives-text C message.agent_version b) (
            give C _ _ _ message.capabilities (Gives-uint32 C message.capabilities h) (
              give C _ _ _ message.paused (Gives-paused C message.paused)
                (Gives-return C message)))))

  pub decode-encode_bundle :
      (message : TemplateBundleMessage)
      → IsCdrText message.hash
      → IsCdrText message.json
      → message.revision < 2 ^ 64
      → (bytes : Text) × (encode_bundle C message ≡ some bytes)
        × (decode_bundle C bytes ≡ some message)
  unfolding decode_bundle encode_bundle read_bundle
  decode-encode_bundle message a b h =
      deserialise-write C (read_bundle C) _ _ message (tt, (a, (b, tt)))
        (give C _ _ _ message.revision (Gives-uint64 C message.revision h) (
          give C _ _ _ message.hash (Gives-text C message.hash a)
            (give C _ _ _ message.json (Gives-text C message.json b) (Gives-return C message))))

  pub decode-encode_command :
      (message : ScriptCommand)
      → IsCdrText message.host_id
      → IsCdrText message.run_id
      → IsCdrText message.script_name
      → IsCdrText message.script_body
      → message.timeout_seconds < 2 ^ 32
      → (bytes : Text) × (encode_command C message ≡ some bytes)
        × (decode_command C bytes ≡ some message)
  unfolding decode_command encode_command read_command
  decode-encode_command message a b c d h =
      deserialise-write C (read_command C) _ _ message (a, (b, (c, (d, (tt, tt)))))
        (give C _ _ _ message.host_id (Gives-text C message.host_id a) (
          give C _ _ _ message.run_id (Gives-text C message.run_id b) (
            give C _ _ _ message.script_name (Gives-text C message.script_name c) (
              give C _ _ _ message.script_body (Gives-text C message.script_body d) (
                give C _ _ _ message.timeout_seconds (Gives-uint32 C message.timeout_seconds h)
                  (Gives-return C message))))))

  -- What is read of the items of a result whose status stands there as a number.
  script_result_read :
      (message : ScriptResultMessage) (n : ℕ)
      → n < 2 ^ 32
      → IsWireResult message
      → (bytes : Text) × (C.write (script_items C message n) ≡ some bytes)
        × (decode_script_result C bytes ≡ some (record message { status = script_status_of n }))
  unfolding decode_script_result read_script_result
  script_result_read message n h w =
      deserialise-write C (read_script_result C) _ _
        (record message { status = script_status_of n })
        (
          w.host_id,
          (
            w.run_id,
            (
              tt,
              (
                w.refusal_reason,
                (tt, (tt, (tt, (w.reported_message, (w.stdout_text, (w.stderr_text, (tt, tt))))))),
              ),
            ),
          ),
        )
        (give C _ _ _ message.host_id (Gives-text C message.host_id w.host_id) (
          give C _ _ _ message.run_id (Gives-text C message.run_id w.run_id) (
            give C _ _ _ n (Gives-uint32 C n h) (
              give C _ _ _ message.refusal_reason
                (Gives-text C message.refusal_reason w.refusal_reason)
                (give C _ _ _ message.exit_code (Gives-int32 C message.exit_code w.exit_code) (
                  give C _ _ _ message.has_reported (Gives-bool C message.has_reported) (
                    give C _ _ _ message.reported_ok (Gives-bool C message.reported_ok) (
                      give C _ _ _ message.reported_message
                        (Gives-text C message.reported_message w.reported_message)
                        (give C _ _ _ message.stdout_text
                          (Gives-text C message.stdout_text w.stdout_text)
                          (give C _ _ _ message.stderr_text
                            (Gives-text C message.stderr_text w.stderr_text)
                            (give C _ _ _ message.duration_ms
                              (Gives-uint64 C message.duration_ms w.duration_ms)
                              (Gives-return C
                                (record message { status = script_status_of n })))))))))))))

  -- A result whose texts are CDR strings and whose numbers fit, written with a number for its status:
  -- it is decoded with the status that the number means, completed for 0, failed for 1, refused for 2
  -- and an error from 3 on, and otherwise as it was sent.
  pub decode_script_result-number :
      (message : ScriptResultMessage) (n : ℕ) (status : ScriptStatus)
      → n < 2 ^ 32
      → IsMeant n status
      → IsWireResult message
      → (bytes : Text) × (C.write (script_items C message n) ≡ some bytes)
        × (decode_script_result C bytes ≡ some (record message { status = status }))
  decode_script_result-number message n status h m w =
      let (bytes, e, d) = script_result_read message n h w in
      (
        bytes,
        e,
        d ∙ ap (λ s. some (record message { status = s })) (script_status_of-IsMeant n status m),
      )

  -- A script result whose texts are CDR strings and whose numbers fit their types is encoded, and it
  -- is decoded from its bytes as it was.
  pub decode-encode_script_result :
      (message : ScriptResultMessage)
      → IsWireResult message
      → (bytes : Text) × (encode_script_result C message ≡ some bytes)
        × (decode_script_result C bytes ≡ some message)
  unfolding encode_script_result
  decode-encode_script_result message w =
      decode_script_result-number message (script_status_number message.status) message.status
        (script_status_number-lt message.status) (script_status_number-IsMeant message.status) w
