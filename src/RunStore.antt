-- ===== src/RunStore.antt =====
-- apps/server/run_store.cpp: a script run as JSON and back, and the ids that may name a file. Files and
-- directories are left out. A time is a count of the clock's ticks since the epoch.
pub mod RoundTrip
mod Examples
use lab_monitor.Base.{
  ℕ, zero, suc, ◌+◌, ◌-◌, ◌*◌, ◌/◌, ℤ, pos, negsuc, Bool, true, false, not, ◌&&◌, ◌||◌, Option,
  none, some, List, [], ◌∷◌, ◌++◌, map, if◌then◌else◌, Text, text, str_eq, empty, contains,
}
use lab_monitor.Base.Json.{Expected, View, JsonLibrary}
use lab_monitor.Base.Expected.{
  ◌>>=◌, or_throw, each, at, contains_key, get_string, get_boolean, get_elements, string_at,
}
use lab_monitor.Script.{ScriptStatus, script_status_to_string}
use lab_monitor.Dispatch.{
  TargetState, RunTarget, ScriptRun, ScriptResultMessage, target_state_to_string,
  target_state_from_string,
}

unfoldable pub script_status_from_string : Text → Option ScriptStatus
script_status_from_string s =
    if str_eq s (text "Completed")
    then some ScriptStatus.completed
    else if str_eq s (text "Failed")
    then some ScriptStatus.failed
    else if str_eq s (text "Refused")
    then some ScriptStatus.refused
    else if str_eq s (text "Error")
    then some ScriptStatus.error
    else none

unfoldable pub is_safe_run_id : Text → Bool
is_safe_run_id run_id =
    not (empty run_id)
    && (not (contains run_id (text "/"))
        && (not (contains run_id (text "\\"))
            && (not (contains run_id (text "..")) && not (contains run_id (text ":")))))

-- - n.
abbrev pub negative : ℕ → ℤ
negative zero = pos 0
negative (suc n) = negsuc n

-- duration_cast to seconds, which cuts off towards zero; a second has `ticks` ticks.
abbrev pub seconds_of : ℕ → ℤ → ℤ
seconds_of ticks (pos n) = pos (n / ticks)
seconds_of ticks (negsuc n) = negative (suc n / ticks)

abbrev pub ticks_of : ℕ → ℤ → ℤ
ticks_of ticks (pos s) = pos (s * ticks)
ticks_of ticks (negsuc s) = negative (suc s * ticks)

module _ (J : JsonLibrary) (ticks : ℕ) where
  open J use {
    Json, Double, view, of_string, of_boolean, of_size, of_integer, of_array, of_object, get_int,
    get_int64, get_uint32, get_uint64,
  }

  unfoldable pub result_to_json : ScriptResultMessage → Json
  result_to_json result = of_object (
      (text "status", of_string (script_status_to_string result.status))
      ∷ (text "refusal_reason", of_string result.refusal_reason)
      ∷ (text "exit_code", of_integer result.exit_code)
      ∷ (text "has_reported", of_boolean result.has_reported)
      ∷ (text "reported_ok", of_boolean result.reported_ok)
      ∷ (text "reported_message", of_string result.reported_message)
      ∷ (text "stdout_text", of_string result.stdout_text)
      ∷ (text "stderr_text", of_string result.stderr_text)
      ∷ (text "duration_ms", of_size result.duration_ms)
      ∷ [])

  -- An exception and an unexpected value end as the same text in run_from_json.
  unfoldable pub result_from_json : Text → Text → Json → Expected ScriptResultMessage Text
  result_from_json host_id run_id j = do
    status_text ← string_at J j (text "status")
    status ←
        or_throw (text "unknown script status '" ++ (status_text ++ text "'"))
          (script_status_from_string status_text)
    refusal_reason ← string_at J j (text "refusal_reason")
    exit_code ← at J j (text "exit_code") >>= get_int
    has_reported ← at J j (text "has_reported") >>= get_boolean J
    reported_ok ← at J j (text "reported_ok") >>= get_boolean J
    reported_message ← string_at J j (text "reported_message")
    stdout_text ← string_at J j (text "stdout_text")
    stderr_text ← string_at J j (text "stderr_text")
    duration_ms ← at J j (text "duration_ms") >>= get_uint64
    Expected.value (record {
      host_id = host_id;
      run_id = run_id;
      status = status;
      refusal_reason = refusal_reason;
      exit_code = exit_code;
      has_reported = has_reported;
      reported_ok = reported_ok;
      reported_message = reported_message;
      stdout_text = stdout_text;
      stderr_text = stderr_text;
      duration_ms = duration_ms;
    })

  abbrev pub result_member : Option ScriptResultMessage → List (Text × Json)
  result_member none = []
  result_member (some result) = (text "result", result_to_json result) ∷ []

  unfoldable pub target_to_json : RunTarget → Json
  target_to_json target = of_object (
      (text "host_id", of_string target.host_id)
      ∷ (text "state", of_string (target_state_to_string target.state))
      ∷ (text "detail", of_string target.detail)
      ∷ result_member target.result)

  abbrev pub is_null : View Json Double → Bool
  is_null View.null = true
  is_null _ = false

  abbrev pub result_if : Text → Text → Json → Bool → Expected (Option ScriptResultMessage) Text
  result_if host_id run_id j true = Expected.value none
  result_if host_id run_id j false = do
    result ← result_from_json host_id run_id j
    Expected.value (some result)

  -- `j.contains("result") && !j.at("result").is_null()`.
  abbrev pub result_from : Text → Text → Json → Bool → Expected (Option ScriptResultMessage) Text
  result_from host_id run_id j true = do
    result ← at J j (text "result")
    result_if host_id run_id result (is_null (view result))
  result_from host_id run_id j false = Expected.value none

  unfoldable pub target_from_json : Text → Json → Expected RunTarget Text
  target_from_json run_id j = do
    host_id ← string_at J j (text "host_id")
    state_text ← string_at J j (text "state")
    state ←
        or_throw
          (text "unknown target state '"
            ++ (state_text ++ (text "' for host '" ++ (host_id ++ text "'"))))
          (target_state_from_string state_text)
    detail ← string_at J j (text "detail")
    result ← result_from host_id run_id j (contains_key J j (text "result"))
    Expected.value (record { host_id = host_id; state = state; detail = detail; result = result })

  unfoldable pub run_to_json : ScriptRun → Json
  run_to_json run = of_object (
      (text "run_id", of_string run.run_id)
      ∷ (text "script_name", of_string run.script_name)
      ∷ (text "script_body", of_string run.script_body)
      ∷ (text "issued_at", of_integer (seconds_of ticks run.issued_at))
      ∷ (text "timeout_seconds", of_size run.timeout_seconds)
      ∷ (text "targets", of_array (map target_to_json run.targets))
      ∷ [])

  -- A check of the document before anything is read; a value that is no object has no members.
  abbrev pub checked : {A : Type 0} → Text → Expected A Text → Expected A Text
  checked reason (Expected.unexpected _) = Expected.unexpected reason
  checked reason (Expected.value a) = Expected.value a

  abbrev pub not_empty : Text → Expected Text Text
  not_empty s = if empty s then Expected.unexpected s else Expected.value s

  unfoldable pub run_from_json : Json → Expected ScriptRun Text
  run_from_json document = do
    run_id ←
        checked (text "missing or empty run_id")
          (string_at J document (text "run_id") >>= not_empty)
    targets_json ←
        checked (text "missing or non-array targets")
          (at J document (text "targets") >>= get_elements J)
    script_name ← string_at J document (text "script_name")
    script_body ← string_at J document (text "script_body")
    issued_at ← at J document (text "issued_at") >>= get_int64
    timeout_seconds ← at J document (text "timeout_seconds") >>= get_uint32
    targets ← each (target_from_json run_id) targets_json
    Expected.value (record {
      run_id = run_id;
      script_name = script_name;
      script_body = script_body;
      issued_at = ticks_of ticks issued_at;
      timeout_seconds = timeout_seconds;
      targets = targets;
    })
