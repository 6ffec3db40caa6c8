-- ===== src/RunStore/RoundTrip.antt =====
-- A run written by run_to_json and read by run_from_json, of apps/server/run_store.cpp.
use lab_monitor.Base.{
  ℕ, ◌<◌, ◌≡◌, ◌^◌, false, Option, none, some, List, ◌∷◌, All, Text, text, empty,
}
use lab_monitor.Base.Json.{Expected, JsonLibrary, IsInt32, IsInt64}
use lab_monitor.Dispatch.{RunTarget, ScriptRun, ScriptResultMessage, target_state_to_string}
use lab_monitor.RunStore.{seconds_of, result_member}

-- A result belongs to the target and the run it is kept in, and its numbers fit their types.
pub record IsWireResult (run_id host_id : Text) (result : ScriptResultMessage) : Type 0 where
  pub run : result.run_id ≡ run_id
  pub host : result.host_id ≡ host_id
  pub exit_code : IsInt32 result.exit_code
  pub duration_ms : result.duration_ms < 2 ^ 64

abbrev pub IsWireOption : Text → Text → Option ScriptResultMessage → Type 0
IsWireOption run_id host_id none = Unit
IsWireOption run_id host_id (some result) = IsWireResult run_id host_id result

abbrev pub IsWireTarget : Text → RunTarget → Type 0
IsWireTarget run_id target = IsWireOption run_id target.host_id target.result

-- The run has an id, its numbers fit their types, and its results belong to it.
pub record IsWireRun (ticks : ℕ) (run : ScriptRun) : Type 0 where
  pub run_id : empty run.run_id ≡ false
  pub issued_at : IsInt64 (seconds_of ticks run.issued_at)
  pub timeout_seconds : run.timeout_seconds < 2 ^ 32
  pub targets : All (IsWireTarget run.run_id) run.targets

module _ (J : JsonLibrary) (ticks : ℕ) where
  open J use {
    Json, view, of_string, of_boolean, of_size, of_integer, of_array, of_object, get_int,
    get_uint64,
  }

  abbrev target_members : RunTarget → Option ScriptResultMessage → List (Text × Json)
  target_members target result =
      (text "host_id", of_string target.host_id)
      ∷ (text "state", of_string (target_state_to_string target.state))
      ∷ (text "detail", of_string target.detail)
      ∷ result_member J ticks result
