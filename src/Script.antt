-- ===== src/Script.antt =====
-- libs/core/src/script.cpp and libs/core/include/lm/core/script.hpp: what a client makes of one
-- execution of a script, and the optional verdict of the script itself.
pub mod Verdict
mod Examples
use lab_monitor.Base.{
  ℕ, Bool, true, false, not, ◌||◌, ℤ, pos, eqb_ℤ, Option, none, some, List, [], ◌∷◌, ◌==◌,
  if◌then◌else◌, length, Text, text, split, starts_with,
}
use lab_monitor.Base.OrderedMap
use lab_monitor.Base.Json.{Expected, View, JsonLibrary}
use mathlib.Core.List.{drop, reverse}

pub data ScriptStatus : Type 0 where
  completed failed refused error : ScriptStatus

unfoldable pub script_status_to_string : ScriptStatus → Text
script_status_to_string ScriptStatus.completed = text "Completed"
script_status_to_string ScriptStatus.failed = text "Failed"
script_status_to_string ScriptStatus.refused = text "Refused"
script_status_to_string ScriptStatus.error = text "Error"

pub record ReportedResult : Type 0 where
  pub ok : Bool
  pub message : Text

abbrev pub marker : Text
unfolding text
marker = text "LM-RESULT:"

-- The line without the '\r' that may end it; the text has its last character first.
abbrev drop_return : Text → Text
drop_return [] = []
drop_return (c ∷ cs) = if c == b'\r' then cs else c ∷ cs

unfoldable pub trim_return : Text → Text
trim_return line = reverse (drop_return (reverse line))

unfoldable pub skip_spaces : Text → Text
skip_spaces [] = []
skip_spaces (c ∷ cs) = let rest = skip_spaces cs in if c == b' ' then rest else c ∷ cs

-- The line's payload, where the line starts with the marker.
unfoldable pub marked : Text → Option Text
unfolding trim_return skip_spaces
marked raw =
    let line = trim_return raw in
    if starts_with line marker then some (skip_spaces (after marker line)) else none
  where
    after : Text → Text → Text
    after [] line = line
    after (c ∷ cs) [] = []
    after (c ∷ cs) (x ∷ line) = after cs line

module _ (J : JsonLibrary) where
  open J use {Json, Double, view, parse_json}

  abbrev text_of : View Json Double → Text
  text_of (View.string s) = s
  text_of _ = []

  abbrev message_of : Option Json → Text
  message_of none = []
  message_of (some value) = text_of (view value)

  abbrev verdict : List (Text × Json) → View Json Double → Option ReportedResult
  verdict members (View.boolean ok) =
      some record { ok = ok; message = message_of (OrderedMap.find (text "message") members) }
  verdict members _ = none

  abbrev verdict_of : List (Text × Json) → Option Json → Option ReportedResult
  verdict_of members none = none
  verdict_of members (some value) = verdict members (view value)

  abbrev of_view : View Json Double → Option ReportedResult
  of_view (View.object members) = verdict_of members (OrderedMap.find (text "ok") members)
  of_view _ = none

  abbrev of_document : Expected Json Text → Option ReportedResult
  of_document (Expected.unexpected what) = none
  of_document (Expected.value parsed) = of_view (view parsed)

  abbrev of_marked : Option Text → Option ReportedResult
  of_marked none = none
  of_marked (some payload) = of_document (parse_json payload)

  -- What one line reports, if it reports anything.
  unfoldable pub reported_by : Text → Option ReportedResult
  unfolding marked
  reported_by line = of_marked (marked line)

  abbrev pub keep : Option ReportedResult → Option ReportedResult → Option ReportedResult
  keep found none = found
  keep found (some result) = some result

  -- The loop over the lines; `found` is what the lines before have reported.
  unfoldable pub scan_lines : List Text → Option ReportedResult → Option ReportedResult
  scan_lines [] found = found
  scan_lines (line ∷ lines) found = scan_lines lines (keep found (reported_by line))

  unfoldable pub parse_reported_result : Text → Option ReportedResult
  unfolding scan_lines
  parse_reported_result output = scan_lines (split b'\n' output) none

pub record ScriptOutcome : Type 0 where
  pub exit_code : ℤ
  pub reported : Option ReportedResult
  pub stdout_text : Text
  pub stderr_text : Text
  pub duration_ms : ℕ
  pub timed_out : Bool
  pub started : Bool

abbrev pub denied : Option ReportedResult → Bool
denied none = false
denied (some result) = not result.ok

unfoldable pub status : ScriptOutcome → ScriptStatus
status outcome =
    if not outcome.started || outcome.timed_out
    then ScriptStatus.error
    else if not (eqb_ℤ outcome.exit_code (pos 0))
    then ScriptStatus.failed
    else if denied outcome.reported
    then ScriptStatus.failed
    else ScriptStatus.completed
