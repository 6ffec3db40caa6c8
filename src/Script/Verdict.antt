-- ===== src/Script/Verdict.antt =====
-- The status of an execution and the last verdict of a script's output.
use lab_monitor.Base.{
  ◌≡◌, ◌≢◌, ◌↔◌, ◌⊎◌, inl, inr, refl, ap, ◌∙◌, sym, arith, Bool, true, false, pos, eqb_ℤ_iff,
  Option, none, some, List, [], ◌∷◌, ◌++◌, Text, split, All, Bool-cases, ℕ, ◌==◌, split_none,
}
use lab_monitor.Base.Strings.{prepend}
use lab_monitor.Base.Json.{JsonLibrary}
use lab_monitor.Script.{
  ScriptStatus, ReportedResult, ScriptOutcome, status, reported_by, scan_lines,
  parse_reported_result, keep, denied,
}

-- The script did not deny its success exactly if every result that it reported is one of success.
denied_iff :
    (o : Option ReportedResult)
    → (denied o ≡ false) ↔ ((r : ReportedResult) → o ≡ some r → r.ok ≡ true)
denied_iff none = (λ h r e. cc, λ h. refl)
denied_iff (some r) = (λ h q e. ground (arith, ap ok_or e), λ h. ground (arith, h r refl))
  where
    ok_or : Option ReportedResult → Bool
    ok_or none = true
    ok_or (some q) = q.ok

-- An execution is completed exactly when the shell started, it was not killed for its time, the exit
-- code is 0 and no result that the script reported is a failure; it is an error exactly when the shell did not
-- start or it was killed for its time, whatever the exit code and the report; and an execution is
-- never refused.
pub status_iff :
    (outcome : ScriptOutcome)
    → ((status outcome ≡ ScriptStatus.completed) ↔ (
        (outcome.started ≡ true)
        × (outcome.timed_out ≡ false)
        × (outcome.exit_code ≡ pos 0)
        × ((r : ReportedResult) → outcome.reported ≡ some r → r.ok ≡ true)))
      × ((status outcome ≡ ScriptStatus.error)
          ↔ ((outcome.started ≡ false) ⊎ (outcome.timed_out ≡ true)))
      × (status outcome ≢ ScriptStatus.refused)
unfolding status
status_iff outcome = (
  (
    λ h. (
      ground arith,
      ground arith,
      (eqb_ℤ_iff outcome.exit_code (pos 0)).0 (ground arith),
      (denied_iff outcome.reported).0 (ground arith),
    ),
    λ (a, b, c, d).
        rw (a, b, (eqb_ℤ_iff outcome.exit_code (pos 0)).1 c, (denied_iff outcome.reported).1 d)
          refl,
  ),
  (λ h. ground arith, λ h. ground arith),
  λ h. ground arith,
)

prepend-append :
    (a : ℕ) (c : ℕ) (s : Text) (ls : List Text)
    → prepend a (split c s) ++ ls ≡ prepend a (split c s ++ ls)
unfolding split
prepend-append a c [] ls = refl
prepend-append a c (x ∷ s) ls = elim (Bool-cases (x == c)) [
  | inl e ↦ rw e refl
  | inr e ↦ rw e (two (split c s))
]
  where
    two : (rest : List Text) → prepend a (prepend x rest) ++ ls ≡ prepend a (prepend x rest ++ ls)
    two [] = refl
    two (l ∷ rest) = refl

split-join : (c : ℕ) (s t : Text) → split c (s ++ c ∷ t) ≡ split c s ++ split c t
unfolding split
split-join c [] t = ground arith
split-join c (a ∷ s) t = elim (Bool-cases (a == c)) [
  | inl e ↦ rw (e, split-join c s t) refl
  | inr e ↦ rw (e, split-join c s t) (sym (prepend-append a c s (split c t)))
]

module _ (J : JsonLibrary) where
  scan_lines-append :
      (xs ys : List Text) (found : Option ReportedResult)
      → scan_lines J (xs ++ ys) found ≡ scan_lines J ys (scan_lines J xs found)
  unfolding scan_lines
  scan_lines-append [] ys found = refl
  scan_lines-append (x ∷ xs) ys found = scan_lines-append xs ys _

  scan_lines-keep :
      (lines : List Text) (found : Option ReportedResult)
      → scan_lines J lines found ≡ keep J found (scan_lines J lines none)
  unfolding scan_lines
  scan_lines-keep [] found = refl
  scan_lines-keep (line ∷ lines) found =
      scan_lines-keep lines (keep J found (reported_by J line))
      ∙ assoc (reported_by J line) (scan_lines J lines none)
      ∙ ap (keep J found) (sym (scan_lines-keep lines (keep J none (reported_by J line))))
    where
      assoc :
          (one rest : Option ReportedResult)
          → keep J (keep J found one) rest ≡ keep J found (keep J (keep J none one) rest)
      assoc none none = refl
      assoc (some r) none = refl
      assoc none (some s) = refl
      assoc (some r) (some s) = refl

  -- The verdict of an output is the one of its part after any line's end, where that part has one,
  -- and the one of the part before otherwise; and the verdict of an output without a line's end is
  -- what that one line reports.
  pub parse_reported_result_last :
      (before after : Text)
      → (parse_reported_result J (before ++ b'\n' ∷ after)
          ≡ keep J (parse_reported_result J before) (parse_reported_result J after))
        × (All (λ c. (c == b'\n') ≡ false) before
            → parse_reported_result J before ≡ reported_by J before)
  unfolding parse_reported_result
  parse_reported_result_last before after = (
    ap (λ ls. scan_lines J ls none) (split-join b'\n' before after)
        ∙ scan_lines-append (split b'\n' before) (split b'\n' after) none
        ∙ scan_lines-keep (split b'\n' after) (scan_lines J (split b'\n' before) none),
    λ h.
        ap (λ ls. scan_lines J ls none) (split_none b'\n' before h)
        ∙ one_line (reported_by J before) refl,
  )
    where
      one_line :
          (o : Option ReportedResult)
          → reported_by J before ≡ o
          → scan_lines J (before ∷ []) none ≡ o
      one_line none e = ap (keep J none) e
      one_line (some r) e = ap (keep J none) e
