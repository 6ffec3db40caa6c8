-- ===== src/Controller/Runs/Answers.antt =====
-- What a result and a deadline do to a run of the server, of apps/server/server_controller.cpp.
use lab_monitor.Base.{
  ◌≡◌, ◌≢◌, ◌⊎◌, refl, ap, ◌∙◌, sym, arith, inl, inr, true, some, List, [], ◌∷◌, ◌==◌, map,
  if◌then◌else◌, Bool-cases, All, Text, str_eq, str_eq_iff, str_eq_refl,
}
use lab_monitor.Base.Json.{JsonLibrary}
use lab_monitor.Script.{ScriptStatus}
use lab_monitor.Dispatch.{
  TargetState, RunTarget, ScriptRun, ScriptResultMessage, apply_result, apply_deadline, tally,
  is_finished, none_waiting, find_target, answered_target, expired_target, state_for,
}
use lab_monitor.Dispatch.Targets.{write_found_other, find-write_target}
use lab_monitor.RuleDetail.{Qt}
use lab_monitor.Controller.{Disk, Server}
use lab_monitor.Controller.Runs.{
  find_run, is_open, changed_run, deadline_in, on_script_result, on_run_deadline,
}
use lab_monitor.Controller.Runs.Book.{IsDecidedRun}
use lab_monitor.Controller.Runs.Moves.{find-write, found_id, finished_by_deadline, found_after}
use lab_monitor.Controller.Runs.History.{changed_run_runs}

-- The target behind a result with a status: what the server makes of each status.
abbrev pub answered_as : ScriptResultMessage → RunTarget → ScriptStatus → RunTarget
answered_as result target ScriptStatus.completed = record target {
  state = TargetState.completed;
  result = some result;
}
answered_as result target ScriptStatus.failed = record target {
  state = TargetState.failed;
  result = some result;
}
answered_as result target ScriptStatus.refused = record target {
  state = TargetState.refused;
  detail = result.refusal_reason;
  result = some result;
}
answered_as result target ScriptStatus.error = record target {
  state = TargetState.failed;
  result = some result;
}

answered_target-as :
    (result : ScriptResultMessage) (target : RunTarget) (status : ScriptStatus)
    → result.status ≡ status
    → answered_target result target ≡ answered_as result target status
unfolding state_for
answered_target-as result target ScriptStatus.completed e = rw e refl
answered_target-as result target ScriptStatus.failed e = rw e refl
answered_target-as result target ScriptStatus.refused e = rw e refl
answered_target-as result target ScriptStatus.error e = rw e refl

-- The target that a result finds, and the others.
apply_result-target :
    (run : ScriptRun) (target : RunTarget) (result : ScriptResultMessage) (host_id : Text)
    → find_target run.targets result.host_id ≡ some target
    → find_target (apply_result run result).targets host_id ≡ (
        if str_eq result.host_id host_id
        then some (answered_as result target result.status)
        else find_target run.targets host_id)
unfolding apply_result
apply_result-target run target result host_id e =
    find-write_target run.targets result.host_id host_id (answered_target result) (λ t. refl)
    ∙ elim (Bool-cases (str_eq result.host_id host_id)) [
      | inl b ↦
          let here = ap (find_target run.targets) (sym ((str_eq_iff result.host_id host_id).0 b)) in
          rw (b, here ∙ e) (ap some (answered_target-as result target result.status refl))
      | inr b ↦ rw b (write_found_other (answered_target result) (find_target run.targets host_id))
    ]

module _ (J : JsonLibrary) (Q : Qt) where
  changed_run-find :
      (c : Server J Q) (run : ScriptRun) (disk : Disk Q.QString) (key id : Text)
      → run.run_id ≡ key
      → find_run (changed_run J Q c run disk).0.script_runs id
        ≡ found_after run (str_eq key id) (find_run c.script_runs id)
  changed_run-find c run disk key id e =
      ap (λ runs. find_run runs id) (changed_run_runs J Q c run disk)
      ∙ find-write c.script_runs run id
      ∙ ap (λ k. found_after run (str_eq k id) (find_run c.script_runs id)) e

  -- Where the run is there, found_after is a choice.
  found_choice :
      (c : Server J Q) (run changed : ScriptRun) (key id : Text)
      → find_run c.script_runs key ≡ some run
      → found_after changed (str_eq key id) (find_run c.script_runs id)
        ≡ (if str_eq key id then some changed else find_run c.script_runs id)
  found_choice c run changed key id e = elim (Bool-cases (str_eq key id)) [
    | inl b ↦
        let here = ap (find_run c.script_runs) (sym ((str_eq_iff key id).0 b)) ∙ e in
        rw (b, here) refl
    | inr b ↦ rw b refl
  ]

  -- A target that waits, or that the deadline has passed for.
  abbrev pub IsAwaited : TargetState → Type 0
  IsAwaited s = (s ≡ TargetState.dispatched) ⊎ (s ≡ TargetState.no_response)

  awaited_open : (s : TargetState) → IsAwaited s → is_open s ≡ true
  awaited_open s (inl e) = rw e refl
  awaited_open s (inr e) = rw e refl

  -- A result for a run and a host that the run targets, where the target is dispatched or without a
  -- response: the run is still there, its target for the host takes the result, with the state that
  -- goes with the result's status and, if it is refused, with the reason; the targets for other hosts
  -- and the other runs stay as they were.
  pub on_script_result-taken :
      (c : Server J Q) (run : ScriptRun) (target : RunTarget) (result : ScriptResultMessage)
      (disk : Disk Q.QString) (id host_id : Text)
      → find_run c.script_runs result.run_id ≡ some run
      → find_target run.targets result.host_id ≡ some target
      → IsAwaited target.state
      → let runs = (on_script_result J Q c result disk).0.script_runs in
        (after : ScriptRun) × (find_run runs result.run_id ≡ some after)
        × (find_run runs id
            ≡ (if str_eq result.run_id id then some after else find_run c.script_runs id))
        × (find_target after.targets host_id ≡ (
            if str_eq result.host_id host_id
            then some (answered_as result target result.status)
            else find_target run.targets host_id))
  unfolding on_script_result
  on_script_result-taken c run target result disk id host_id e t w =
      let is_open_now = awaited_open target.state w in
      let after = apply_result run result in
      let same : after.run_id ≡ result.run_id =
        unfold apply_result in found_id c.script_runs result.run_id run e in
      let found : (x : Text)
          → find_run (changed_run J Q c after disk).0.script_runs x
            ≡ (if str_eq result.run_id x then some after else find_run c.script_runs x) =
        λ x.
          changed_run-find c after disk result.run_id x same
          ∙ found_choice c run after result.run_id x e in
      rw (e, t, is_open_now)
        (
          after,
          found result.run_id ∙ rw (str_eq_refl result.run_id) refl,
          found id,
          apply_result-target run target result host_id t,
        )

  -- The target before a deadline and behind it: without a response if it was dispatched, and as it was
  -- otherwise.
  abbrev pub IsAged : RunTarget → RunTarget → Type 0
  IsAged before after =
      ((before.state ≡ TargetState.dispatched)
        × (after ≡ record before { state = TargetState.no_response }))
      ⊎ ((before.state ≢ TargetState.dispatched) × (after ≡ before))

  abbrev pub AreAged : List RunTarget → List RunTarget → Type 0
  AreAged [] [] = Unit
  AreAged (b ∷ bs) (a ∷ as_) = IsAged b a × AreAged bs as_
  AreAged _ _ = ⊥

  -- A target that nothing is waited for.
  abbrev pub IsSettled : RunTarget → Type 0
  IsSettled target = (target.state ≢ TargetState.pending) × (target.state ≢ TargetState.dispatched)

  one-IsAged :
      (target : RunTarget) (s : TargetState)
      → target.state ≡ s
      → IsAged target (expired_target target)
  one-IsAged target TargetState.pending e = inr (λ h. cc, rw e refl)
  one-IsAged target TargetState.dispatched e = inl (e, rw e refl)
  one-IsAged target TargetState.completed e = inr (λ h. cc, rw e refl)
  one-IsAged target TargetState.failed e = inr (λ h. cc, rw e refl)
  one-IsAged target TargetState.refused e = inr (λ h. cc, rw e refl)
  one-IsAged target TargetState.no_response e = inr (λ h. cc, rw e refl)

  all-AreAged : (targets : List RunTarget) → AreAged targets (map expired_target targets)
  all-AreAged [] = tt
  all-AreAged (t ∷ ts) = (one-IsAged t t.state refl, all-AreAged ts)

  settled-AreAged : (targets : List RunTarget) → All IsSettled targets → AreAged targets targets
  settled-AreAged [] h = tt
  settled-AreAged (t ∷ ts) h = (inr (h.0.1, refl), settled-AreAged ts h.1)

  finished-IsSettled :
      (targets : List RunTarget) → none_waiting targets ≡ true → All IsSettled targets
  unfolding none_waiting
  finished-IsSettled [] h = tt
  finished-IsSettled (t ∷ ts) h =
      ((λ e. ground arith, λ e. ground arith), finished-IsSettled ts (ground arith))

  deadline_in-IsSettled :
      (c : Server J Q) (before : ScriptRun) (disk : Disk Q.QString) (run_id : Text)
      → find_run c.script_runs run_id ≡ some before
      → IsDecidedRun before
      → (after : ScriptRun) × (find_run (deadline_in J Q c disk (some before)).0.script_runs run_id
          ≡ some after)
        × AreAged before.targets after.targets
        × All IsSettled after.targets
  unfolding is_finished apply_deadline
  deadline_in-IsSettled c before disk run_id e decided =
      let ends = finished_by_deadline before decided in
      elim (Bool-cases ((tally before).dispatched == 0)) [
        | inl z ↦
            let settled = finished-IsSettled before.targets (ends.1 (ground (arith, z))) in
            rw z (before, e, settled-AreAged before.targets settled, settled)
        | inr z ↦
            let found =
              changed_run-find c (apply_deadline before) disk run_id run_id
                (found_id c.script_runs run_id before e) in
            rw z (
              apply_deadline before,
              found ∙ rw (e, str_eq_refl run_id) refl,
              all-AreAged before.targets,
              finished-IsSettled (map expired_target before.targets) ends.0,
            )
      ]

  -- When the deadline of a run passes that has no pending target: the run is still there, its
  -- dispatched targets are without a response and the others as they were, and none of them is
  -- pending or dispatched.
  pub on_run_deadline-IsSettled :
      (c : Server J Q) (before : ScriptRun) (disk : Disk Q.QString) (run_id : Text)
      → find_run c.script_runs run_id ≡ some before
      → IsDecidedRun before
      → (after : ScriptRun) × (find_run (on_run_deadline J Q c run_id disk).0.script_runs run_id
          ≡ some after)
        × AreAged before.targets after.targets
        × All IsSettled after.targets
  unfolding on_run_deadline
  on_run_deadline-IsSettled c before disk run_id e decided =
      rw e (deadline_in-IsSettled c before disk run_id e decided)
