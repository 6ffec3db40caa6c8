-- ===== src/Controller/Runs/Moves.antt =====
-- What a result and a deadline make of a run of the server, and a write of a run of the list.
use lab_monitor.Base.{
  ◌≡◌, ◌≢◌, refl, ap, ◌∙◌, sym, arith, inl, inr, Bool, true, false, Option, some, List, [], ◌∷◌,
  map, Bool-cases, All, Text, str_eq, str_eq_iff,
}
use lab_monitor.Script.{ScriptStatus}
use lab_monitor.Dispatch.{
  TargetState, RunTarget, ScriptRun, ScriptResultMessage, write_target, answered_target,
  apply_result, apply_deadline, expired, expired_target, state_for, tally, tally_from, counted,
  no_targets, is_finished, RunTally,
}
use lab_monitor.Dispatch.Tallies.{is_finished_iff, is_finished-apply_deadline}
use lab_monitor.Controller.Runs.{find_run, write_run}
use lab_monitor.Controller.Runs.Start.{IsDecided}
use lab_monitor.Controller.Runs.Book.{IsDecidedRun}

state_for-decided : (s : ScriptStatus) → state_for s ≢ TargetState.pending
unfolding state_for
state_for-decided ScriptStatus.completed h = cc
state_for-decided ScriptStatus.failed h = cc
state_for-decided ScriptStatus.refused h = cc
state_for-decided ScriptStatus.error h = cc

pub write_target-All :
    (targets : List RunTarget) (host_id : Text) (f : RunTarget → RunTarget)
    → ((t : RunTarget) → IsDecided (f t))
    → All IsDecided targets
    → All IsDecided (write_target targets host_id f)
unfolding write_target
write_target-All [] host_id f h a = tt
write_target-All (t ∷ ts) host_id f h a = elim (Bool-cases (str_eq t.host_id host_id)) [
  | inl e ↦ rw e (h t, a.1)
  | inr e ↦ rw e (a.0, write_target-All ts host_id f h a.1)
]

pub apply_result-IsDecidedRun :
    (run : ScriptRun) (result : ScriptResultMessage)
    → IsDecidedRun run
    → IsDecidedRun (apply_result run result)
unfolding apply_result
apply_result-IsDecidedRun run result a =
    write_target-All run.targets result.host_id (answered_target result)
      (λ t. state_for-decided result.status) a

expired-decided : (s : TargetState) → s ≢ TargetState.pending → expired s ≢ TargetState.pending
expired-decided TargetState.pending h = h
expired-decided TargetState.dispatched h = λ e. cc
expired-decided TargetState.completed h = h
expired-decided TargetState.failed h = h
expired-decided TargetState.refused h = h
expired-decided TargetState.no_response h = h

pub apply_deadline-IsDecidedRun :
    (run : ScriptRun) → IsDecidedRun run → IsDecidedRun (apply_deadline run)
unfolding apply_deadline
apply_deadline-IsDecidedRun run a = go run.targets a
  where
    go : (ts : List RunTarget) → All IsDecided ts → All IsDecided (map expired_target ts)
    go [] a = tt
    go (t ∷ ts) a = (expired-decided t.state a.0, go ts a.1)

none_pending :
    (t : RunTally) (targets : List RunTarget)
    → All IsDecided targets
    → (tally_from t targets).pending ≡ t.pending
unfolding tally_from
none_pending t [] a = refl
none_pending t (target ∷ targets) a =
    none_pending (counted t target.state) targets a.1 ∙ one target.state a.0
  where
    one : (s : TargetState) → s ≢ TargetState.pending → (counted t s).pending ≡ t.pending
    one TargetState.pending h = absurd (h refl)
    one TargetState.dispatched h = refl
    one TargetState.completed h = refl
    one TargetState.failed h = refl
    one TargetState.refused h = refl
    one TargetState.no_response h = refl

-- What find_run gives behind a write.
abbrev pub found_after : ScriptRun → Bool → Option ScriptRun → Option ScriptRun
found_after changed true (some run) = some changed
found_after changed _ o = o

pub find-write :
    (runs : List ScriptRun) (changed : ScriptRun) (id : Text)
    → find_run (write_run runs changed) id
      ≡ found_after changed (str_eq changed.run_id id) (find_run runs id)
unfolding find_run write_run
find-write [] changed id = elim (Bool-cases (str_eq changed.run_id id)) [
  | inl e ↦ rw e refl
  | inr e ↦ rw e refl
]
find-write (run ∷ runs) changed id = elim (Bool-cases (str_eq run.run_id changed.run_id)) [
  | inl e ↦
      let same = ap (λ x. str_eq x id) ((str_eq_iff run.run_id changed.run_id).0 e) in
      elim (Bool-cases (str_eq changed.run_id id)) [
        | inl g ↦ rw (e, g, same ∙ g) refl
        | inr g ↦ rw (e, g, same ∙ g) refl
      ]
  | inr e ↦ elim (Bool-cases (str_eq run.run_id id)) [
    | inl g ↦ rw (e, g, other g e) refl
    | inr g ↦ rw (e, g) (find-write runs changed id)
  ]
]
  where
    other :
        str_eq run.run_id id ≡ true
        → str_eq run.run_id changed.run_id ≡ false
        → str_eq changed.run_id id ≡ false
    other g e = ground (
      arith,
      g,
      e,
      str_eq_iff run.run_id id,
      str_eq_iff changed.run_id id,
      str_eq_iff run.run_id changed.run_id,
    )

pub some_eq : (a b : ScriptRun) → some a ≡ some b → a ≡ b
some_eq a b h = cc

pub found_id :
    (runs : List ScriptRun) (id : Text) (run : ScriptRun)
    → find_run runs id ≡ some run
    → run.run_id ≡ id
unfolding find_run
found_id [] id run h = absurd (cc)
found_id (r ∷ runs) id run h = elim (Bool-cases (str_eq r.run_id id)) [
  | inl e ↦
      ap (λ (x : ScriptRun). x.run_id) (sym (some_eq r run (rw e at h)))
      ∙ (str_eq_iff r.run_id id).0 e
  | inr e ↦ found_id runs id run (rw e at h)
]

pub finished_by_deadline :
    (run : ScriptRun)
    → IsDecidedRun run
    → (is_finished (apply_deadline run) ≡ true)
      × ((tally run).dispatched ≡ 0 → is_finished run ≡ true)
unfolding tally
finished_by_deadline run d =
    let pending = none_pending no_targets run.targets d in
    (
      is_finished-apply_deadline run pending,
      λ e. (is_finished_iff run).1 (omega (arith, e, pending)),
    )
