-- ===== src/Dispatch/Tallies.antt =====
-- The counts of a run's targets and when the run is finished.
use lab_monitor.Base.{
  ℕ, suc, ◌+◌, ◌≤◌, ◌≡◌, refl, ap, ◌∙◌, ◌↔◌, inl, inr, arith, true, false, not, ◌&&◌, List, [], ◌∷◌,
  map, length, Bool-cases, Text, str_eq,
}
use lab_monitor.Script.{ScriptStatus}
use lab_monitor.Dispatch.{
  TargetState, RunTarget, ScriptRun, ScriptResultMessage, write_target, refuse_at_dispatch,
  refused_target, apply_result, answered_target, state_for, apply_deadline, expired, expired_target,
  RunTally, no_targets, counted, tally_from, tally, is_waiting, none_waiting, is_finished,
}

abbrev pub tally_total : RunTally → ℕ
tally_total t = t.pending + t.dispatched + t.completed + t.failed + t.refused + t.no_response

total-from :
    (t : RunTally) (targets : List RunTarget)
    → tally_total (tally_from t targets) ≡ tally_total t + length targets
unfolding tally_from
total-from t [] = omega arith
total-from t (target ∷ targets) =
    omega (arith, total-from (counted t target.state) targets, one target.state)
  where
    one : (s : TargetState) → tally_total (counted t s) ≡ suc (tally_total t)
    one TargetState.pending = omega arith
    one TargetState.dispatched = omega arith
    one TargetState.completed = omega arith
    one TargetState.failed = omega arith
    one TargetState.refused = omega arith
    one TargetState.no_response = omega arith

-- The counts of a tally add up to the number of the run's targets: each is counted once.
pub tally_total-tally : (run : ScriptRun) → tally_total (tally run) ≡ length run.targets
unfolding tally
tally_total-tally run = omega (arith, total-from no_targets run.targets)

-- The tally begun at `t` grows in step with one begun at `u`.
waiting-from :
    (t : RunTally) (targets : List RunTarget)
    → let u = tally_from t targets in
      ((none_waiting targets ≡ true) ↔ (u.pending + u.dispatched ≡ t.pending + t.dispatched))
      × (t.pending + t.dispatched ≤ u.pending + u.dispatched)
unfolding tally_from none_waiting
waiting-from t [] = ((λ h. refl, λ h. refl), omega arith)
waiting-from t (target ∷ targets) = one target.state (waiting-from (counted t target.state) targets)
  where
    one :
        (s : TargetState)
        → (let u = tally_from (counted t s) targets in
            ((none_waiting targets ≡ true)
              ↔ (u.pending + u.dispatched ≡ (counted t s).pending + (counted t s).dispatched))
            × ((counted t s).pending + (counted t s).dispatched ≤ u.pending + u.dispatched))
        → let u = tally_from (counted t s) targets in
          (((not (is_waiting s) && none_waiting targets) ≡ true)
            ↔ (u.pending + u.dispatched ≡ t.pending + t.dispatched))
          × (t.pending + t.dispatched ≤ u.pending + u.dispatched)
    one TargetState.pending ((f, g), h) =
        ((λ e. cc, λ e. absurd (omega (arith, e, h))), omega (arith, h))
    one TargetState.dispatched ((f, g), h) =
        ((λ e. cc, λ e. absurd (omega (arith, e, h))), omega (arith, h))
    one TargetState.completed r = r
    one TargetState.failed r = r
    one TargetState.refused r = r
    one TargetState.no_response r = r

-- A run is finished exactly when its tally counts no target as pending or dispatched.
pub is_finished_iff :
    (run : ScriptRun)
    → (is_finished run ≡ true) ↔ ((tally run).pending + (tally run).dispatched ≡ 0)
unfolding is_finished tally
is_finished_iff run = (waiting-from no_targets run.targets).0

-- What the deadline makes of a tally.
abbrev pub expired_tally : RunTally → RunTally
expired_tally t = record t { dispatched = 0; no_response = t.dispatched + t.no_response }

tally-expired :
    (t : RunTally) (targets : List RunTarget)
    → tally_from (expired_tally t) (map expired_target targets)
      ≡ expired_tally (tally_from t targets)
unfolding tally_from
tally-expired t [] = refl
tally-expired t (target ∷ targets) =
    one target.state (tally-expired (counted t target.state) targets)
  where
    moved :
        {m n : ℕ}
        → m ≡ n
        → tally_from (record t { dispatched = 0; no_response = m }) (map expired_target targets)
          ≡ tally_from (record t { dispatched = 0; no_response = n }) (map expired_target targets)
    moved e =
        ap
          (λ n.
            tally_from (record t { dispatched = 0; no_response = n }) (map expired_target targets))
          e

    one :
        (s : TargetState)
        → tally_from (expired_tally (counted t s)) (map expired_target targets)
          ≡ expired_tally (tally_from (counted t s) targets)
        → tally_from (counted (expired_tally t) (expired s)) (map expired_target targets)
          ≡ expired_tally (tally_from (counted t s) targets)
    one TargetState.dispatched h = moved (omega arith) ∙ h
    one TargetState.pending h = h
    one TargetState.completed h = h
    one TargetState.failed h = h
    one TargetState.refused h = h
    one TargetState.no_response h = moved (omega arith) ∙ h

-- The deadline moves the count of the dispatched targets to the ones without a response and leaves
-- the other counts, and a second deadline changes nothing.
pub tally-apply_deadline :
    (run : ScriptRun)
    → (tally (apply_deadline run) ≡ expired_tally (tally run))
      × (apply_deadline (apply_deadline run) ≡ apply_deadline run)
unfolding apply_deadline tally
tally-apply_deadline run = (
  tally-expired no_targets run.targets,
  ap (λ ts. record run { targets = ts }) (again run.targets),
)
  where
    settled : (target : RunTarget) → expired_target (expired_target target) ≡ expired_target target
    settled target = one target.state
      where
        one :
            (s : TargetState)
            → record target { state = expired (expired s) } ≡ record target { state = expired s }
        one TargetState.dispatched = refl
        one _ = refl

    again :
        (targets : List RunTarget)
        → map expired_target (map expired_target targets) ≡ map expired_target targets
    again [] = refl
    again (target ∷ targets) =
        ap (λ t. t ∷ map expired_target (map expired_target targets)) (settled target)
        ∙ ap (λ ts. expired_target target ∷ ts) (again targets)

-- A run in which no target is pending is finished by the deadline.
pub is_finished-apply_deadline :
    (run : ScriptRun) → (tally run).pending ≡ 0 → is_finished (apply_deadline run) ≡ true
is_finished-apply_deadline run h =
    (is_finished_iff (apply_deadline run)).1 (rw ((tally-apply_deadline run).0) (omega (arith, h)))

none_waiting-write :
    (targets : List RunTarget) (host_id : Text) (f : RunTarget → RunTarget)
    → ((t : RunTarget) → is_waiting (f t).state ≡ false)
    → none_waiting targets ≡ true
    → none_waiting (write_target targets host_id f) ≡ true
unfolding none_waiting write_target
none_waiting-write [] host_id f over h = refl
none_waiting-write (t ∷ ts) host_id f over h = elim (Bool-cases (is_waiting t.state)) [
  | inl w ↦ absurd (ground (arith, h, w))
  | inr w ↦ elim (Bool-cases (str_eq t.host_id host_id)) [
    | inl e ↦ rw (e, over t) (subst_tail w h)
    | inr e ↦ rw (e, w) (none_waiting-write ts host_id f over (subst_tail w h))
  ]
]
  where
    subst_tail :
        is_waiting t.state ≡ false
        → (not (is_waiting t.state) && none_waiting ts) ≡ true
        → none_waiting ts ≡ true
    subst_tail w h = ground (arith, w, h)

-- A finished run stays finished whatever result, refusal or deadline comes late.
pub is_finished-stays :
    (run : ScriptRun) (result : ScriptResultMessage) (host_id reason : Text)
    → is_finished run ≡ true
    → (is_finished (apply_result run result) ≡ true)
      × (is_finished (refuse_at_dispatch run host_id reason) ≡ true)
      × (is_finished (apply_deadline run) ≡ true)
unfolding is_finished apply_result refuse_at_dispatch state_for
is_finished-stays run result host_id reason h = (
  none_waiting-write run.targets result.host_id (answered_target result)
      (λ t. answered result.status) h,
  none_waiting-write run.targets host_id (refused_target reason) (λ t. refl) h,
  is_finished-apply_deadline run (omega (arith, (is_finished_iff run).0 h)),
)
  where
    answered : (s : ScriptStatus) → is_waiting (state_for s) ≡ false
    answered ScriptStatus.completed = refl
    answered _ = refl
