-- ===== src/Dispatch/Targets.antt =====
-- What the operations of a run do to its targets.
use lab_monitor.Base.{
  ◌≡◌, refl, arith, ap, ◌∙◌, sym, ◌↔◌, inl, inr, Bool, true, false, Option, none, some, List, [],
  ◌∷◌, map, Bool-cases, Text, text, str_eq, str_eq_iff, str_eq_comm,
}
use lab_monitor.Dispatch.{
  TargetState, target_state_to_string, target_state_from_string, RunTarget, ScriptRun,
  ScriptResultMessage, find_target, write_target, mark_dispatched, dispatched_target,
  refuse_at_dispatch, refused_target, apply_result, answered_target,
}

-- The text of a state is read back as the state, and no other text is read as one.
pub target_state_from_string_iff :
    (s : Text) (state : TargetState)
    → (target_state_from_string s ≡ some state) ↔ (s ≡ target_state_to_string state)
unfolding target_state_from_string target_state_to_string text str_eq
target_state_from_string_iff s state = (forward state, λ e. rw e (backward state))
  where
    forward :
        (state : TargetState)
        → target_state_from_string s ≡ some state
        → s ≡ target_state_to_string state
    forward TargetState.pending h = ground (arith, str_eq_iff s (text "Pending"))
    forward TargetState.dispatched h = ground (arith, str_eq_iff s (text "Dispatched"))
    forward TargetState.completed h = ground (arith, str_eq_iff s (text "Completed"))
    forward TargetState.failed h = ground (arith, str_eq_iff s (text "Failed"))
    forward TargetState.refused h = ground (arith, str_eq_iff s (text "Refused"))
    forward TargetState.no_response h = ground (arith, str_eq_iff s (text "NoResponse"))

    backward :
        (state : TargetState) → target_state_from_string (target_state_to_string state) ≡ some state
    backward TargetState.pending = refl
    backward _ = refl

abbrev pub write_found : (RunTarget → RunTarget) → Bool → Option RunTarget → Option RunTarget
write_found f b none = none
write_found f true (some target) = some (f target)
write_found f false (some target) = some target

pub write_found_other :
    (f : RunTarget → RunTarget) (o : Option RunTarget) → write_found f false o ≡ o
write_found_other f none = refl
write_found_other f (some t) = refl

pub find-write_target :
    (targets : List RunTarget) (host_id other : Text) (f : RunTarget → RunTarget)
    → ((t : RunTarget) → (f t).host_id ≡ t.host_id)
    → find_target (write_target targets host_id f) other
      ≡ write_found f (str_eq host_id other) (find_target targets other)
unfolding find_target write_target
find-write_target [] host_id other f keeps = refl
find-write_target (t ∷ ts) host_id other f keeps = elim (Bool-cases (str_eq t.host_id host_id)) [
  | inl e ↦
      let same = ap (λ h. str_eq h other) ((str_eq_iff t.host_id host_id).0 e) in
      elim (Bool-cases (str_eq t.host_id other)) [
        | inl g ↦ rw (e, ap (λ h. str_eq h other) (keeps t) ∙ g, g, sym same ∙ g) refl
        | inr g ↦
            rw (e, ap (λ h. str_eq h other) (keeps t) ∙ g, g, sym same ∙ g)
              (sym (write_found_other f (find_target ts other)))
      ]
  | inr e ↦ elim (Bool-cases (str_eq t.host_id other)) [
    | inl g ↦
        rw
          (
            e,
            g,
            str_eq_comm host_id other
                ∙ ap (λ h. str_eq h host_id) (sym ((str_eq_iff t.host_id other).0 g))
                ∙ e,
          )
          refl
    | inr g ↦ rw (e, g) (find-write_target ts host_id other f keeps)
  ]
]

hosts-write :
    (targets : List RunTarget) (host_id : Text) (f : RunTarget → RunTarget)
    → ((t : RunTarget) → (f t).host_id ≡ t.host_id)
    → map (λ (t : RunTarget). t.host_id) (write_target targets host_id f)
      ≡ map (λ (t : RunTarget). t.host_id) targets
unfolding write_target
hosts-write [] host_id f keeps = refl
hosts-write (t ∷ ts) host_id f keeps = elim (Bool-cases (str_eq t.host_id host_id)) [
  | inl e ↦ rw e (ap (λ h. h ∷ map (λ (t : RunTarget). t.host_id) ts) (keeps t))
  | inr e ↦ rw e (ap (λ hs. t.host_id ∷ hs) (hosts-write ts host_id f keeps))
]

-- What an operation makes of the target that `other` finds: it changes the target of its own host
-- and no other, and adds none.
abbrev pub Writes : Text → (RunTarget → RunTarget) → ScriptRun → ScriptRun → Type 0
Writes host_id f run after =
    (map (λ (t : RunTarget). t.host_id) after.targets
      ≡ map (λ (t : RunTarget). t.host_id) run.targets)
    × ((other : Text)
        → find_target after.targets other
          ≡ write_found f (str_eq host_id other) (find_target run.targets other))

-- A dispatch, a refusal at dispatch and a result each change what is found for their own host, and
-- for no other host, leave the list of hosts as it is, and do nothing where the run has no such host.
pub operations-Writes :
    (run : ScriptRun) (host_id reason : Text) (result : ScriptResultMessage)
    → Writes host_id dispatched_target run (mark_dispatched run host_id)
      × Writes host_id (refused_target reason) run (refuse_at_dispatch run host_id reason)
      × Writes result.host_id (answered_target result) run (apply_result run result)
unfolding mark_dispatched refuse_at_dispatch apply_result
operations-Writes run host_id reason result = (
  writes host_id dispatched_target (λ t. refl),
  writes host_id (refused_target reason) (λ t. refl),
  writes result.host_id (answered_target result) (λ t. refl),
)
  where
    writes :
        (h : Text) (f : RunTarget → RunTarget)
        → ((t : RunTarget) → (f t).host_id ≡ t.host_id)
        → Writes h f run (record run { targets = write_target run.targets h f })
    writes h f keeps =
        (hosts-write run.targets h f keeps, λ other. find-write_target run.targets h other f keeps)
