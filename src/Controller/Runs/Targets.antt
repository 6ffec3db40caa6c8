-- ===== src/Controller/Runs/Targets.antt =====
-- start_script_run of apps/server/server_controller.cpp: the loop over the targets of a new run, which
-- writes each target through find_target, against a map over the targets.
use lab_monitor.Base.{
  ◌≡◌, refl, ap, ◌∙◌, sym, subst, arith, inl, inr, false, Option, none, some, List, [], ◌∷◌, ◌++◌,
  map, append-nil, append_assoc, Bool-cases, All, All-append, Text, str_eq, str_eq_refl,
}
use lab_monitor.Fleet.{FleetEntry}
use lab_monitor.Dispatch.{
  RunTarget, ScriptRun, find_target, write_target, dispatched_target, refused_target,
  mark_dispatched, refuse_at_dispatch,
}
use lab_monitor.Bus.{ScriptCommand}
use lab_monitor.Controller.Runs.{
  is_targeted, new_target, add_targets, find_entry, refusal_of, command_for, dispatch_one,
  dispatch_targets,
}

abbrev pub settle : Option Text → RunTarget → RunTarget
settle none target = dispatched_target target
settle (some reason) target = refused_target reason target

-- The target as it stands after its round: dispatched, or refused with the reason.
abbrev pub decided : List FleetEntry → RunTarget → RunTarget
decided entries target = settle (refusal_of (find_entry entries target.host_id)) target

abbrev pub command_if : Option Text → ScriptRun → Text → List ScriptCommand
command_if none run host_id = command_for run host_id ∷ []
command_if (some reason) run host_id = []

-- The commands for the targets that nothing keeps from it, in the order of the targets.
unfoldable pub sent_to : List FleetEntry → ScriptRun → List RunTarget → List ScriptCommand
sent_to entries run [] = []
sent_to entries run (target ∷ targets) =
    command_if (refusal_of (find_entry entries target.host_id)) run target.host_id
    ++ sent_to entries run targets

-- No target has the host of one of `hosts`, or of a target before it.
abbrev pub Apart : List Text → List RunTarget → Type 0
Apart hosts [] = Unit
Apart hosts (target ∷ targets) =
    All (λ h. str_eq h target.host_id ≡ false) hosts
    × Apart (hosts ++ (target.host_id ∷ [])) targets

abbrev pub hosts_of : List RunTarget → List Text
hosts_of targets = map (λ (t : RunTarget). t.host_id) targets

write-append :
    (before rest : List RunTarget) (target : RunTarget) (f : RunTarget → RunTarget)
    → All (λ h. str_eq h target.host_id ≡ false) (hosts_of before)
    → write_target (before ++ (target ∷ rest)) target.host_id f ≡ before ++ (f target ∷ rest)
unfolding write_target
write-append [] rest target f h = rw (str_eq_refl target.host_id) refl
write-append (b ∷ before) rest target f h =
    rw h.0 (ap (λ ts. b ∷ ts) (write-append before rest target f h.1))

hosts-append : (xs ys : List RunTarget) → hosts_of (xs ++ ys) ≡ hosts_of xs ++ hosts_of ys
hosts-append [] ys = refl
hosts-append (x ∷ xs) ys = ap (λ hs. x.host_id ∷ hs) (hosts-append xs ys)

-- One round, where the targets before have other hosts.
dispatch_one-append :
    (o : Option Text) (run : ScriptRun) (before rest : List RunTarget) (target : RunTarget)
    (commands : List ScriptCommand)
    → All (λ h. str_eq h target.host_id ≡ false) (hosts_of before)
    → dispatch_one o target.host_id (record run { targets = before ++ (target ∷ rest) }, commands)
      ≡ (
        record run { targets = (before ++ (settle o target ∷ [])) ++ rest },
        commands ++ command_if o run target.host_id,
      )
unfolding mark_dispatched refuse_at_dispatch
dispatch_one-append none run before rest target commands h =
    ap
      (λ (ts : List RunTarget).
        (record run { targets = ts }, commands ++ (command_for run target.host_id ∷ [])))
      (write-append before rest target dispatched_target h
        ∙ sym (append_assoc before (dispatched_target target ∷ []) rest))
dispatch_one-append (some reason) run before rest target commands h = λ i. (
  record run {
    targets =
        (write-append before rest target (refused_target reason) h
            ∙ sym (append_assoc before (refused_target reason target ∷ []) rest))
          i;
  },
  sym (append-nil commands) i,
)

pub settle_host :
    (o : Option Text) (target : RunTarget) → (settle o target).host_id ≡ target.host_id
settle_host none target = refl
settle_host (some reason) target = refl

pub dispatch-map :
    (entries : List FleetEntry) (run : ScriptRun) (before rest : List RunTarget)
    (commands : List ScriptCommand)
    → Apart (hosts_of before) rest
    → dispatch_targets entries rest (record run { targets = before ++ rest }, commands) ≡ (
      record run { targets = before ++ map (decided entries) rest },
      commands ++ sent_to entries run rest,
    )
unfolding dispatch_targets sent_to
dispatch-map entries run before [] commands h =
    λ i. (record run { targets = before ++ [] }, sym (append-nil commands) i)
dispatch-map entries run before (target ∷ rest) commands h =
    let o = refusal_of (find_entry entries target.host_id) in
    let next = before ++ (settle o target ∷ []) in
    let hosts : hosts_of before ++ (target.host_id ∷ []) ≡ hosts_of next = sym (
      hosts-append before (settle o target ∷ [])
      ∙ ap (λ h. hosts_of before ++ (h ∷ [])) (settle_host o target)) in
    let step = dispatch_one-append o run before rest target commands h.0 in
    let apart : Apart (hosts_of next) rest = subst (λ hs. Apart hs rest) hosts h.1 in
    ap (dispatch_targets entries rest) step
    ∙ dispatch-map entries run next rest (commands ++ command_if o run target.host_id) apart
    ∙ (λ i. (
      record run {
        targets = append_assoc before (settle o target ∷ []) (map (decided entries) rest) i;
      },
      append_assoc commands (command_if o run target.host_id) (sent_to entries run rest) i,
    ))

Apart-snoc :
    (hosts : List Text) (targets : List RunTarget) (target : RunTarget)
    → Apart hosts targets
    → All (λ h. str_eq h target.host_id ≡ false) hosts
    → All (λ h. str_eq h target.host_id ≡ false) (hosts_of targets)
    → Apart hosts (targets ++ (target ∷ []))
Apart-snoc hosts [] target a h k = (h, tt)
Apart-snoc hosts (t ∷ ts) target a h k = (
  a.0,
  Apart-snoc (hosts ++ (t.host_id ∷ [])) ts target a.1
      (All-append (λ h. str_eq h target.host_id ≡ false) hosts (t.host_id ∷ []) h (k.0, tt)) k.1,
)

is_targeted-All :
    (targets : List RunTarget) (host_id : Text)
    → is_targeted targets host_id ≡ false
    → All (λ h. str_eq h host_id ≡ false) (hosts_of targets)
unfolding is_targeted find_target
is_targeted-All [] host_id h = tt
is_targeted-All (t ∷ ts) host_id h = elim (Bool-cases (str_eq t.host_id host_id)) [
  | inl e ↦ absurd (ground (arith, e, h))
  | inr e ↦ (e, is_targeted-All ts host_id (rw e at h))
]

pub add_targets-Apart :
    (targets : List RunTarget) (hosts : List Text)
    → Apart [] targets
    → Apart [] (add_targets targets hosts)
unfolding add_targets
add_targets-Apart targets [] a = a
add_targets-Apart targets (host_id ∷ hosts) a = elim (Bool-cases (is_targeted targets host_id)) [
  | inl e ↦ rw e (add_targets-Apart targets hosts a)
  | inr e ↦ rw e (
      add_targets-Apart (targets ++ (new_target host_id ∷ [])) hosts
        (Apart-snoc [] targets (new_target host_id) a tt (is_targeted-All targets host_id e)))
]
