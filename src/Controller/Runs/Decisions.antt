-- ===== src/Controller/Runs/Decisions.antt =====
-- What start_script_run of apps/server/server_controller.cpp decides for each host.
use lab_monitor.Base.{
  ℕ, ◌≡◌, ◌≢◌, ◌⊎◌, refl, ap, ◌∙◌, sym, arith, inl, inr, pos, Bool, true, false, not, ◌||◌, Option,
  none, some, List, [], ◌∷◌, ◌++◌, map, if◌then◌else◌, Bool-cases, All, All-append, Text, text,
  ◌==◌, subst, str_eq, str_eq_iff, str_eq_comm, str_eq_refl, member, member-append, Distinct,
}
use lab_monitor.Base.Json.{JsonLibrary}
use lab_monitor.Types.{Capability, has}
use lab_monitor.Fleet.{HostState, FleetEntry, host_state_to_string, urgency}
use lab_monitor.Dispatch.{TargetState, RunTarget, ScriptRun}
use lab_monitor.RuleDetail.{Qt}
use lab_monitor.Bus.{ScriptCommand}
use lab_monitor.Controller.{Disk, Server}
use lab_monitor.Controller.Runs.{new_target, find_entry, refusal_of, draft_run, start_script_run}
use lab_monitor.Controller.Runs.Targets.{
  decided, settle, settle_host, command_if, sent_to, hosts_of,
}
use lab_monitor.Controller.Runs.Start.{commands_in, start_script_run-map}
use lab_monitor.Controller.Runs.Hosts.{
  IsNew, add_targets-IsNew, add_targets-member, add_targets-Distinct,
}

abbrev pub IsIn : FleetEntry → List FleetEntry → Type 0
IsIn entry [] = ⊥
IsIn entry (e ∷ entries) = (entry ≡ e) ⊎ IsIn entry entries

-- The reason that a script is kept from a host for, where there is one: the fleet does not have the
-- host, its entry is not online, or it is not enrolled for scripts.
pub data Decision (entries : List FleetEntry) (host_id : Text) : Option Text → Type 0 where
  not_there :
      All (λ (e : FleetEntry). str_eq e.host_id host_id ≡ false) entries
      → Decision entries host_id (some (text "host is not in the fleet"))
  not_online :
      (entry : FleetEntry)
      → IsIn entry entries
      → entry.host_id ≡ host_id
      → entry.state ≢ HostState.online
      → Decision entries host_id
          (some (text "host is " ++ (host_state_to_string entry.state ++ text ", not Online")))
  not_enrolled :
      (entry : FleetEntry)
      → IsIn entry entries
      → entry.host_id ≡ host_id
      → entry.state ≡ HostState.online
      → has entry.caps Capability.scripts ≡ false
      → Decision entries host_id (some (text "not enrolled for script execution"))
  allowed :
      (entry : FleetEntry)
      → IsIn entry entries
      → entry.host_id ≡ host_id
      → entry.state ≡ HostState.online
      → has entry.caps Capability.scripts ≡ true
      → Decision entries host_id none

-- The target of a run as the decision leaves it.
abbrev pub target_of : Text → Option Text → RunTarget
target_of host_id none = record {
  host_id = host_id;
  state = TargetState.dispatched;
  detail = [];
  result = none;
}
target_of host_id (some reason) = record {
  host_id = host_id;
  state = TargetState.refused;
  detail = reason;
  result = none;
}

-- The target is that of a decision for its host.
abbrev pub IsDecidedBy : List FleetEntry → RunTarget → Type 0
IsDecidedBy entries target =
    (reason : Option Text) × Decision entries target.host_id reason
    × (target ≡ target_of target.host_id reason)

find_entry-none :
    (entries : List FleetEntry) (host_id : Text)
    → find_entry entries host_id ≡ none
    → All (λ (e : FleetEntry). str_eq e.host_id host_id ≡ false) entries
unfolding find_entry lab_monitor.Base.find_if
find_entry-none [] host_id h = tt
find_entry-none (e ∷ es) host_id h = elim (Bool-cases (str_eq e.host_id host_id)) [
  | inl b ↦ absurd (ground (arith, b, h))
  | inr b ↦ (b, find_entry-none es host_id (rw b at h))
]

find_entry-some :
    (entries : List FleetEntry) (host_id : Text) (entry : FleetEntry)
    → find_entry entries host_id ≡ some entry
    → IsIn entry entries × (entry.host_id ≡ host_id)
unfolding find_entry lab_monitor.Base.find_if
find_entry-some [] host_id entry h = absurd (cc)
find_entry-some (e ∷ es) host_id entry h = elim (Bool-cases (str_eq e.host_id host_id)) [
  | inl b ↦
      let same : entry ≡ e = same_entry e (rw b at h) in
      (inl same, ap (λ (x : FleetEntry). x.host_id) same ∙ (str_eq_iff e.host_id host_id).0 b)
  | inr b ↦ let rest = find_entry-some es host_id entry (rw b at h) in (inr rest.0, rest.1)
]
  where
    same_entry : (e : FleetEntry) → some e ≡ some entry → entry ≡ e
    same_entry e h = cc

online_of : (s : HostState) → (urgency s == urgency HostState.online) ≡ true → s ≡ HostState.online
online_of HostState.online h = refl
online_of HostState.missing h = absurd (cc)
online_of HostState.offline h = absurd (cc)
online_of HostState.unexpected h = absurd (cc)
online_of HostState.paused h = absurd (cc)

not_online_of :
    (s : HostState) → (urgency s == urgency HostState.online) ≡ false → s ≢ HostState.online
not_online_of s h e = cc_of (ap (λ x. urgency x == urgency HostState.online) e)
  where
    cc_of : (urgency s == urgency HostState.online) ≡ true → ⊥
    cc_of g = ground (arith, g, h)

-- What the code finds in the way is a decision.
decision :
    (entries : List FleetEntry) (host_id : Text)
    → Decision entries host_id (refusal_of (find_entry entries host_id))
decision entries host_id = go (find_entry entries host_id) refl
  where
    go :
        (o : Option FleetEntry)
        → find_entry entries host_id ≡ o
        → Decision entries host_id (refusal_of o)
    go none h = Decision.not_there (find_entry-none entries host_id h)
    go (some e) h =
        let (found, same) = find_entry-some entries host_id e h in
        elim (Bool-cases (urgency e.state == urgency HostState.online)) [
          | inr off ↦ rw off (Decision.not_online e found same (not_online_of e.state off))
          | inl on ↦ elim (Bool-cases (has e.caps Capability.scripts)) [
            | inr lacks ↦
                rw (on, lacks) (Decision.not_enrolled e found same (online_of e.state on) lacks)
            | inl enrolled ↦
                rw (on, enrolled) (Decision.allowed e found same (online_of e.state on) enrolled)
          ]
        ]

settle_new :
    (o : Option Text) (host_id : Text) → settle o (new_target host_id) ≡ target_of host_id o
settle_new none host_id = refl
settle_new (some reason) host_id = refl

target_of_host : (o : Option Text) (host_id : Text) → (target_of host_id o).host_id ≡ host_id
target_of_host none host_id = refl
target_of_host (some reason) host_id = refl

decided-new :
    (entries : List FleetEntry) (host_id : Text)
    → decided entries (new_target host_id)
      ≡ target_of host_id (refusal_of (find_entry entries host_id))
decided-new entries host_id = settle_new (refusal_of (find_entry entries host_id)) host_id

new-IsDecidedBy :
    (entries : List FleetEntry) (host_id : Text)
    → IsDecidedBy entries (decided entries (new_target host_id))
new-IsDecidedBy entries host_id =
    subst (IsDecidedBy entries) (sym (decided-new entries host_id))
      (of_reason (refusal_of (find_entry entries host_id)) (decision entries host_id))
  where
    of_reason :
        (o : Option Text) → Decision entries host_id o → IsDecidedBy entries (target_of host_id o)
    of_reason none d = (none, d, refl)
    of_reason (some reason) d = (some reason, d, refl)

decided-All :
    (entries : List FleetEntry) (targets : List RunTarget)
    → All IsNew targets
    → All (IsDecidedBy entries) (map (decided entries) targets)
decided-All entries [] h = tt
decided-All entries (t ∷ ts) h = (
  subst (λ x. IsDecidedBy entries (decided entries x)) (sym h.0)
      (new-IsDecidedBy entries t.host_id),
  decided-All entries ts h.1,
)

hosts_of-decided :
    (entries : List FleetEntry) (targets : List RunTarget)
    → hosts_of (map (decided entries) targets) ≡ hosts_of targets
hosts_of-decided entries [] = refl
hosts_of-decided entries (t ∷ ts) =
    λ i. settle_host (refusal_of (find_entry entries t.host_id)) t i ∷ hosts_of-decided entries ts i

-- The commands that a run needs: one for each target that is dispatched, in their order.
abbrev pub command_to : ScriptRun → Text → TargetState → List ScriptCommand
command_to run host_id TargetState.dispatched =
    (record {
      host_id = host_id;
      run_id = run.run_id;
      script_name = run.script_name;
      script_body = run.script_body;
      timeout_seconds = run.timeout_seconds;
    })
    ∷ []
command_to run host_id _ = []

unfoldable pub commands_for : ScriptRun → List RunTarget → List ScriptCommand
commands_for run [] = []
commands_for run (target ∷ targets) =
    command_to run target.host_id target.state ++ commands_for run targets

sent_to-commands :
    (entries : List FleetEntry) (run : ScriptRun) (done targets : List RunTarget)
    → sent_to entries run targets
      ≡ commands_for (record run { targets = done }) (map (decided entries) targets)
unfolding sent_to commands_for
sent_to-commands entries run done [] = refl
sent_to-commands entries run done (t ∷ ts) =
    go (refusal_of (find_entry entries t.host_id)) (sent_to-commands entries run done ts)
  where
    go :
        (o : Option Text)
        → sent_to entries run ts
          ≡ commands_for (record run { targets = done }) (map (decided entries) ts)
        → command_if o run t.host_id ++ sent_to entries run ts
          ≡ command_to (record run { targets = done }) (settle o t).host_id (settle o t).state
            ++ commands_for (record run { targets = done }) (map (decided entries) ts)
    go none h = ap (λ cs. command_to run t.host_id TargetState.dispatched ++ cs) h
    go (some reason) h = h

module _ (J : JsonLibrary) (Q : Qt) where
  -- A start of a script on the hosts that are named: one run is added behind the others, with the
  -- script and the time; it has a target for each host that is named, once, and for no other; each
  -- target is dispatched if an entry of the fleet has the host, is online and is enrolled for scripts,
  -- and otherwise it is refused with the reason, so that none is pending; and the commands that are
  -- sent are those of the dispatched targets, one for each, in their order.
  pub start_script_run_lem :
      (c : Server J Q) (script_name script_body : Text) (hosts : List Text) (timeout_seconds : ℕ)
      (disk : Disk Q.QString) (draw : ℕ → Text) (now : ℕ)
      → let r =
          start_script_run J Q c script_name script_body hosts timeout_seconds disk draw now in
        (run : ScriptRun) × (r.0.script_runs ≡ c.script_runs ++ (run ∷ []))
        × ((run.script_name ≡ script_name)
            × (run.script_body ≡ script_body)
            × (run.timeout_seconds ≡ timeout_seconds)
            × (run.issued_at ≡ pos now))
        × Distinct (hosts_of run.targets)
        × ((h : Text) → member h (hosts_of run.targets) ≡ member h hosts)
        × All (IsDecidedBy c.fleet.entries) run.targets
        × (commands_in J Q r.1 ≡ commands_for run run.targets)
  unfolding draft_run
  start_script_run_lem c script_name script_body hosts timeout_seconds disk draw now =
      let draft = draft_run J Q c script_name script_body hosts timeout_seconds draw now in
      let entries = c.fleet.entries in
      let targets = map (decided entries) draft.targets in
      let same = hosts_of-decided entries draft.targets in
      let done =
        start_script_run-map J Q c script_name script_body hosts timeout_seconds disk draw now in
      (
        record draft { targets = targets },
        done.0,
        (refl, refl, refl, refl),
        subst Distinct (sym same) (add_targets-Distinct [] hosts tt),
        λ h. ap (member h) same ∙ add_targets-member [] hosts h ∙ unfold member in refl,
        decided-All entries draft.targets (add_targets-IsNew [] hosts tt),
        done.2 ∙ sent_to-commands entries draft targets draft.targets,
      )
