-- ===== src/Controller/Runs/Hosts.antt =====
-- The targets of a new run of apps/server/server_controller.cpp, one for each host that is named.
use lab_monitor.Base.{
  ◌≡◌, ◌⊎◌, refl, ap, ◌∙◌, sym, arith, inl, inr, true, false, ◌||◌, List, [], ◌∷◌, ◌++◌, Bool-cases,
  All, All-append, Text, str_eq, str_eq_iff, str_eq_comm, member, member-append, Distinct,
}
use lab_monitor.Dispatch.{RunTarget, find_target}
use lab_monitor.Controller.Runs.{is_targeted, new_target, add_targets}
use lab_monitor.Controller.Runs.Targets.{hosts_of}
use lab_monitor.Controller.Runs.Book.{Distinct-snoc}

abbrev pub IsNew : RunTarget → Type 0
IsNew target = target ≡ new_target target.host_id

pub add_targets-IsNew :
    (targets : List RunTarget) (hosts : List Text)
    → All IsNew targets
    → All IsNew (add_targets targets hosts)
unfolding add_targets
add_targets-IsNew targets [] h = h
add_targets-IsNew targets (host_id ∷ hosts) h = elim (Bool-cases (is_targeted targets host_id)) [
  | inl e ↦ rw e (add_targets-IsNew targets hosts h)
  | inr e ↦ rw e (
      add_targets-IsNew (targets ++ (new_target host_id ∷ [])) hosts
        (All-append IsNew targets (new_target host_id ∷ []) h (refl, tt)))
]

is_targeted-member :
    (targets : List RunTarget) (host_id : Text)
    → is_targeted targets host_id ≡ member host_id (hosts_of targets)
unfolding is_targeted find_target member
is_targeted-member [] host_id = refl
is_targeted-member (t ∷ ts) host_id =
    ground (arith, is_targeted-member ts host_id, str_eq_comm t.host_id host_id)

hosts_of-snoc :
    (targets : List RunTarget) (host_id : Text)
    → hosts_of (targets ++ (new_target host_id ∷ [])) ≡ hosts_of targets ++ (host_id ∷ [])
hosts_of-snoc [] host_id = refl
hosts_of-snoc (t ∷ ts) host_id = ap (λ hs. t.host_id ∷ hs) (hosts_of-snoc ts host_id)

-- The hosts of the targets are those that are named, each once.
pub add_targets-member :
    (targets : List RunTarget) (hosts : List Text) (h : Text)
    → member h (hosts_of (add_targets targets hosts))
      ≡ (member h (hosts_of targets) || member h hosts)
unfolding add_targets member
add_targets-member targets [] h = ground arith
add_targets-member targets (host_id ∷ hosts) h = elim (Bool-cases (is_targeted targets host_id)) [
  | inl e ↦ rw e (
      add_targets-member targets hosts h
      ∙ known (Bool-cases (str_eq h host_id)) (sym (is_targeted-member targets host_id) ∙ e))
  | inr e ↦ rw e (
      add_targets-member (targets ++ (new_target host_id ∷ [])) hosts h
      ∙ ap (λ hs. member h hs || member h hosts) (hosts_of-snoc targets host_id)
      ∙ ap (λ b. b || member h hosts) (member-append h (hosts_of targets) (host_id ∷ []))
      ∙ ground arith)
]
  where
    known :
        (str_eq h host_id ≡ true) ⊎ (str_eq h host_id ≡ false)
        → member host_id (hosts_of targets) ≡ true
        → (member h (hosts_of targets) || member h hosts)
          ≡ (member h (hosts_of targets) || (str_eq h host_id || member h hosts))
    known (inl s) m =
        let here = ap (λ x. member x (hosts_of targets)) ((str_eq_iff h host_id).0 s) ∙ m in
        rw here refl
    known (inr s) m = rw s refl

pub add_targets-Distinct :
    (targets : List RunTarget) (hosts : List Text)
    → Distinct (hosts_of targets)
    → Distinct (hosts_of (add_targets targets hosts))
unfolding add_targets
add_targets-Distinct targets [] d = d
add_targets-Distinct targets (host_id ∷ hosts) d = elim (Bool-cases (is_targeted targets host_id)) [
  | inl e ↦ rw e (add_targets-Distinct targets hosts d)
  | inr e ↦ rw e (
      add_targets-Distinct (targets ++ (new_target host_id ∷ [])) hosts (
        rw (hosts_of-snoc targets host_id) (
          Distinct-snoc (hosts_of targets) host_id d
            (sym (is_targeted-member targets host_id) ∙ e))))
]
