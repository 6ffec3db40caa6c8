-- ===== src/Worker/Settled.antt =====
-- The steps of a client's worker at which it counts no announce, and those after it has heard a server
-- or has warned.
use lab_monitor.Base.{
  ℕ, suc, ◌≡◌, refl, ap, ◌∙◌, inl, inr, arith, Bool, true, false, ◌||◌, List, [], ◌∷◌, ◌++◌, map,
  ◌==◌, Bool-cases, Option, none, some, Text, count_if, count_if-append,
}
use lab_monitor.Base.Json.{Expected, JsonLibrary}
use lab_monitor.Facts.{HostFacts}
use lab_monitor.Bundle.{TemplateBundle, rules_for}
use lab_monitor.BundleJson.{parse_bundle}
use lab_monitor.Script.{ScriptOutcome}
use lab_monitor.Bus.{ScriptCommand, TemplateBundleMessage}
use lab_monitor.RuleDetail.{Qt, describe}
use lab_monitor.Compliance.Evaluate.{evaluate}
use lab_monitor.Worker.{
  Setup, Worker, ScriptThread, Posted, Output, Event, Result, Happening, announce, sample_resources,
  evaluate_compliance, set_reporting_paused, on_bundle, on_runner_end, on_script_finished, finished,
  ended, applied, unless_paused, bool_eq, step, run, publish_script_outcome, refuse_script,
}
use lab_monitor.Worker.Steps.{command_cases}

module _ (J : JsonLibrary) (Q : Qt) (setup : Setup) where
  abbrev pub is_unheard : Event J Q setup → Bool
  is_unheard Output.server_unheard = true
  is_unheard _ = false

  abbrev pub warnings : List (Event J Q setup) → ℕ
  warnings es = count_if is_unheard es

  -- The announces before the first bundle.
  abbrev pub announces_before : List (Happening J Q setup) → ℕ
  announces_before [] = 0
  announces_before (Happening.announce_due ∷ hs) = suc (announces_before hs)
  announces_before (Happening.bundle_arrives message collect ∷ hs) = 0
  announces_before (_ ∷ hs) = announces_before hs

  abbrev pub IsSilent : Happening J Q setup → Type 0
  IsSilent Happening.announce_due = ⊥
  IsSilent (Happening.bundle_arrives message collect) = ⊥
  IsSilent _ = Unit

  -- What a worker that has still to be answered keeps.
  abbrev pub Kept : Worker → Result J Q setup → Type 0
  Kept w r =
      (r.0.heard_server ≡ w.heard_server)
      × (r.0.said_unheard ≡ w.said_unheard)
      × (r.0.announces_unheard ≡ w.announces_unheard)
      × (warnings r.1 ≡ 0)

  ended-Kept :
      (w : Worker) (outcome : Option ScriptOutcome) (o : Option ScriptThread)
      → Kept w (ended w outcome o, [])
  unfolding count_if
  ended-Kept w outcome none = (refl, refl, refl, refl)
  ended-Kept w outcome (some thread) = elim (Bool-cases thread.is_running) [
    | inl b ↦ rw b (refl, refl, refl, refl)
    | inr b ↦ rw b (refl, refl, refl, refl)
  ]

  finished-Kept : (w : Worker) (calls : List Posted) → Kept w (finished J Q setup w calls)
  unfolding count_if publish_script_outcome
  finished-Kept w [] = (refl, refl, refl, refl)
  finished-Kept w (call ∷ calls) = (refl, refl, refl, omega arith)

  command-Kept :
      (w : Worker) (command : ScriptCommand)
      → Kept w (step J Q setup w (Happening.command_arrives command))
  unfolding step count_if refuse_script
  command-Kept w command =
      command_cases J Q setup (Kept w) w command (refl, refl, refl, refl)
        (λ reason. (refl, refl, refl, omega arith)) λ fresh idle. (refl, refl, refl, omega arith)

  warnings-unless_paused :
      (w : Worker) (e f : Event J Q setup)
      → is_unheard e ≡ false
      → is_unheard f ≡ false
      → warnings (unless_paused J Q setup w e ++ (f ∷ [])) ≡ 0
  unfolding count_if
  warnings-unless_paused w e f a b = elim (Bool-cases w.paused) [
    | inl p ↦ rw (p, b) (omega arith)
    | inr p ↦ rw (p, a, b) (omega arith)
  ]

  pause-Kept : (w : Worker) (paused : Bool) → Kept w (set_reporting_paused J Q setup w paused)
  unfolding set_reporting_paused count_if
  pause-Kept w paused = elim (Bool-cases (bool_eq w.paused paused)) [
    | inl b ↦ rw b (refl, refl, refl, refl)
    | inr b ↦ rw b (refl, refl, refl, refl)
  ]

  -- A worker that has heard a server, or has warned, warns no more.
  abbrev pub IsSettled : Result J Q setup → Type 0
  IsSettled r = ((r.0.heard_server || r.0.said_unheard) ≡ true) × (warnings r.1 ≡ 0)

  settled :
      (w : Worker) (r : Result J Q setup)
      → (w.heard_server || w.said_unheard) ≡ true
      → Kept w r
      → IsSettled r
  settled w r s (h, u, a, n) =
      (ap (λ b. b || r.0.said_unheard) h ∙ ap (λ b. w.heard_server || b) u ∙ s, n)

  applied-warnings :
      (w : Worker) (collect : TemplateBundle → HostFacts J.Double)
      (parsed : Expected TemplateBundle Text)
      → let r = applied J Q setup w collect parsed in
        (r.0.heard_server ≡ w.heard_server) × (warnings r.1 ≡ 0)
  unfolding evaluate_compliance count_if
  applied-warnings w collect (Expected.unexpected error) = (refl, refl)
  applied-warnings w collect (Expected.value bundle) =
      let v : Worker = record w { bundle = bundle } in
      let report = evaluate J bundle (collect bundle) setup.capabilities in
      let rest =
        warnings-unless_paused v (Output.publish_report (record { report = report }))
          (Output.report_ready report (map (describe Q) (rules_for bundle setup.host_id))) refl
          refl in
      (refl, omega (arith, rest))

  pub bundle-IsSettled :
      (w : Worker) (message : TemplateBundleMessage) (collect : TemplateBundle → HostFacts J.Double)
      → IsSettled (on_bundle J Q setup w message collect)
  unfolding on_bundle count_if
  bundle-IsSettled w message collect =
      let v : Worker = record w { heard_server = true } in
      let after = applied-warnings v collect (parse_bundle J message.json) in
      elim (Bool-cases (message.revision == w.bundle.revision)) [
        | inl b ↦ rw b (refl, refl)
        | inr b ↦ rw b (
          ap (λ h. h || (applied J Q setup v collect (parse_bundle J message.json)).0.said_unheard)
              after.0,
          after.1,
        )
      ]

  announce-IsSettled :
      (w : Worker) → (w.heard_server || w.said_unheard) ≡ true → IsSettled (announce J Q setup w)
  unfolding announce count_if
  announce-IsSettled w s = rw s (s, omega arith)

  -- The steps at which nothing is counted.
  pub step-Kept : (w : Worker) (h : Happening J Q setup) → IsSilent h → Kept w (step J Q setup w h)
  unfolding step sample_resources evaluate_compliance on_script_finished on_runner_end count_if
  step-Kept w Happening.announce_due n = absurd n
  step-Kept w (Happening.bundle_arrives message collect) n = absurd n
  step-Kept w (Happening.sample_due sample) n =
      (refl, refl, refl, warnings-unless_paused w _ _ refl refl)
  step-Kept w (Happening.evaluation_due collect) n =
      (refl, refl, refl, warnings-unless_paused w _ _ refl refl)
  step-Kept w (Happening.pause_set paused) n = pause-Kept w paused
  step-Kept w (Happening.command_arrives command) n = command-Kept w command
  step-Kept w (Happening.runner_ends outcome) n = ended-Kept w outcome w.script_thread
  step-Kept w Happening.posted_call_due n = finished-Kept w w.posted

  silent-IsSettled :
      (w : Worker) (h : Happening J Q setup)
      → IsSilent h
      → (w.heard_server || w.said_unheard) ≡ true
      → IsSettled (step J Q setup w h)
  silent-IsSettled w h n s = settled w (step J Q setup w h) s (step-Kept w h n)

  step-IsSettled :
      (w : Worker) (h : Happening J Q setup)
      → (w.heard_server || w.said_unheard) ≡ true
      → IsSettled (step J Q setup w h)
  step-IsSettled w Happening.announce_due s = unfold step in announce-IsSettled w s
  step-IsSettled w (Happening.bundle_arrives message collect) s =
      unfold step in bundle-IsSettled w message collect
  step-IsSettled w (Happening.sample_due sample) s =
      silent-IsSettled w (Happening.sample_due sample) tt s
  step-IsSettled w (Happening.evaluation_due collect) s =
      silent-IsSettled w (Happening.evaluation_due collect) tt s
  step-IsSettled w (Happening.pause_set paused) s =
      silent-IsSettled w (Happening.pause_set paused) tt s
  step-IsSettled w (Happening.command_arrives command) s =
      silent-IsSettled w (Happening.command_arrives command) tt s
  step-IsSettled w (Happening.runner_ends outcome) s =
      silent-IsSettled w (Happening.runner_ends outcome) tt s
  step-IsSettled w Happening.posted_call_due s = silent-IsSettled w Happening.posted_call_due tt s

  pub run_settled :
      (w : Worker) (hs : List (Happening J Q setup))
      → (w.heard_server || w.said_unheard) ≡ true
      → warnings (run J Q setup w hs).1 ≡ 0
  unfolding run count_if
  run_settled w [] s = refl
  run_settled w (h ∷ hs) s =
      let first = step-IsSettled w h s in
      let rest = run_settled (step J Q setup w h).0 hs first.0 in
      omega (
        arith,
        first.1,
        rest,
        count_if-append is_unheard (step J Q setup w h).1
            (run J Q setup (step J Q setup w h).0 hs).1,
      )
