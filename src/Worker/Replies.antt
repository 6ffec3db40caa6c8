-- ===== src/Worker/Replies.antt =====
-- What a client's worker answers to a command, and what it says while reporting is paused.
use lab_monitor.Base.{
  ◌≡◌, refl, ap, ◌∙◌, inl, inr, true, false, not, ◌&&◌, ◌||◌, leb, suc, List, [], ◌∷◌, ◌==◌, Option,
  none, some, arith, All, All-append, if◌then◌else◌, Bool-cases, Text, text, pos, member, str_eq,
}
use lab_monitor.Base.Json.{Expected, JsonLibrary}
use lab_monitor.Facts.{HostFacts}
use lab_monitor.Bundle.{TemplateBundle}
use lab_monitor.BundleJson.{parse_bundle}
use lab_monitor.Script.{ScriptStatus, ScriptOutcome}
use lab_monitor.Dispatch.{ScriptResultMessage}
use lab_monitor.Bus.{ScriptCommand}
use lab_monitor.RuleDetail.{Qt}
use lab_monitor.Worker.{
  Setup, Worker, ScriptThread, Posted, Output, Event, Result, Happening, already_running,
  refuse_script, on_script_command, announce, sample_resources, evaluate_compliance,
  set_reporting_paused, on_bundle, on_runner_end, on_script_finished, finished, ended, applied,
  step, run, publish_script_outcome,
}
use lab_monitor.Worker.Runs.{erase_head}
use lab_monitor.Worker.Steps.{command_cases}

module _ (J : JsonLibrary) (Q : Qt) (setup : Setup) where
  -- The reason that stands in the way of a script, where there is one.
  abbrev pub obstacle : Text
  obstacle =
      if not setup.allow_scripts
      then text "this machine is not enrolled for script execution (--allow-scripts)"
      else if not setup.has_runner
      then text "this platform has no script runner"
      else text "another script is already running on this machine"

  -- The result that says so.
  abbrev pub refusal : ScriptCommand → Text → ScriptResultMessage
  refusal command reason = record {
    host_id = setup.host_id;
    run_id = command.run_id;
    status = ScriptStatus.refused;
    refusal_reason = reason;
    exit_code = pos 0;
    has_reported = false;
    reported_ok = false;
    reported_message = [];
    stdout_text = [];
    stderr_text = [];
    duration_ms = 0;
  }

  -- The thread that is started for a command.
  abbrev pub thread_for : ScriptCommand → ScriptThread
  thread_for command = record {
    run_id = command.run_id;
    script_name = command.script_name;
    script_body = command.script_body;
    timeout_seconds = command.timeout_seconds;
    is_running = true;
  }

  -- A command to this host with a run that it has not executed yet is always answered. If the host is
  -- enrolled, has a runner and runs no other script, a thread is started with the script of the
  -- command, and the run is noted as executed; otherwise a result goes out that is refused with the
  -- reason and holds nothing else, and the worker is as it was, so that the run may be tried again.
  pub on_script_command_new :
      (w : Worker) (command : ScriptCommand)
      → str_eq command.host_id setup.host_id ≡ true
      → member command.run_id w.executed ≡ false
      → on_script_command J Q setup w command ≡ (
          if (setup.allow_scripts && setup.has_runner) && not w.running
          then (
            record w {
              executed = command.run_id ∷ w.executed;
              running = true;
              script_thread = some (thread_for command);
            },
            Output.thread_started (thread_for command) ∷ [],
          )
          else (w, Output.publish_script_result (refusal command obstacle) ∷ []))
  unfolding on_script_command refuse_script
  on_script_command_new w command mine fresh = elim (Bool-cases setup.allow_scripts) [
    | inr allowed ↦ rw (mine, allowed) refl
    | inl allowed ↦ elim (Bool-cases setup.has_runner) [
      | inr able ↦ rw (mine, allowed, able) refl
      | inl able ↦ elim (Bool-cases w.running) [
        | inr idle ↦ rw (mine, allowed, able, fresh, idle) refl
        | inl busy ↦
            rw (mine, allowed, able, fresh, busy)
              (ap
                (λ (ids : List Text). (
                  record w { executed = ids; running = true },
                  refuse_script J Q setup command already_running ∷ [],
                ))
                (erase_head command.run_id w.executed))
      ]
    ]
  ]

  abbrev pub IsQuiet : Event J Q setup → Type 0
  IsQuiet (Output.publish_resources message) = ⊥
  IsQuiet (Output.publish_report message) = ⊥
  IsQuiet _ = Unit

  abbrev pub IsNoResume : Happening J Q setup → Type 0
  IsNoResume (Happening.pause_set false) = ⊥
  IsNoResume _ = Unit

  abbrev IsPaused : Result J Q setup → Type 0
  IsPaused r = (r.0.paused ≡ true) × All IsQuiet r.1

  announce-IsPaused : (w : Worker) → w.paused ≡ true → IsPaused (announce J Q setup w)
  unfolding announce
  announce-IsPaused w p = elim (Bool-cases (w.heard_server || w.said_unheard)) [
    | inl b ↦ rw b (p, (tt, tt))
    | inr b ↦ elim (Bool-cases (leb 7 (suc w.announces_unheard))) [
      | inl c ↦ rw (b, c) (p, (tt, (tt, tt)))
      | inr c ↦ rw (b, c) (p, (tt, tt))
    ]
  ]

  finished-IsPaused :
      (w : Worker) (calls : List Posted) → w.paused ≡ true → IsPaused (finished J Q setup w calls)
  unfolding publish_script_outcome
  finished-IsPaused w [] p = (p, tt)
  finished-IsPaused w (call ∷ calls) p = (p, (tt, tt))

  ended_paused :
      (w : Worker) (outcome : Option ScriptOutcome) (o : Option ScriptThread)
      → (ended w outcome o).paused ≡ w.paused
  ended_paused w outcome none = refl
  ended_paused w outcome (some thread) = ground arith

  pause_again : (w : Worker) → w.paused ≡ true → IsPaused (set_reporting_paused J Q setup w true)
  unfolding set_reporting_paused
  pause_again w p = rw p (refl, tt)

  applied-IsPaused :
      (w : Worker) (collect : TemplateBundle → HostFacts J.Double)
      (parsed : Expected TemplateBundle Text)
      → w.paused ≡ true
      → IsPaused (applied J Q setup w collect parsed)
  unfolding evaluate_compliance
  applied-IsPaused w collect (Expected.unexpected error) p = (p, tt)
  applied-IsPaused w collect (Expected.value bundle) p = rw p (refl, (tt, (tt, tt)))

  step-IsPaused :
      (w : Worker) (h : Happening J Q setup)
      → w.paused ≡ true
      → IsNoResume h
      → IsPaused (step J Q setup w h)
  unfolding step sample_resources evaluate_compliance on_script_finished on_runner_end on_bundle
      refuse_script
  step-IsPaused w Happening.announce_due p n = announce-IsPaused w p
  step-IsPaused w (Happening.sample_due sample) p n = (p, rw p (tt, tt))
  step-IsPaused w (Happening.evaluation_due collect) p n = (p, rw p (tt, tt))
  step-IsPaused w (Happening.pause_set true) p n = pause_again w p
  step-IsPaused w (Happening.pause_set false) p n = absurd n
  step-IsPaused w (Happening.bundle_arrives message collect) p n =
      let v : Worker = record w { heard_server = true } in
      elim (Bool-cases (message.revision == w.bundle.revision)) [
        | inl b ↦ rw b (p, tt)
        | inr b ↦ rw b (applied-IsPaused v collect (parse_bundle J message.json) p)
      ]
  step-IsPaused w (Happening.command_arrives command) p n =
      command_cases J Q setup IsPaused w command (p, tt) (λ reason. (p, (tt, tt)))
        λ fresh idle. (p, (tt, tt))
  step-IsPaused w (Happening.runner_ends outcome) p n =
      (ended_paused w outcome w.script_thread ∙ p, tt)
  step-IsPaused w Happening.posted_call_due p n = finished-IsPaused w w.posted p

  -- While reporting is paused and nobody resumes it, though it may be paused again, no course of
  -- events makes the worker publish a resource sample or a compliance report.
  pub run_paused :
      (w : Worker) (hs : List (Happening J Q setup))
      → w.paused ≡ true
      → All IsNoResume hs
      → All IsQuiet (run J Q setup w hs).1
  unfolding run
  run_paused w [] p n = tt
  run_paused w (h ∷ hs) p n =
      let first = step-IsPaused w h p n.0 in
      All-append IsQuiet (step J Q setup w h).1 (run J Q setup (step J Q setup w h).0 hs).1 first.1
        (run_paused (step J Q setup w h).0 hs first.0 n.1)
