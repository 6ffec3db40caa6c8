-- ===== src/Worker/Steps.antt =====
-- Every event keeps the runs of a client's worker in order, and every run comes to its end.
use lab_monitor.Base.{
  suc, ◌≡◌, refl, ap, sym, ◌∙◌, subst, arith, inl, inr, Bool, true, false, Option, none, some, List,
  [], ◌∷◌, ◌++◌, ◌||◌, ◌==◌, leb, length, if◌then◌else◌, Bool-cases, Text, member, str_eq,
}
use lab_monitor.Base.Json.{Expected, JsonLibrary}
use lab_monitor.Facts.{HostFacts, ResourceSample}
use lab_monitor.Bundle.{TemplateBundle}
use lab_monitor.BundleJson.{parse_bundle}
use lab_monitor.Script.{ScriptOutcome, status}
use lab_monitor.RuleDetail.{Qt}
use lab_monitor.Bus.{ScriptCommand, TemplateBundleMessage}
use lab_monitor.Worker.{
  Setup, ScriptThread, Posted, Worker, Output, Event, Happening, new_worker, ended, erase,
  insert_new, thread_of, bool_eq, already_running, unless_paused, applied, Result, finished,
  announce, sample_resources, evaluate_compliance, set_reporting_paused, on_bundle,
  on_script_command, on_runner_end, on_script_finished, step, run, publish_script_outcome,
  refuse_script,
}
use lab_monitor.Worker.Runs.{
  Log, with_result, thread_ids, posted_ids, live, IsSound, carry, ended_kept, ended-IsSound,
  one_call, with_verdict, not_refused, erase_head, started-IsSound, empty_of_length,
}

module _ (J : JsonLibrary) (Q : Qt) (setup : Setup) where
  abbrev pub noted : Log → Event J Q setup → Log
  noted l (Output.thread_started thread) = record l { started = thread.run_id ∷ l.started }
  noted l (Output.publish_script_result message) = with_result l message.status message.run_id
  noted l _ = l

  unfoldable pub note : Log → List (Event J Q setup) → Log
  note l [] = l
  note l (e ∷ es) = note (noted l e) es

  finished-IsSound :
      (w : Worker) (l : Log) (calls : List Posted)
      → w.posted ≡ calls
      → IsSound w l
      → IsSound (finished J Q setup w calls).0 (note l (finished J Q setup w calls).1)
  unfolding note publish_script_outcome
  finished-IsSound w l [] e s = s
  finished-IsSound w l (call ∷ calls) e s =
      let before = ap (λ ps. thread_ids w.script_thread ++ posted_ids ps) e in
      let one =
        one_call (thread_ids w.script_thread) call.run_id calls w.running
          (sym (ap length before) ∙ s.alone) in
      rw (with_verdict l (status call.outcome) call.run_id (not_refused call.outcome)) (record {
        executed = s.executed;
        distinct = s.distinct;
        accounted =
            s.accounted ∙ ap (λ ids. ids ++ l.answered) before ∙ sym (rw (one.0, one.1) refl);
        alone = rw (one.0, one.1) refl;
      })

  -- A refusal of a new run leaves the worker as it was.
  pub busy_kept :
      (w : Worker) (run_id : Text)
      → w.running ≡ true
      → ◌≡◌ {A = Worker}
          (record w { executed = erase run_id (run_id ∷ w.executed); running = true })
          w
  busy_kept w run_id busy =
      λ i. record w { executed = erase_head run_id w.executed i; running = sym busy i }

  abbrev pub run_started : Worker → ScriptCommand → Worker × List (Event J Q setup)
  run_started w command = (
    record w {
      executed = insert_new command.run_id w.executed;
      running = true;
      script_thread = some (thread_of command);
    },
    Output.thread_started (thread_of command) ∷ [],
  )

  -- The answers to a command: silence, a refusal, or a start.
  pub command_cases :
      (P : Result J Q setup → Type 0) (w : Worker) (command : ScriptCommand)
      → P (w, [])
      → ((reason : Text) → P (w, refuse_script J Q setup command reason ∷ []))
      → (member command.run_id w.executed ≡ false → w.running ≡ false → P (run_started w command))
      → P (on_script_command J Q setup w command)
  unfolding on_script_command
  command_cases P w command silent refused started =
      elim (Bool-cases (str_eq command.host_id setup.host_id)) [
        | inr mine ↦ rw mine silent
        | inl mine ↦ elim (Bool-cases setup.allow_scripts) [
          | inr allowed ↦ rw (mine, allowed) (refused _)
          | inl allowed ↦ elim (Bool-cases setup.has_runner) [
            | inr able ↦ rw (mine, allowed, able) (refused _)
            | inl able ↦ elim (Bool-cases (member command.run_id w.executed)) [
              | inl known ↦ rw (mine, allowed, able, known) silent
              | inr fresh ↦ elim (Bool-cases w.running) [
                | inl busy ↦
                    rw (mine, allowed, able, fresh, busy)
                      (subst
                        (λ (v : Worker).
                          P (v, refuse_script J Q setup command already_running ∷ []))
                        (sym (busy_kept w command.run_id busy)) (refused _))
                | inr idle ↦
                    rw (mine, allowed, able, fresh, idle) (rw fresh at (started fresh idle))
              ]
            ]
          ]
        ]
      ]

  command-IsSound :
      (w : Worker) (l : Log) (command : ScriptCommand)
      → IsSound w l
      → let r = on_script_command J Q setup w command in IsSound r.0 (note l r.1)
  unfolding note refuse_script
  command-IsSound w l command s =
      command_cases (λ r. IsSound r.0 (note l r.1)) w command s (λ reason. s)
        λ fresh idle. started-IsSound w l (thread_of command) s idle refl fresh

  announce-IsSound :
      (w : Worker) (l : Log)
      → IsSound w l
      → let r = announce J Q setup w in IsSound r.0 (note l r.1)
  unfolding announce note
  announce-IsSound w l s = elim (Bool-cases (w.heard_server || w.said_unheard)) [
    | inl b ↦ rw b s
    | inr b ↦ elim (Bool-cases (leb 7 (suc w.announces_unheard))) [
      | inl c ↦ rw (b, c) (carry w _ l refl refl refl s)
      | inr c ↦ rw (b, c) (carry w _ l refl refl refl s)
    ]
  ]

  pause-IsSound :
      (w : Worker) (l : Log) (paused : Bool)
      → IsSound w l
      → let r = set_reporting_paused J Q setup w paused in IsSound r.0 (note l r.1)
  unfolding set_reporting_paused note
  pause-IsSound w l paused s = elim (Bool-cases (bool_eq w.paused paused)) [
    | inl b ↦ rw b s
    | inr b ↦ rw b (carry w _ l refl refl refl s)
  ]

  note-append : (l : Log) (es fs : List (Event J Q setup)) → note l (es ++ fs) ≡ note (note l es) fs
  unfolding note
  note-append l [] fs = refl
  note-append l (e ∷ es) fs = note-append (noted l e) es fs

  -- A sample and a report are no matter of a run.
  note-unless_paused :
      (w : Worker) (l : Log) (e : Event J Q setup)
      → noted l e ≡ l
      → note l (unless_paused J Q setup w e) ≡ l
  unfolding note
  note-unless_paused w l e h = elim (Bool-cases w.paused) [ inl b ↦ rw b refl | inr b ↦ rw b h ]

  note_evaluation :
      (w : Worker) (l : Log) (collect : TemplateBundle → HostFacts J.Double)
      → note l (evaluate_compliance J Q setup w collect).1 ≡ l
  unfolding evaluate_compliance note
  note_evaluation w l collect =
      note-append l (unless_paused J Q setup w _) (_ ∷ []) ∙ note-unless_paused w l _ refl

  note_sample :
      (w : Worker) (l : Log) (sample : ResourceSample J.Double)
      → note l (sample_resources J Q setup w sample).1 ≡ l
  unfolding sample_resources note
  note_sample w l sample =
      note-append l (unless_paused J Q setup w _) (_ ∷ []) ∙ note-unless_paused w l _ refl

  applied-IsSound :
      (w : Worker) (l : Log) (collect : TemplateBundle → HostFacts J.Double)
      (parsed : Expected TemplateBundle Text)
      → IsSound w l
      → let r = applied J Q setup w collect parsed in IsSound r.0 (note l r.1)
  unfolding note evaluate_compliance
  applied-IsSound w l collect (Expected.unexpected error) s = s
  applied-IsSound w l collect (Expected.value bundle) s =
      let v : Worker = record w { bundle = bundle } in
      rw (note_evaluation v l collect) (carry w v l refl refl refl s)

  bundle-IsSound :
      (w : Worker) (l : Log) (message : TemplateBundleMessage)
      (collect : TemplateBundle → HostFacts J.Double)
      → IsSound w l
      → let r = on_bundle J Q setup w message collect in IsSound r.0 (note l r.1)
  unfolding on_bundle note
  bundle-IsSound w l message collect s =
      let v : Worker = record w { heard_server = true } in
      let t = carry w v l refl refl refl s in
      elim (Bool-cases (message.revision == w.bundle.revision)) [
        | inl b ↦ rw b t
        | inr b ↦ rw b (applied-IsSound v l collect (parse_bundle J message.json) t)
      ]

  step-IsSound :
      (w : Worker) (l : Log) (h : Happening J Q setup)
      → IsSound w l
      → let r = step J Q setup w h in IsSound r.0 (note l r.1)
  unfolding step
  step-IsSound w l Happening.announce_due s = announce-IsSound w l s
  step-IsSound w l (Happening.sample_due sample) s = rw (note_sample w l sample) s
  step-IsSound w l (Happening.evaluation_due collect) s = rw (note_evaluation w l collect) s
  step-IsSound w l (Happening.pause_set paused) s = pause-IsSound w l paused s
  step-IsSound w l (Happening.bundle_arrives message collect) s =
      bundle-IsSound w l message collect s
  step-IsSound w l (Happening.command_arrives command) s = command-IsSound w l command s
  step-IsSound w l (Happening.runner_ends outcome) s =
      unfold note in ended-IsSound w l outcome w.script_thread refl s
  step-IsSound w l Happening.posted_call_due s = finished-IsSound w l w.posted refl s

  run-IsSound :
      (w : Worker) (l : Log) (hs : List (Happening J Q setup))
      → IsSound w l
      → let r = run J Q setup w hs in IsSound r.0 (note l r.1)
  unfolding run
  run-IsSound w l [] s = unfold note in s
  run-IsSound w l (h ∷ hs) s =
      let first = step J Q setup w h in
      rw (note-append l first.1 (run J Q setup first.0 hs).1)
        (run-IsSound first.0 (note l first.1) hs (step-IsSound w l h s))

  abbrev pub empty_log : Log
  empty_log = record { started = []; answered = [] }

  -- After any course of events from the start, the executed runs are those that have started, no run
  -- has started twice, those that have started are those with a result and behind them the one in
  -- flight, and there is one in flight exactly when the worker is marked as running.
  pub run_new-IsSound :
      (hs : List (Happening J Q setup))
      → let r = run J Q setup new_worker hs in IsSound r.0 (note empty_log r.1)
  run_new-IsSound hs =
      run-IsSound new_worker empty_log hs
        (record { executed = refl; distinct = tt; accounted = refl; alone = refl })

  -- Once the runner has ended, no thread runs.
  ended_idle :
      (w : Worker) (outcome : Option ScriptOutcome) (o : Option ScriptThread)
      → w.script_thread ≡ o
      → thread_ids (ended w outcome o).script_thread ≡ []
  ended_idle w outcome none e = ap thread_ids e
  ended_idle w outcome (some thread) e = elim (Bool-cases thread.is_running) [
    | inl b ↦ rw b refl
    | inr b ↦ rw b (ap thread_ids e ∙ rw b refl)
  ]

  finished_stops :
      (w : Worker) (calls : List Posted)
      → w.posted ≡ calls
      → length (live w) ≡ 1
      → thread_ids w.script_thread ≡ []
      → (finished J Q setup w calls).0.running ≡ false
  finished_stops w [] e h k = absurd (
      omega (
        arith,
        h,
        ap (λ ps. length (thread_ids w.script_thread ++ posted_ids ps)) e,
        ap (λ ids. length (ids ++ posted_ids [])) k,
      ))
  finished_stops w (call ∷ calls) e h k = refl

  finished_kept :
      (w : Worker) (calls : List Posted) → (finished J Q setup w calls).0.executed ≡ w.executed
  finished_kept w [] = refl
  finished_kept w (call ∷ calls) = refl

  all_answered : (w : Worker) (l : Log) → IsSound w l → w.running ≡ false → l.answered ≡ l.started
  all_answered w l s stopped =
      let none_left = s.alone ∙ ap (λ (r : Bool). if r then 1 else 0) stopped in
      sym (s.accounted ∙ ap (λ ids. ids ++ l.answered) (empty_of_length (live w) none_left))

  -- Whatever the runner returns, or if it throws: when it has ended and the posted call is made, a
  -- worker that was running is running no more, and every run that has started has its result.
  pub run_ends :
      (w : Worker) (l : Log) (outcome : Option ScriptOutcome)
      → IsSound w l
      → w.running ≡ true
      → let r = run J Q setup w (Happening.runner_ends outcome ∷ Happening.posted_call_due ∷ []) in
        (r.0.running ≡ false)
        × ((note l r.1).answered ≡ (note l r.1).started)
        × ((note l r.1).started ≡ l.started)
  unfolding run step on_runner_end on_script_finished
  run_ends w l outcome s busy =
      let hs : List (Happening J Q setup) =
        Happening.runner_ends outcome ∷ Happening.posted_call_due ∷ [] in
      let r = run J Q setup w hs in
      let v = ended w outcome w.script_thread in
      let kept = ended_kept w outcome w.script_thread in
      let one =
        (ended-IsSound w l outcome w.script_thread refl s).alone
        ∙ ap (λ (b : Bool). if b then 1 else 0) (kept.1 ∙ busy) in
      let stops = finished_stops v v.posted refl one (ended_idle w outcome w.script_thread refl) in
      let sound = run-IsSound w l hs s in
      (
        stops,
        all_answered r.0 (note l r.1) sound stops,
        sym sound.executed ∙ finished_kept v v.posted ∙ kept.0 ∙ s.executed,
      )
