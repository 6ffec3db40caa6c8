-- ===== src/Worker/Runs.antt =====
-- The runs of scripts that a client's worker has started, and what the end of a run does to them.
use lab_monitor.Base.{
  suc, ◌≡◌, ◌≢◌, refl, ap, sym, ◌∙◌, arith, inl, inr, Bool, true, false, Option, none, some, List,
  [], ◌∷◌, ◌++◌, map, length, length-append, if◌then◌else◌, Bool-cases, Text, member, str_eq_refl,
  Distinct,
}
use lab_monitor.Script.{ScriptStatus, ScriptOutcome, status}
use lab_monitor.Script.Verdict.{status_iff}
use lab_monitor.Worker.{ScriptThread, Posted, Worker, ended, posted_by, erase, insert_new}

-- The ids of the runs that have started and of those that have got a result, the last one first. A
-- refusal is no result of a run.
pub record Log : Type 0 where
  pub started : List Text
  pub answered : List Text

abbrev pub with_result : Log → ScriptStatus → Text → Log
with_result l ScriptStatus.refused run_id = l
with_result l _ run_id = record l { answered = run_id ∷ l.answered }

abbrev pub thread_ids : Option ScriptThread → List Text
thread_ids none = []
thread_ids (some thread) = if thread.is_running then thread.run_id ∷ [] else []

abbrev pub posted_ids : List Posted → List Text
posted_ids posted = map (λ (p : Posted). p.run_id) posted

-- The runs that have started and have no result yet.
abbrev pub live : Worker → List Text
live w = thread_ids w.script_thread ++ posted_ids w.posted

pub record IsSound (w : Worker) (l : Log) : Type 0 where
  pub executed : w.executed ≡ l.started
  pub distinct : Distinct l.started
  pub accounted : l.started ≡ live w ++ l.answered
  pub alone : length (live w) ≡ (if w.running then 1 else 0)

one_posted :
    (x : Text) (posted : List Posted) (running : Bool)
    → length (x ∷ posted_ids posted) ≡ (if running then 1 else 0)
    → (posted ≡ []) × (running ≡ true)
one_posted x [] true h = (refl, refl)
one_posted x [] false h = absurd (omega (arith, h))
one_posted x (p ∷ ps) true h = absurd (omega (arith, h))
one_posted x (p ∷ ps) false h = absurd (omega (arith, h))

-- A thread that still runs is all there is in flight.
live_running :
    (w : Worker) (thread : ScriptThread)
    → w.script_thread ≡ some thread
    → thread.is_running ≡ true
    → live w ≡ thread.run_id ∷ posted_ids w.posted
live_running w thread e b = ap (λ o. thread_ids o ++ posted_ids w.posted) e ∙ rw b refl

-- What leaves the runs alone keeps the worker sound.
pub carry :
    (w w' : Worker) (l : Log)
    → w'.executed ≡ w.executed
    → live w' ≡ live w
    → w'.running ≡ w.running
    → IsSound w l
    → IsSound w' l
carry w w' l executed lives running s = record {
  executed = executed ∙ s.executed;
  distinct = s.distinct;
  accounted = s.accounted ∙ ap (λ ids. ids ++ l.answered) (sym lives);
  alone = ap length lives ∙ s.alone ∙ ap (λ b. if b then 1 else 0) (sym running);
}

live-ended :
    (w : Worker) (l : Log) (outcome : Option ScriptOutcome) (thread : ScriptThread)
    → w.script_thread ≡ some thread
    → thread.is_running ≡ true
    → IsSound w l
    → live (ended w outcome (some thread)) ≡ live w
live-ended w l outcome thread e b s =
    let lives = live_running w thread e b in
    let one = one_posted thread.run_id w.posted w.running (sym (ap length lives) ∙ s.alone) in
    rw b (
      ap (λ ps. posted_ids (ps ++ (posted_by thread outcome ∷ []))) one.0
      ∙ ap (λ ps. thread.run_id ∷ posted_ids ps) (sym one.0)
      ∙ sym lives)

ended_cases :
    (P : Worker → Type 0) (w : Worker) (outcome : Option ScriptOutcome) (thread : ScriptThread)
    → (thread.is_running ≡ true → P (ended w outcome (some thread)))
    → P w
    → P (ended w outcome (some thread))
ended_cases P w outcome thread k p = elim (Bool-cases thread.is_running) [
  | inl b ↦ k b
  | inr b ↦ rw b p
]

pub ended_kept :
    (w : Worker) (outcome : Option ScriptOutcome) (o : Option ScriptThread)
    → ((ended w outcome o).executed ≡ w.executed) × ((ended w outcome o).running ≡ w.running)
ended_kept w outcome none = (refl, refl)
ended_kept w outcome (some thread) = ground arith

pub ended-IsSound :
    (w : Worker) (l : Log) (outcome : Option ScriptOutcome) (o : Option ScriptThread)
    → w.script_thread ≡ o
    → IsSound w l
    → IsSound (ended w outcome o) l
ended-IsSound w l outcome none e s = s
ended-IsSound w l outcome (some thread) e s =
    ended_cases (λ v. IsSound v l) w outcome thread
      (λ b.
        carry w (ended w outcome (some thread)) l (ended_kept w outcome (some thread)).0
          (live-ended w l outcome thread e b s) (ended_kept w outcome (some thread)).1 s)
      s

-- A posted call is all there is in flight.
pub one_call :
    (ids : List Text) (x : Text) (posted : List Posted) (running : Bool)
    → length (ids ++ (x ∷ posted_ids posted)) ≡ (if running then 1 else 0)
    → (ids ≡ []) × (posted ≡ [])
one_call [] x [] running h = (refl, refl)
one_call [] x (p ∷ ps) true h = absurd (omega (arith, h))
one_call [] x (p ∷ ps) false h = absurd (omega (arith, h))
one_call (i ∷ ids) x posted true h =
    absurd (omega (arith, h, length-append ids (x ∷ posted_ids posted)))
one_call (i ∷ ids) x posted false h = absurd (omega (arith, h))

pub none_live :
    (ids : List Text) (posted : List Posted) → length (ids ++ posted_ids posted) ≡ 0 → posted ≡ []
none_live [] [] h = refl
none_live [] (p ∷ ps) h = absurd (omega (arith, h))
none_live (i ∷ ids) [] h = refl
none_live (i ∷ ids) (p ∷ ps) h = absurd (omega (arith, h))

pub with_verdict :
    (l : Log) (s : ScriptStatus) (run_id : Text)
    → s ≢ ScriptStatus.refused
    → with_result l s run_id ≡ record l { answered = run_id ∷ l.answered }
with_verdict l ScriptStatus.completed run_id h = refl
with_verdict l ScriptStatus.failed run_id h = refl
with_verdict l ScriptStatus.error run_id h = refl
with_verdict l ScriptStatus.refused run_id h = absurd (h refl)

pub not_refused : (outcome : ScriptOutcome) → status outcome ≢ ScriptStatus.refused
not_refused outcome = let (_, _, h) = status_iff outcome in h

pub erase_head : (x : Text) (xs : List Text) → erase x (x ∷ xs) ≡ xs
unfolding erase
erase_head x xs = rw (str_eq_refl x) refl

pub empty_of_length : (xs : List Text) → length xs ≡ 0 → xs ≡ []
empty_of_length [] h = refl
empty_of_length (x ∷ xs) h = absurd (omega (arith, h))

pub started-IsSound :
    (w : Worker) (l : Log) (thread : ScriptThread)
    → IsSound w l
    → w.running ≡ false
    → thread.is_running ≡ true
    → member thread.run_id w.executed ≡ false
    → IsSound
        (record w {
          executed = insert_new thread.run_id w.executed;
          running = true;
          script_thread = some thread;
        })
        (record l { started = thread.run_id ∷ l.started })
started-IsSound w l thread s stopped b fresh =
    let lives = s.alone ∙ ap (λ (r : Bool). if r then 1 else 0) stopped in
    let idle = none_live (thread_ids w.script_thread) w.posted lives in
    rw b (record {
      executed = rw fresh (ap (λ ids. thread.run_id ∷ ids) s.executed);
      distinct = (ap (λ ids. member thread.run_id ids) (sym s.executed) ∙ fresh, s.distinct);
      accounted =
          ap (λ ids. thread.run_id ∷ ids)
            (s.accounted
              ∙ ap (λ ids. ids ++ l.answered) (empty_of_length (live w) lives)
              ∙ ap (λ ps. posted_ids ps ++ l.answered) (sym idle));
      alone = ap (λ ps. suc (length (posted_ids ps))) idle;
    })
