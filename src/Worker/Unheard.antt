-- ===== src/Worker/Unheard.antt =====
-- The warning of a client's worker that no server answers it.
use lab_monitor.Base.{
  ℕ, suc, ◌+◌, ◌<◌, ◌≡◌, refl, ap, ◌∙◌, inl, inr, arith, Bool, true, false, ◌||◌, leb, List, [],
  ◌∷◌, if◌then◌else◌, Bool-cases, count_if, count_if-append,
}
use lab_monitor.Base.Json.{JsonLibrary}
use lab_monitor.Facts.{HostFacts}
use lab_monitor.Bundle.{TemplateBundle}
use lab_monitor.Bus.{TemplateBundleMessage}
use lab_monitor.RuleDetail.{Qt}
use lab_monitor.Worker.{Setup, Worker, Happening, new_worker, announce, on_bundle, step, run}
use lab_monitor.Worker.Settled.{
  is_unheard, warnings, announces_before, IsSilent, step-Kept, bundle-IsSettled, run_settled,
}

abbrev one_if : Bool → ℕ
one_if b = if b then 1 else 0

seventh :
    (a counted n : ℕ) → a ≡ counted → leb 7 (suc a) ≡ true → one_if (leb 7 (counted + suc n)) ≡ 1
seventh a counted n h e = ground arith

before_seventh : (a counted : ℕ) → a ≡ counted → leb 7 (suc a) ≡ false → suc counted < 7
before_seventh a counted h e = ground arith

shifted : (counted n : ℕ) → one_if (leb 7 (suc counted + n)) ≡ one_if (leb 7 (counted + suc n))
shifted counted n =
    let e : suc counted + n ≡ counted + suc n = omega arith in ap (λ (k : ℕ). one_if (leb 7 k)) e

none_counted : (n : ℕ) → one_if (leb 7 (0 + n)) ≡ one_if (leb 7 n)
none_counted n = let e : 0 + n ≡ n = omega arith in ap (λ (k : ℕ). one_if (leb 7 k)) e

never : (counted : ℕ) → counted < 7 → 0 ≡ one_if (leb 7 (counted + 0))
never counted h = ground arith

module _ (J : JsonLibrary) (Q : Qt) (setup : Setup) where
  -- The worker waits for a server, and has counted some announces.
  abbrev IsWaiting : Worker → ℕ → Type 0
  IsWaiting w counted =
      (w.heard_server ≡ false) × (w.said_unheard ≡ false) × (w.announces_unheard ≡ counted)

  silent_waiting :
      (w : Worker) (h : Happening J Q setup) (hs : List (Happening J Q setup)) (counted n : ℕ)
      → IsSilent J Q setup h
      → IsWaiting w counted
      → ((v : Worker) → IsWaiting v counted → warnings J Q setup (run J Q setup v hs).1 ≡ n)
      → warnings J Q setup (run J Q setup w (h ∷ hs)).1 ≡ n
  unfolding run
  silent_waiting w h hs counted n silent (a, b, c) rest =
      let first = step J Q setup w h in
      let kept = step-Kept J Q setup w h silent in
      let after = rest first.0 (kept.0 ∙ a, kept.1 ∙ b, kept.2 ∙ c) in
      omega (
        arith,
        kept.3,
        after,
        count_if-append (is_unheard J Q setup) first.1 (run J Q setup first.0 hs).1,
      )

  announce_waiting :
      (w : Worker) (hs : List (Happening J Q setup)) (counted : ℕ)
      → IsWaiting w counted
      → counted < 7
      → ((v : Worker)
          → IsWaiting v (suc counted)
          → suc counted < 7
          → warnings J Q setup (run J Q setup v hs).1
            ≡ one_if (leb 7 (suc counted + announces_before J Q setup hs)))
      → warnings J Q setup (run J Q setup w (Happening.announce_due ∷ hs)).1
        ≡ one_if (leb 7 (counted + suc (announces_before J Q setup hs)))
  unfolding run step announce count_if
  announce_waiting w hs counted (a, b, c) d rest =
      let waits = ap (λ (h : Bool). h || w.said_unheard) a ∙ b in
      let next : Worker = record w { announces_unheard = suc w.announces_unheard } in
      elim (Bool-cases (leb 7 (suc w.announces_unheard))) [
        | inl e ↦
            let said : Worker = record next { said_unheard = true } in
            let heard_or_said = ap (λ (h : Bool). h || true) a in
            rw (waits, e)
              (omega (
                arith,
                run_settled J Q setup said hs heard_or_said,
                seventh w.announces_unheard counted (announces_before J Q setup hs) c e,
              ))
        | inr e ↦
            let few = before_seventh w.announces_unheard counted c e in
            rw (waits, e)
              (omega (
                arith,
                rest next (a, b, ap suc c) few,
                shifted counted (announces_before J Q setup hs),
              ))
      ]

  bundle_waiting :
      (w : Worker) (message : TemplateBundleMessage) (collect : TemplateBundle → HostFacts J.Double)
      (hs : List (Happening J Q setup)) (counted : ℕ)
      → counted < 7
      → warnings J Q setup (run J Q setup w (Happening.bundle_arrives message collect ∷ hs)).1
        ≡ one_if (leb 7 (counted + 0))
  unfolding run step
  bundle_waiting w message collect hs counted d =
      let first = on_bundle J Q setup w message collect in
      let heard = bundle-IsSettled J Q setup w message collect in
      omega (
        arith,
        heard.1,
        run_settled J Q setup first.0 hs heard.0,
        count_if-append (is_unheard J Q setup) first.1 (run J Q setup first.0 hs).1,
        never counted d,
      )

  run_waiting :
      (w : Worker) (hs : List (Happening J Q setup)) (counted : ℕ)
      → IsWaiting w counted
      → counted < 7
      → warnings J Q setup (run J Q setup w hs).1
        ≡ one_if (leb 7 (counted + announces_before J Q setup hs))
  run_waiting w [] counted i d = unfold run count_if in never counted d
  run_waiting w (Happening.announce_due ∷ hs) counted i d =
      announce_waiting w hs counted i d λ v k e. run_waiting v hs (suc counted) k e
  run_waiting w (Happening.bundle_arrives message collect ∷ hs) counted i d =
      bundle_waiting w message collect hs counted d
  run_waiting w (Happening.sample_due sample ∷ hs) counted i d =
      silent_waiting w _ hs counted _ tt i λ v k. run_waiting v hs counted k d
  run_waiting w (Happening.evaluation_due collect ∷ hs) counted i d =
      silent_waiting w _ hs counted _ tt i λ v k. run_waiting v hs counted k d
  run_waiting w (Happening.pause_set paused ∷ hs) counted i d =
      silent_waiting w _ hs counted _ tt i λ v k. run_waiting v hs counted k d
  run_waiting w (Happening.command_arrives command ∷ hs) counted i d =
      silent_waiting w _ hs counted _ tt i λ v k. run_waiting v hs counted k d
  run_waiting w (Happening.runner_ends outcome ∷ hs) counted i d =
      silent_waiting w _ hs counted _ tt i λ v k. run_waiting v hs counted k d
  run_waiting w (Happening.posted_call_due ∷ hs) counted i d =
      silent_waiting w _ hs counted _ tt i λ v k. run_waiting v hs counted k d

  -- Over any course of events from the start, a worker warns that no server answers exactly once if
  -- seven announces or more come before the first bundle, and never otherwise.
  pub run_warnings :
      (hs : List (Happening J Q setup))
      → warnings J Q setup (run J Q setup new_worker hs).1
        ≡ (if leb 7 (announces_before J Q setup hs) then 1 else 0)
  run_warnings hs =
      run_waiting new_worker hs 0 (refl, refl, refl) (omega arith)
      ∙ none_counted (announces_before J Q setup hs)
