-- ===== src/Bus/Delivery.antt =====
-- What a subscriber of the bus in libs/transport/src/in_memory_transport.cpp hears.
use lab_monitor.Base.{
  ℕ, zero, suc, ◌+◌, ◌≡◌, refl, ap, ◌∙◌, inl, inr, arith, true, Option, none, some, List, [], ◌∷◌,
  ◌++◌, ◌==◌, if◌then◌else◌, All, Bool-cases,
}
use lab_monitor.Bus.{
  TemplateBundleMessage, ScriptCommand, Call, Handlers, MessageBus, Operation, deliver, replay,
  step, run,
}

abbrev pub is_handler : ℕ → Option ℕ → ℕ
is_handler n none = 0
is_handler n (some h) = if h == n then 1 else 0

-- How often a callback stands among the handlers.
abbrev pub times : ℕ → Handlers → ℕ
times n [] = 0
times n (h ∷ handlers) = is_handler n h + times n handlers

abbrev copies {ℓ} : {A : Type ℓ} → ℕ → A → List A
copies zero x = []
copies (suc k) x = x ∷ copies k x

copies_one {ℓ} : {A : Type ℓ} (k : ℕ) (x : A) → x ∷ copies k x ≡ copies (1 + k) x
copies_one k x = ap (λ j. copies j x) (one_more k)
  where
    one_more : (k : ℕ) → suc k ≡ 1 + k
    one_more k = omega arith

times-append :
    (n : ℕ) (xs : Handlers) (h : Option ℕ) → times n (xs ++ h ∷ []) ≡ times n xs + is_handler n h
times-append n [] h = omega arith
times-append n (x ∷ xs) h = omega (arith, times-append n xs h)

abbrev pub push {ℓ} : {M : Type ℓ} → Option M → List M → List M
push none ms = ms
push (some m) ms = m ∷ ms

push-append {ℓ} : {M : Type ℓ} (o : Option M) (ms : List M) → push o [] ++ ms ≡ push o ms
push-append none ms = refl
push-append (some m) ms = refl

module _ {Double : Type 0} where
  abbrev pub heard : {M : Type 0} → (Call Double → Option M) → List (Call Double) → List M
  heard pick [] = []
  heard pick (call ∷ calls) = push (pick call) (heard pick calls)

  heard-append :
      {M : Type 0} (pick : Call Double → Option M) (xs ys : List (Call Double))
      → heard pick (xs ++ ys) ≡ heard pick xs ++ heard pick ys
  heard-append pick [] ys = refl
  heard-append {M = M} pick (x ∷ xs) ys = pushed (pick x) (heard-append pick xs ys)
    where
      pushed :
          (o : Option M)
          → heard pick (xs ++ ys) ≡ heard pick xs ++ heard pick ys
          → push o (heard pick (xs ++ ys)) ≡ push o (heard pick xs) ++ heard pick ys
      pushed none e = e
      pushed (some m) e = ap (λ ms. m ∷ ms) e

  heard-deliver_other :
      {M N : Type 0} (pick : Call Double → Option M) (call : ℕ → N → Call Double)
      → ((h : ℕ) (m : N) → pick (call h m) ≡ none)
      → (handlers : Handlers) (m : N) → heard pick (deliver call handlers m) ≡ []
  unfolding deliver
  heard-deliver_other pick call silent [] m = refl
  heard-deliver_other pick call silent (none ∷ hs) m = heard-deliver_other pick call silent hs m
  heard-deliver_other pick call silent (some h ∷ hs) m =
      rw (silent h m) (heard-deliver_other pick call silent hs m)

  heard-deliver_own :
      {M : Type 0} (n : ℕ) (pick : Call Double → Option M) (call : ℕ → M → Call Double)
      → ((h : ℕ) (m : M) → pick (call h m) ≡ (if h == n then some m else none))
      → (handlers : Handlers) (m : M)
      → heard pick (deliver call handlers m) ≡ copies (times n handlers) m
  unfolding deliver
  heard-deliver_own n pick call own [] m = refl
  heard-deliver_own n pick call own (none ∷ hs) m =
      heard-deliver_own n pick call own hs m ∙ ap (λ k. copies k m) (omega arith)
  heard-deliver_own n pick call own (some h ∷ hs) m = elim (Bool-cases (h == n)) [
    | inl e ↦ rw (own h m, e, heard-deliver_own n pick call own hs m) (copies_one (times n hs) m)
    | inr e ↦
        rw (own h m, e, heard-deliver_own n pick call own hs m) (ap (λ k. copies k m) (omega arith))
  ]

  -- The bundle that a call gives to callback `n`, and the command.
  abbrev pub bundle_to : ℕ → Call Double → Option TemplateBundleMessage
  bundle_to n (Call.bundled h m) = if h == n then some m else none
  bundle_to n _ = none

  abbrev pub command_to : ℕ → Call Double → Option ScriptCommand
  command_to n (Call.commanded h m) = if h == n then some m else none
  command_to n _ = none

  abbrev pub bundles_of : Operation Double → List TemplateBundleMessage
  bundles_of (Operation.publish_bundle m) = m ∷ []
  bundles_of _ = []

  abbrev pub commands_of : Operation Double → List ScriptCommand
  commands_of (Operation.publish_script_command m) = m ∷ []
  commands_of _ = []

  -- What a sequence of operations publishes.
  abbrev pub published :
      {M : Type 0} → (Operation Double → List M) → List (Operation Double) → List M
  published of [] = []
  published of (operation ∷ operations) = of operation ++ published of operations

  -- The operation does not subscribe callback `n` to bundles, nor to commands.
  abbrev pub IsElsewhere : ℕ → Operation Double → Type 0
  IsElsewhere n (Operation.subscribe_bundle h) = is_handler n h ≡ 0
  IsElsewhere n (Operation.subscribe_script_command h) = is_handler n h ≡ 0
  IsElsewhere n _ = Unit

is_handler_own : (n : ℕ) → is_handler n (some n) ≡ 1
is_handler_own n = ground arith

heard-replay_other :
    (Double : Type 0) (n : ℕ) (h : Option ℕ) (retained : Option TemplateBundleMessage)
    → is_handler n h ≡ 0
    → heard (bundle_to {Double = Double} n) (replay {Double = Double} h retained) ≡ []
heard-replay_other _ n none retained e = refl
heard-replay_other _ n (some h) none e = refl
heard-replay_other _ n (some h) (some m) e = elim (Bool-cases (h == n)) [
  | inl f ↦ absurd (ground (arith, e, f))
  | inr f ↦ rw f refl
]

heard-replay_own :
    (Double : Type 0) (n : ℕ) (retained : Option TemplateBundleMessage)
    → heard (bundle_to {Double = Double} n) (replay {Double = Double} (some n) retained)
      ≡ push retained []
heard-replay_own _ n none = refl
heard-replay_own _ n (some m) = rw (same n) refl
  where
    same : (n : ℕ) → (n == n) ≡ true
    same n = ground arith

module _ {Double : Type 0} where
  step-bundles :
      (n : ℕ) (bus : MessageBus) (operation : Operation Double)
      → times n bus.bundle_handlers ≡ 1
      → IsElsewhere n operation
      → (heard (bundle_to n) (step bus operation).1 ≡ bundles_of operation)
        × (times n (step bus operation).0.bundle_handlers ≡ 1)
  unfolding step
  step-bundles n bus (Operation.publish_announce m) once e =
      (heard-deliver_other (bundle_to n) Call.announced (λ h m. refl) bus.announce_handlers m, once)
  step-bundles n bus (Operation.publish_resources m) once e =
      (heard-deliver_other (bundle_to n) Call.sampled (λ h m. refl) bus.resource_handlers m, once)
  step-bundles n bus (Operation.publish_report m) once e =
      (heard-deliver_other (bundle_to n) Call.reported (λ h m. refl) bus.report_handlers m, once)
  step-bundles n bus (Operation.publish_bundle m) once e = (
    heard-deliver_own n (bundle_to n) Call.bundled (λ h m. refl) bus.bundle_handlers m
        ∙ ap (λ k. copies k m) once,
    once,
  )
  step-bundles n bus (Operation.publish_script_command m) once e = (
    heard-deliver_other (bundle_to n) Call.commanded (λ h m. refl) bus.script_command_handlers m,
    once,
  )
  step-bundles n bus (Operation.publish_script_result m) once e = (
    heard-deliver_other (bundle_to n) Call.answered (λ h m. refl) bus.script_result_handlers m,
    once,
  )
  step-bundles n bus (Operation.subscribe_bundle h) once e = (
    heard-replay_other Double n h bus.retained_bundle e,
    omega (arith, times-append n bus.bundle_handlers h, once, e),
  )
  step-bundles n bus _ once e = (refl, once)

  step-commands :
      (n : ℕ) (bus : MessageBus) (operation : Operation Double)
      → times n bus.script_command_handlers ≡ 1
      → IsElsewhere n operation
      → (heard (command_to n) (step bus operation).1 ≡ commands_of operation)
        × (times n (step bus operation).0.script_command_handlers ≡ 1)
  unfolding step
  step-commands n bus (Operation.publish_announce m) once e = (
    heard-deliver_other (command_to n) Call.announced (λ h m. refl) bus.announce_handlers m,
    once,
  )
  step-commands n bus (Operation.publish_resources m) once e =
      (heard-deliver_other (command_to n) Call.sampled (λ h m. refl) bus.resource_handlers m, once)
  step-commands n bus (Operation.publish_report m) once e =
      (heard-deliver_other (command_to n) Call.reported (λ h m. refl) bus.report_handlers m, once)
  step-commands n bus (Operation.publish_bundle m) once e =
      (heard-deliver_other (command_to n) Call.bundled (λ h m. refl) bus.bundle_handlers m, once)
  step-commands n bus (Operation.publish_script_command m) once e = (
    heard-deliver_own n (command_to n) Call.commanded (λ h m. refl) bus.script_command_handlers m
        ∙ ap (λ k. copies k m) once,
    once,
  )
  step-commands n bus (Operation.publish_script_result m) once e = (
    heard-deliver_other (command_to n) Call.answered (λ h m. refl) bus.script_result_handlers m,
    once,
  )
  step-commands n bus (Operation.subscribe_bundle h) once e =
      (no_command h bus.retained_bundle, once)
    where
      no_command :
          (h : Option ℕ) (retained : Option TemplateBundleMessage)
          → heard (command_to {Double = Double} n) (replay h retained) ≡ []
      no_command none retained = refl
      no_command (some h) none = refl
      no_command (some h) (some m) = refl
  step-commands n bus (Operation.subscribe_script_command h) once e =
      (refl, omega (arith, times-append n bus.script_command_handlers h, once, e))
  step-commands n bus _ once e = (refl, once)

  run-bundles :
      (n : ℕ) (bus : MessageBus) (operations : List (Operation Double))
      → times n bus.bundle_handlers ≡ 1
      → All (IsElsewhere n) operations
      → heard (bundle_to n) (run bus operations).1 ≡ published bundles_of operations
  unfolding run
  run-bundles n bus [] once e = refl
  run-bundles n bus (op ∷ ops) once (e, es) =
      let (now, still) = step-bundles n bus op once e in
      heard-append (bundle_to n) (step bus op).1 (run (step bus op).0 ops).1
      ∙ ap (λ ms. ms ++ heard (bundle_to n) (run (step bus op).0 ops).1) now
      ∙ ap (λ ms. bundles_of op ++ ms) (run-bundles n (step bus op).0 ops still es)

  run-commands :
      (n : ℕ) (bus : MessageBus) (operations : List (Operation Double))
      → times n bus.script_command_handlers ≡ 1
      → All (IsElsewhere n) operations
      → heard (command_to n) (run bus operations).1 ≡ published commands_of operations
  unfolding run
  run-commands n bus [] once e = refl
  run-commands n bus (op ∷ ops) once (e, es) =
      let (now, still) = step-commands n bus op once e in
      heard-append (command_to n) (step bus op).1 (run (step bus op).0 ops).1
      ∙ ap (λ ms. ms ++ heard (command_to n) (run (step bus op).0 ops).1) now
      ∙ ap (λ ms. commands_of op ++ ms) (run-commands n (step bus op).0 ops still es)

  -- A callback that is not among the bundle handlers, once subscribed, hears the retained bundle, if
  -- there is one, and then every bundle that is published later, in their order and once each, until
  -- it is subscribed again.
  pub subscribe_bundle-replay :
      (n : ℕ) (bus : MessageBus) (operations : List (Operation Double))
      → times n bus.bundle_handlers ≡ 0
      → All (IsElsewhere n) operations
      → heard (bundle_to n) (run bus (Operation.subscribe_bundle (some n) ∷ operations)).1
        ≡ push bus.retained_bundle (published bundles_of operations)
  unfolding run
  subscribe_bundle-replay n bus operations fresh elsewhere =
      let after = (step {Double = Double} bus (Operation.subscribe_bundle (some n))).0 in
      heard-append (bundle_to n) (replay (some n) bus.retained_bundle) (run after operations).1
      ∙ ap (λ ms. ms ++ heard (bundle_to n) (run after operations).1)
          (heard-replay_own Double n bus.retained_bundle)
      ∙ push-append bus.retained_bundle (heard (bundle_to n) (run after operations).1)
      ∙ ap (push bus.retained_bundle) (
          run-bundles n after operations
            (omega (arith, times-append n bus.bundle_handlers (some n), fresh, is_handler_own n))
            elsewhere)

  -- A callback that is not among the command handlers, once subscribed, hears exactly the commands
  -- that are published later, in their order and once each, and none from before.
  pub subscribe_script_command-volatile :
      (n : ℕ) (bus : MessageBus) (operations : List (Operation Double))
      → times n bus.script_command_handlers ≡ 0
      → All (IsElsewhere n) operations
      → heard (command_to n) (run bus (Operation.subscribe_script_command (some n) ∷ operations)).1
        ≡ published commands_of operations
  unfolding run
  subscribe_script_command-volatile n bus operations fresh elsewhere =
      run-commands n (step {Double = Double} bus (Operation.subscribe_script_command (some n))).0
        operations
        (omega
          (arith, times-append n bus.script_command_handlers (some n), fresh, is_handler_own n))
        elsewhere
