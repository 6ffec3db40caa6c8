-- ===== src/Bus/Examples.antt =====
-- Runs of the bus, and the theorems on it with one callback that comes late.
use lab_monitor.Base.{ℕ, ◌≡◌, refl, some, List, [], ◌∷◌}
use lab_monitor.Bus.{TemplateBundleMessage, ScriptCommand, MessageBus, Operation, new_bus, run}
use lab_monitor.Bus.Delivery.{
  heard, push, bundle_to, command_to, bundles_of, commands_of, published, subscribe_bundle-replay,
  subscribe_script_command-volatile,
}

abbrev bundle : ℕ → TemplateBundleMessage
bundle revision = record { revision = revision; hash = []; json = [] }

abbrev command : ScriptCommand
command = record {
  host_id = [];
  run_id = [];
  script_name = [];
  script_body = [];
  timeout_seconds = 120;
}

-- Before the callback subscribes, a bundle and a command have been published.
abbrev used_bus : MessageBus
used_bus = record new_bus { retained_bundle = some (bundle 1) }

abbrev later : List (Operation ℕ)
later =
    Operation.publish_bundle (bundle 2)
    ∷ Operation.subscribe_bundle (some 8)
    ∷ Operation.publish_script_command command
    ∷ []

retained_run :
    (run {Double = ℕ} new_bus
      (Operation.publish_bundle (bundle 1) ∷ Operation.publish_script_command command ∷ [])).0
    ≡ used_bus
unfolding run
retained_run = refl

subscribe_bundle-replay_example :
    heard (bundle_to 7) (run used_bus (Operation.subscribe_bundle (some 7) ∷ later)).1
    ≡ push used_bus.retained_bundle (published bundles_of later)
subscribe_bundle-replay_example =
    subscribe_bundle-replay 7 used_bus later refl (tt, (refl, (tt, tt)))

subscribe_script_command-volatile_example :
    heard (command_to 7) (run used_bus (Operation.subscribe_script_command (some 7) ∷ later)).1
    ≡ published commands_of later
subscribe_script_command-volatile_example =
    subscribe_script_command-volatile 7 used_bus later refl (tt, (refl, (tt, tt)))
