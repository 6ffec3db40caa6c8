-- ===== src/Bus.antt =====
-- libs/transport/src/in_memory_transport.cpp and the messages of
-- libs/transport/include/lm/transport/messages.hpp: the bus in one process. A handler is the number
-- of a callback, or none for an empty std::function; an operation gives the calls that it makes, in
-- their order. Callbacks that use the bus from inside a call are not modelled.
pub mod Delivery
mod Examples
use lab_monitor.Base.{ℕ, Bool, Option, none, some, List, [], ◌∷◌, ◌++◌, Text}
use lab_monitor.Facts.{ResourceSample}
use lab_monitor.Compliance.{ComplianceReport}
use lab_monitor.Dispatch.{ScriptResultMessage}

pub record ClientAnnounce : Type 0 where
  pub host_id : Text
  pub agent_version : Text
  pub capabilities : ℕ
  pub paused : Bool

pub record ResourceSampleMessage (Double : Type 0) : Type 0 where
  pub host_id : Text
  pub sample : ResourceSample Double

pub record TemplateBundleMessage : Type 0 where
  pub revision : ℕ
  pub hash : Text
  pub json : Text

pub record ComplianceReportMessage : Type 0 where
  pub report : ComplianceReport

pub record ScriptCommand : Type 0 where
  pub host_id : Text
  pub run_id : Text
  pub script_name : Text
  pub script_body : Text
  pub timeout_seconds : ℕ

-- One call of a callback.
pub data Call (Double : Type 0) : Type 0 where
  announced : ℕ → ClientAnnounce → Call Double
  sampled : ℕ → ResourceSampleMessage Double → Call Double
  reported : ℕ → ComplianceReportMessage → Call Double
  bundled : ℕ → TemplateBundleMessage → Call Double
  commanded : ℕ → ScriptCommand → Call Double
  answered : ℕ → ScriptResultMessage → Call Double

abbrev pub Handlers : Type 0
Handlers = List (Option ℕ)

pub record MessageBus : Type 0 where
  pub announce_handlers : Handlers
  pub resource_handlers : Handlers
  pub report_handlers : Handlers
  pub bundle_handlers : Handlers
  pub script_command_handlers : Handlers
  pub script_result_handlers : Handlers
  pub retained_bundle : Option TemplateBundleMessage

abbrev pub new_bus : MessageBus
new_bus = record {
  announce_handlers = [];
  resource_handlers = [];
  report_handlers = [];
  bundle_handlers = [];
  script_command_handlers = [];
  script_result_handlers = [];
  retained_bundle = none;
}

-- The methods of the bus.
pub data Operation (Double : Type 0) : Type 0 where
  publish_announce : ClientAnnounce → Operation Double
  publish_resources : ResourceSampleMessage Double → Operation Double
  publish_report : ComplianceReportMessage → Operation Double
  publish_bundle : TemplateBundleMessage → Operation Double
  publish_script_command : ScriptCommand → Operation Double
  publish_script_result : ScriptResultMessage → Operation Double
  subscribe_announce : Option ℕ → Operation Double
  subscribe_resources : Option ℕ → Operation Double
  subscribe_report : Option ℕ → Operation Double
  subscribe_bundle : Option ℕ → Operation Double
  subscribe_script_command : Option ℕ → Operation Double
  subscribe_script_result : Option ℕ → Operation Double

module _ {Double : Type 0} where
  -- The handlers are those at the time of the call, and empty ones are skipped.
  unfoldable pub deliver :
      {Message : Type 0} → (ℕ → Message → Call Double) → Handlers → Message → List (Call Double)
  deliver call [] message = []
  deliver call (none ∷ handlers) message = deliver call handlers message
  deliver call (some handler ∷ handlers) message =
      call handler message ∷ deliver call handlers message

  abbrev pub replay : Option ℕ → Option TemplateBundleMessage → List (Call Double)
  replay (some handler) (some bundle) = Call.bundled handler bundle ∷ []
  replay _ _ = []

  unfoldable pub step : MessageBus → Operation Double → MessageBus × List (Call Double)
  unfolding deliver
  step bus (Operation.publish_announce m) = (bus, deliver Call.announced bus.announce_handlers m)
  step bus (Operation.publish_resources m) = (bus, deliver Call.sampled bus.resource_handlers m)
  step bus (Operation.publish_report m) = (bus, deliver Call.reported bus.report_handlers m)
  step bus (Operation.publish_bundle m) =
      (record bus { retained_bundle = some m }, deliver Call.bundled bus.bundle_handlers m)
  step bus (Operation.publish_script_command m) =
      (bus, deliver Call.commanded bus.script_command_handlers m)
  step bus (Operation.publish_script_result m) =
      (bus, deliver Call.answered bus.script_result_handlers m)
  step bus (Operation.subscribe_announce h) =
      (record bus { announce_handlers = bus.announce_handlers ++ h ∷ [] }, [])
  step bus (Operation.subscribe_resources h) =
      (record bus { resource_handlers = bus.resource_handlers ++ h ∷ [] }, [])
  step bus (Operation.subscribe_report h) =
      (record bus { report_handlers = bus.report_handlers ++ h ∷ [] }, [])
  step bus (Operation.subscribe_bundle h) =
      (record bus { bundle_handlers = bus.bundle_handlers ++ h ∷ [] }, replay h bus.retained_bundle)
  step bus (Operation.subscribe_script_command h) =
      (record bus { script_command_handlers = bus.script_command_handlers ++ h ∷ [] }, [])
  step bus (Operation.subscribe_script_result h) =
      (record bus { script_result_handlers = bus.script_result_handlers ++ h ∷ [] }, [])

  -- The bus behind a sequence of operations, and all the calls made.
  unfoldable pub run : MessageBus → List (Operation Double) → MessageBus × List (Call Double)
  unfolding step
  run bus [] = (bus, [])
  run bus (operation ∷ operations) =
      let (after, calls) = step bus operation in
      let (last, rest) = run after operations in (last, calls ++ rest)
