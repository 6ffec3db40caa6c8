-- ===== src/Types.antt =====
-- libs/core/include/lm/core/types.hpp and libs/core/src/types.cpp: the enumerations of the core,
-- the capability set of a client, and the texts in which they are shown.
pub mod CapabilitySet
mod Examples
use Prim.Native.Nat.{bit_and, bit_or}
use lab_monitor.Base.{
  ℕ, ◌^◌, Bool, true, false, not, ℤ, leb_ℤ, eqb_ℤ, ◌==◌, if◌then◌else◌, Text, text,
}

pub data RuleKind : Type 0 where
  process service registry network dds : RuleKind

pub data Comparison : Type 0 where
  at_least exactly at_most : Comparison

pub data DdsMatch : Type 0 where
  equals contains at_least at_most : DdsMatch

pub data Presence : Type 0 where
  must_be_present must_be_absent : Presence

pub data CheckStatus : Type 0 where
  pass fail not_applicable error : CheckStatus

pub data ServiceState : Type 0 where
  running stopped unknown : ServiceState

pub data AdapterType : Type 0 where
  unknown ethernet wi_fi loopback ppp tunnel modem other : AdapterType

pub data LinkState : Type 0 where
  unknown connected no_media disconnected connecting disabled faulted : LinkState

-- operator== of an enumeration compares the numbers of its values.
abbrev pub status_number : CheckStatus → ℕ
status_number CheckStatus.pass = 0
status_number CheckStatus.fail = 1
status_number CheckStatus.not_applicable = 2
status_number CheckStatus.error = 3

abbrev pub status_eq : CheckStatus → CheckStatus → Bool
status_eq a b = status_number a == status_number b

abbrev service_number : ServiceState → ℕ
service_number ServiceState.running = 0
service_number ServiceState.stopped = 1
service_number ServiceState.unknown = 2

abbrev pub service_eq : ServiceState → ServiceState → Bool
service_eq a b = service_number a == service_number b

abbrev pub link_number : LinkState → ℕ
link_number LinkState.unknown = 0
link_number LinkState.connected = 1
link_number LinkState.no_media = 2
link_number LinkState.disconnected = 3
link_number LinkState.connecting = 4
link_number LinkState.disabled = 5
link_number LinkState.faulted = 6

abbrev pub link_eq : LinkState → LinkState → Bool
link_eq a b = link_number a == link_number b

abbrev pub is_up : LinkState → Bool
is_up state = link_eq state LinkState.connected

pub data Capability : Type 0 where
  resources processes services registry network dds scripts elevated : Capability

-- The place of a capability's bit: its value is 1u << place.
abbrev pub place : Capability → ℕ
place Capability.resources = 0
place Capability.processes = 1
place Capability.services = 2
place Capability.registry = 3
place Capability.network = 4
place Capability.dds = 5
place Capability.scripts = 6
place Capability.elevated = 7

pub record Capabilities : Type 0 where
  pub raw : ℕ

abbrev pub no_capabilities : Capabilities
no_capabilities = record { raw = 0 }

unfoldable pub add : Capabilities → Capability → Capabilities
add caps c = record { raw = bit_or caps.raw (2 ^ place c) }

unfoldable pub has : Capabilities → Capability → Bool
has caps c = not (bit_and caps.raw (2 ^ place c) == 0)

unfoldable pub capability_to_string : Capability → Text
capability_to_string Capability.resources = text "Resources"
capability_to_string Capability.processes = text "Processes"
capability_to_string Capability.services = text "Services"
capability_to_string Capability.registry = text "Registry"
capability_to_string Capability.network = text "Network"
capability_to_string Capability.dds = text "DDS"
capability_to_string Capability.scripts = text "Scripts"
capability_to_string Capability.elevated = text "Elevated"

unfoldable pub adapter_type_to_string : AdapterType → Text
adapter_type_to_string AdapterType.unknown = text "Unknown"
adapter_type_to_string AdapterType.ethernet = text "Ethernet"
adapter_type_to_string AdapterType.wi_fi = text "Wi-Fi"
adapter_type_to_string AdapterType.loopback = text "Loopback"
adapter_type_to_string AdapterType.ppp = text "PPP"
adapter_type_to_string AdapterType.tunnel = text "Tunnel"
adapter_type_to_string AdapterType.modem = text "Modem"
adapter_type_to_string AdapterType.other = text "Other"

unfoldable pub link_state_to_string : LinkState → Text
link_state_to_string LinkState.unknown = text "Unknown"
link_state_to_string LinkState.connected = text "Up"
link_state_to_string LinkState.no_media = text "No link"
link_state_to_string LinkState.disconnected = text "Disconnected"
link_state_to_string LinkState.connecting = text "Connecting"
link_state_to_string LinkState.disabled = text "Disabled"
link_state_to_string LinkState.faulted = text "Faulted"

unfoldable pub comparison_to_string : Comparison → Text
comparison_to_string Comparison.at_least = text "at least"
comparison_to_string Comparison.exactly = text "exactly"
comparison_to_string Comparison.at_most = text "at most"

unfoldable pub dds_match_to_string : DdsMatch → Text
dds_match_to_string DdsMatch.equals = text "equal to"
dds_match_to_string DdsMatch.contains = text "containing"
dds_match_to_string DdsMatch.at_least = text "at least"
dds_match_to_string DdsMatch.at_most = text "at most"

-- satisfies(int, Comparison, int).
unfoldable pub satisfies_count : ℤ → Comparison → ℤ → Bool
satisfies_count observed Comparison.at_least expected = leb_ℤ expected observed
satisfies_count observed Comparison.exactly expected = eqb_ℤ observed expected
satisfies_count observed Comparison.at_most expected = leb_ℤ observed expected

-- The parameter says whether the build is for Windows, the source's `#ifdef _WIN32`.
unfoldable pub platform_capabilities : Bool → Capabilities
unfolding add
platform_capabilities windows =
    let caps =
      add (add (add no_capabilities Capability.resources) Capability.processes)
        Capability.services in
    if windows then add (add caps Capability.registry) Capability.network else caps

unfoldable pub required_capability : RuleKind → Capability
required_capability RuleKind.process = Capability.processes
required_capability RuleKind.service = Capability.services
required_capability RuleKind.registry = Capability.registry
required_capability RuleKind.network = Capability.network
required_capability RuleKind.dds = Capability.dds
