-- ===== src/Fleet.antt =====
-- libs/core/src/fleet.cpp: the expected hosts and the discovered clients, joined into one list for
-- the operator. Time points and the lease count the same clock ticks.
pub mod Latest
pub mod States
pub mod View
mod Examples
use lab_monitor.Base.{
  ℕ, ◌+◌, ◌-◌, Bool, true, false, not, ◌&&◌, Option, none, some, List, [], ◌∷◌, ◌++◌, map, ltb, leb,
  ◌==◌, if◌then◌else◌, Text, text, str_eq, text_ltb, member,
}
use lab_monitor.Base.OrderedMap
use lab_monitor.Base.OrderedMap.{Map}
use lab_monitor.Base.Sorting.{sort}
use lab_monitor.Types.{Capabilities, no_capabilities}
use lab_monitor.Registry.{DiscoveredClient}

pub data HostState : Type 0 where
  missing offline unexpected online paused : HostState

pub record ExpectedHost : Type 0 where
  pub host_id : Text
  pub address : Text

pub record FleetEntry : Type 0 where
  pub host_id : Text
  pub address : Text
  pub state : HostState
  pub last_seen : Option ℕ
  pub stale : Bool
  pub caps : Capabilities

pub record FleetCounts : Type 0 where
  pub online : ℕ
  pub offline : ℕ
  pub missing : ℕ
  pub unexpected : ℕ
  pub paused : ℕ
  pub stale : ℕ

pub record FleetView : Type 0 where
  pub entries : List FleetEntry
  pub counts : FleetCounts

pub record ReconcileOptions : Type 0 where
  pub liveliness_lease : ℕ
  pub current_revision : ℕ

abbrev pub urgency : HostState → ℕ
urgency HostState.missing = 0
urgency HostState.offline = 1
urgency HostState.unexpected = 2
urgency HostState.paused = 3
urgency HostState.online = 4

abbrev newer : DiscoveredClient → Option DiscoveredClient → Bool
newer client none = true
newer client (some existing) = ltb existing.last_seen client.last_seen

-- The loop that collapses duplicate sightings.
unfoldable pub collapse : Map DiscoveredClient → List DiscoveredClient → Map DiscoveredClient
collapse latest [] = latest
collapse latest (client ∷ discovered) =
    collapse
      (if newer client (OrderedMap.find client.host_id latest)
        then OrderedMap.insert_or_assign client.host_id client latest
        else latest)
      discovered

unfoldable pub within_lease : ℕ → ReconcileOptions → ℕ → Bool
within_lease now options last_seen =
    if leb now last_seen then true else leb (now - last_seen) options.liveliness_lease

abbrev pub state_of : ℕ → ReconcileOptions → DiscoveredClient → HostState
state_of now options client =
    if not (within_lease now options client.last_seen)
    then HostState.offline
    else if client.paused
    then HostState.paused
    else HostState.online

abbrev is_stale : ReconcileOptions → DiscoveredClient → Bool
is_stale options client = not (client.applied_revision == options.current_revision)

unfoldable pub expected_entry :
    ℕ → ReconcileOptions → ExpectedHost → Option DiscoveredClient → FleetEntry
unfolding within_lease
expected_entry now options host none = record {
  host_id = host.host_id;
  address = host.address;
  state = HostState.missing;
  last_seen = none;
  stale = false;
  caps = no_capabilities;
}
expected_entry now options host (some seen) = record {
  host_id = host.host_id;
  address = host.address;
  state = state_of now options seen;
  last_seen = some seen.last_seen;
  stale = is_stale options seen;
  caps = seen.caps;
}

unfoldable pub unexpected_entry : ReconcileOptions → Text → DiscoveredClient → FleetEntry
unexpected_entry options host_id client = record {
  host_id = host_id;
  address = [];
  state = HostState.unexpected;
  last_seen = some client.last_seen;
  stale = is_stale options client;
  caps = client.caps;
}

unfoldable pub expected_entries :
    ℕ → ReconcileOptions → Map DiscoveredClient → List ExpectedHost → List FleetEntry
unfolding expected_entry
expected_entries now options latest [] = []
expected_entries now options latest (host ∷ expected) =
    expected_entry now options host (OrderedMap.find host.host_id latest)
    ∷ expected_entries now options latest expected

unfoldable pub unexpected_entries :
    ReconcileOptions → List Text → Map DiscoveredClient → List FleetEntry
unfolding unexpected_entry
unexpected_entries options expected_ids [] = []
unexpected_entries options expected_ids ((host_id, client) ∷ latest) =
    let rest = unexpected_entries options expected_ids latest in
    if member host_id expected_ids then rest else unexpected_entry options host_id client ∷ rest

-- The comparison that the entries are sorted by.
unfoldable pub before : FleetEntry → FleetEntry → Bool
before a b =
    if not (urgency a.state == urgency b.state)
    then ltb (urgency a.state) (urgency b.state)
    else text_ltb a.host_id b.host_id

abbrev no_counts : FleetCounts
no_counts = record { online = 0; offline = 0; missing = 0; unexpected = 0; paused = 0; stale = 0 }

abbrev count_state : HostState → FleetCounts → FleetCounts
count_state HostState.online counts = record counts { online = counts.online + 1 }
count_state HostState.offline counts = record counts { offline = counts.offline + 1 }
count_state HostState.missing counts = record counts { missing = counts.missing + 1 }
count_state HostState.unexpected counts = record counts { unexpected = counts.unexpected + 1 }
count_state HostState.paused counts = record counts { paused = counts.paused + 1 }

abbrev count_stale : Bool → FleetCounts → FleetCounts
count_stale true counts = record counts { stale = counts.stale + 1 }
count_stale false counts = counts

unfoldable pub count_entries : FleetCounts → List FleetEntry → FleetCounts
count_entries counts [] = counts
count_entries counts (entry ∷ entries) =
    count_entries (count_stale entry.stale (count_state entry.state counts)) entries

abbrev pub host_ids : List ExpectedHost → List Text
host_ids expected = map (λ (h : ExpectedHost). h.host_id) expected

-- The entries before they are sorted.
unfoldable pub all_entries :
    List ExpectedHost → List DiscoveredClient → ℕ → ReconcileOptions → List FleetEntry
unfolding collapse expected_entries unexpected_entries
all_entries expected discovered now options =
    let latest = collapse [] discovered in
    expected_entries now options latest expected
    ++ unexpected_entries options (host_ids expected) latest

unfoldable pub reconcile :
    List ExpectedHost → List DiscoveredClient → ℕ → ReconcileOptions → FleetView
unfolding all_entries before count_entries
reconcile expected discovered now options =
    let entries = sort before (all_entries expected discovered now options) in
    record { entries = entries; counts = count_entries no_counts entries }

unfoldable pub host_state_to_string : HostState → Text
host_state_to_string HostState.online = text "Online"
host_state_to_string HostState.offline = text "Offline"
host_state_to_string HostState.missing = text "Missing"
host_state_to_string HostState.unexpected = text "Unexpected"
host_state_to_string HostState.paused = text "Paused"
