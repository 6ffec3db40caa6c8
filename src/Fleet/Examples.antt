-- ===== src/Fleet/Examples.antt =====
-- Runs of the fleet's view, and the theorems on it at three hosts.
use lab_monitor.Base.{
  ◌≡◌, ◌≢◌, ◌↔◌, refl, ℕ, ◌+◌, ◌≤◌, Bool, true, false, Option, none, some, List, [], ◌∷◌, map,
  length, count_if, member, if◌then◌else◌, Text, text,
}
use lab_monitor.Base.OrderedMap
use lab_monitor.Base.Sorting.{IsSorted}
use lab_monitor.Types.{no_capabilities}
use lab_monitor.Registry.{DiscoveredClient}
use lab_monitor.Fleet.{
  HostState, ExpectedHost, FleetEntry, ReconcileOptions, collapse, host_ids, reconcile,
}
use lab_monitor.Fleet.Latest.{IsNewest, IsIn, collapse-IsNewest}
use lab_monitor.Fleet.View.{
  in_state, entries_of, names_host, is_seen, reconcile-counts, entries_of-reconcile,
}

abbrev sighting : Text → ℕ → Bool → DiscoveredClient
sighting host_id last_seen paused = record {
  host_id = host_id;
  last_seen = last_seen;
  caps = no_capabilities;
  applied_revision = 4;
  paused = paused;
}

abbrev expected_hosts : List ExpectedHost
expected_hosts =
    record { host_id = text "pc-1"; address = text "10.0.0.1" }
    ∷ record { host_id = text "pc-2"; address = text "10.0.0.2" }
    ∷ []

abbrev sightings : List DiscoveredClient
sightings =
    sighting (text "pc-2") 100 false
    ∷ sighting (text "guest") 118 true
    ∷ sighting (text "pc-2") 115 false
    ∷ []

abbrev lease : ReconcileOptions
lease = record { liveliness_lease = 10; current_revision = 5 }

states_run :
    map (λ (e : FleetEntry). e.state) (reconcile expected_hosts sightings 120 lease).entries
    ≡ HostState.missing ∷ HostState.unexpected ∷ HostState.online ∷ []
unfolding reconcile lab_monitor.Base.Sorting.sort OrderedMap.find OrderedMap.insert_or_assign
    lab_monitor.Base.str_eq text lab_monitor.Base.text_ltb member
states_run = refl

collapse-IsNewest_example :
    IsNewest (text "pc-2") (OrderedMap.find (text "pc-2") (collapse [] sightings)) sightings
    × ((c : DiscoveredClient)
        → OrderedMap.find (text "pc-2") (collapse [] sightings) ≡ some c
        → IsIn c sightings)
collapse-IsNewest_example = collapse-IsNewest (text "pc-2") sightings

reconcile-counts_example :
    let view = reconcile expected_hosts sightings 120 lease in
    (view.counts.online ≡ in_state HostState.online view.entries)
    × (view.counts.offline ≡ in_state HostState.offline view.entries)
    × (view.counts.missing ≡ in_state HostState.missing view.entries)
    × (view.counts.unexpected ≡ in_state HostState.unexpected view.entries)
    × (view.counts.paused ≡ in_state HostState.paused view.entries)
    × (view.counts.stale ≡ count_if (λ (e : FleetEntry). e.stale) view.entries)
    × (view.counts.online + view.counts.offline + view.counts.missing + view.counts.unexpected
          + view.counts.paused
        ≡ length view.entries)
reconcile-counts_example = reconcile-counts expected_hosts sightings 120 lease

entries_of-reconcile_example :
    entries_of (text "guest") (reconcile expected_hosts sightings 120 lease).entries ≡ (
      if member (text "guest") (host_ids expected_hosts)
      then count_if (names_host (text "guest")) expected_hosts
      else if is_seen (text "guest") sightings
      then 1
      else 0)
entries_of-reconcile_example =
    entries_of-reconcile (text "guest") expected_hosts sightings 120 lease
