-- ===== src/Registry.antt =====
-- libs/core/src/client_registry.cpp: what the server has heard from its clients. A time point is a
-- number of clock ticks since the epoch.
pub mod History
pub mod Validity
mod Examples
use lab_monitor.Base.{ℕ, Bool, false, Option, none, some, List, ltb, if◌then◌else◌, Text}
use lab_monitor.Base.OrderedMap
use lab_monitor.Base.OrderedMap.{Map}
use lab_monitor.Types.{Capabilities, no_capabilities}

pub record DiscoveredClient : Type 0 where
  pub host_id : Text
  pub last_seen : ℕ
  pub caps : Capabilities
  pub applied_revision : ℕ
  pub paused : Bool

abbrev pub ClientRegistry : Type 0
ClientRegistry = Map DiscoveredClient

-- The client that `touch` leaves in the map: a new one, or the old one with its time advanced.
abbrev pub touched : Text → ℕ → Option DiscoveredClient → DiscoveredClient
touched host_id seen_at none = record {
  host_id = host_id;
  last_seen = seen_at;
  caps = no_capabilities;
  applied_revision = 0;
  paused = false;
}
touched host_id seen_at (some client) =
    if ltb client.last_seen seen_at then record client { last_seen = seen_at } else client

unfoldable pub touch : ClientRegistry → Text → ℕ → ClientRegistry
touch clients host_id seen_at =
    OrderedMap.insert_or_assign host_id (touched host_id seen_at (OrderedMap.find host_id clients))
      clients

abbrev assign :
    ClientRegistry
    → Text
    → (DiscoveredClient → DiscoveredClient)
    → Option DiscoveredClient
    → ClientRegistry
assign clients host_id f none = clients
assign clients host_id f (some client) = OrderedMap.insert_or_assign host_id (f client) clients

-- A write through the reference that `touch` returns.
unfoldable pub update :
    ClientRegistry → Text → (DiscoveredClient → DiscoveredClient) → ClientRegistry
update clients host_id f = assign clients host_id f (OrderedMap.find host_id clients)

unfoldable pub record_announce : ClientRegistry → Text → Capabilities → Bool → ℕ → ClientRegistry
unfolding touch update
record_announce clients host_id caps paused seen_at =
    update (touch clients host_id seen_at) host_id
      (λ client. record client { caps = caps; paused = paused })

unfoldable pub record_sample : ClientRegistry → Text → ℕ → ClientRegistry
unfolding touch
record_sample clients host_id seen_at = touch clients host_id seen_at

unfoldable pub record_report : ClientRegistry → Text → ℕ → ℕ → ClientRegistry
unfolding touch update
record_report clients host_id applied_revision seen_at =
    update (touch clients host_id seen_at) host_id
      (λ client. record client { applied_revision = applied_revision })

unfoldable pub mark_lost : ClientRegistry → Text → ClientRegistry
mark_lost clients host_id = OrderedMap.erase host_id clients

unfoldable pub snapshot : ClientRegistry → List DiscoveredClient
snapshot clients = OrderedMap.values clients
