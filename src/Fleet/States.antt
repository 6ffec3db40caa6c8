-- ===== src/Fleet/States.antt =====
-- Which state an expected host is shown in.
use lab_monitor.Base.{ℕ, ◌+◌, ◌≤◌, ◌≡◌, ◌≢◌, ◌↔◌, refl, arith, true, false, Option, none, some}
use lab_monitor.Registry.{DiscoveredClient}
use lab_monitor.Fleet.{HostState, ExpectedHost, ReconcileOptions, within_lease, expected_entry}

-- A sighting is current exactly when the lease reaches from it to now; one from the future is.
pub within_lease_iff :
    (now : ℕ) (options : ReconcileOptions) (last_seen : ℕ)
    → (within_lease now options last_seen ≡ true) ↔ (now ≤ last_seen + options.liveliness_lease)
unfolding within_lease
within_lease_iff now options last_seen = ground arith

-- An expected host is missing exactly when it was never seen, offline exactly when its sighting is
-- out of the lease, whatever it said of a pause, paused exactly when the sighting is current and says
-- so, online exactly when it is current and does not, and it is never unexpected.
pub expected_entry-state :
    (now : ℕ) (options : ReconcileOptions) (host : ExpectedHost) (seen : Option DiscoveredClient)
    → let state = (expected_entry now options host seen).state in
      ((state ≡ HostState.missing) ↔ (seen ≡ none))
      × ((state ≡ HostState.offline) ↔ (
          (c : DiscoveredClient) × (seen ≡ some c)
          × (within_lease now options c.last_seen ≡ false)))
      × ((state ≡ HostState.paused) ↔ (
          (c : DiscoveredClient) × (seen ≡ some c)
          × (within_lease now options c.last_seen ≡ true)
          × (c.paused ≡ true)))
      × ((state ≡ HostState.online) ↔ (
          (c : DiscoveredClient) × (seen ≡ some c)
          × (within_lease now options c.last_seen ≡ true)
          × (c.paused ≡ false)))
      × (state ≢ HostState.unexpected)
unfolding expected_entry
expected_entry-state now options host none = ground arith
expected_entry-state now options host (some c) = (
  (λ e. ground arith, λ e. cc),
  (λ e. (c, refl, ground arith), λ (d, e, f). ground arith),
  (λ e. (c, refl, ground arith, ground arith), λ (d, e, f, g). ground arith),
  (λ e. (c, refl, ground arith, ground arith), λ (d, e, f, g). ground arith),
  λ e. ground arith,
)
