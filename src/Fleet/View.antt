-- ===== src/Fleet/View.antt =====
-- The list as a whole: its order, its completeness and its counts.
use mathlib.Core.List.{Perm}
use lab_monitor.Base.{
  ℕ, ◌+◌, ◌≡◌, refl, ap, ◌∙◌, ◌||◌, arith, Bool, true, false, Option, none, some, List, [], ◌∷◌,
  ◌++◌, ◌==◌, if◌then◌else◌, length, count_if, count_if-append, All, Text, text_ltb, str_eq,
  str_eq_iff, member, Bool-cases, inl, inr,
}
use lab_monitor.Base.Strings.{text_ltb_asymm, text_ltb_trans, text_ltb_connex, text_ltb_irrefl}
use lab_monitor.Base.OrderedMap
use lab_monitor.Base.OrderedMap.{Map}
use lab_monitor.Base.Sorting.{sort, sort-perm, sort-IsSorted, IsSorted, count_if-sort}
use lab_monitor.Registry.{DiscoveredClient}
use lab_monitor.Fleet.Latest.{newest, find-collapse}
use lab_monitor.Fleet.{
  HostState, ExpectedHost, FleetEntry, FleetCounts, ReconcileOptions, collapse, expected_entry,
  expected_entries, unexpected_entry, unexpected_entries, newer, before, count_entries, all_entries,
  reconcile, host_ids, no_counts, count_state, count_stale,
}

before_asymm : (a b : FleetEntry) → before a b ≡ true → before b a ≡ false
unfolding before
before_asymm a b h = ground (arith, text_ltb_asymm a.host_id b.host_id)

not_text_ltb_trans :
    (s t u : Text) → text_ltb t s ≡ false → text_ltb u t ≡ false → text_ltb u s ≡ false
not_text_ltb_trans s t u h k = ground (
  arith,
  text_ltb_connex t s,
  text_ltb_connex u t,
  str_eq_iff t s,
  str_eq_iff u t,
  text_ltb_trans s t u,
  text_ltb_asymm s u,
)

before_trans : (a b c : FleetEntry) → before b a ≡ false → before c b ≡ false → before c a ≡ false
unfolding before
before_trans a b c h k = ground (arith, not_text_ltb_trans a.host_id b.host_id c.host_id)

-- The view holds the entries of all expected hosts and of all discovered hosts that are not expected,
-- and they stand most urgent first, and by host id among equally urgent ones.
pub reconcile-IsSorted :
    (expected : List ExpectedHost) (discovered : List DiscoveredClient) (now : ℕ)
    (options : ReconcileOptions)
    → Perm
        (reconcile expected discovered now options).entries
        (all_entries expected discovered now options)
      × IsSorted before (reconcile expected discovered now options).entries
unfolding reconcile
reconcile-IsSorted expected discovered now options =
    let entries = all_entries expected discovered now options in
    (sort-perm before entries, sort-IsSorted before before_asymm before_trans entries)

abbrev state_number : HostState → ℕ
state_number HostState.missing = 0
state_number HostState.offline = 1
state_number HostState.unexpected = 2
state_number HostState.paused = 3
state_number HostState.online = 4

-- How many entries are in a state.
abbrev pub in_state : HostState → List FleetEntry → ℕ
in_state s entries = count_if (λ (e : FleetEntry). state_number e.state == state_number s) entries

abbrev Counted : FleetCounts → FleetCounts → List FleetEntry → Type 0
Counted start counts entries =
    (counts.online ≡ start.online + in_state HostState.online entries)
    × (counts.offline ≡ start.offline + in_state HostState.offline entries)
    × (counts.missing ≡ start.missing + in_state HostState.missing entries)
    × (counts.unexpected ≡ start.unexpected + in_state HostState.unexpected entries)
    × (counts.paused ≡ start.paused + in_state HostState.paused entries)
    × (counts.stale ≡ start.stale + count_if (λ (e : FleetEntry). e.stale) entries)

count_one :
    (e : FleetEntry) (entries : List FleetEntry) (start counts : FleetCounts)
    → Counted (count_stale e.stale (count_state e.state start)) counts entries
    → Counted start counts (e ∷ entries)
unfolding count_if
count_one e entries start counts h = ground arith

count_entries-Counted :
    (entries : List FleetEntry) (start : FleetCounts)
    → Counted start (count_entries start entries) entries
unfolding count_entries count_if
count_entries-Counted [] start = omega arith
count_entries-Counted (e ∷ entries) start =
    count_one e entries start
      (count_entries (count_stale e.stale (count_state e.state start)) entries)
      (count_entries-Counted entries (count_stale e.stale (count_state e.state start)))

states_sum :
    (entries : List FleetEntry)
    → in_state HostState.online entries
        + in_state HostState.offline entries
        + in_state HostState.missing entries
        + in_state HostState.unexpected entries
        + in_state HostState.paused entries
      ≡ length entries
unfolding count_if
states_sum [] = refl
states_sum (e ∷ entries) = ground (arith, states_sum entries)

-- Each count is the number of shown entries in that state, the stale count that of the stale entries,
-- and the five states together count every entry once.
pub reconcile-counts :
    (expected : List ExpectedHost) (discovered : List DiscoveredClient) (now : ℕ)
    (options : ReconcileOptions)
    → let view = reconcile expected discovered now options in
      (view.counts.online ≡ in_state HostState.online view.entries)
      × (view.counts.offline ≡ in_state HostState.offline view.entries)
      × (view.counts.missing ≡ in_state HostState.missing view.entries)
      × (view.counts.unexpected ≡ in_state HostState.unexpected view.entries)
      × (view.counts.paused ≡ in_state HostState.paused view.entries)
      × (view.counts.stale ≡ count_if (λ (e : FleetEntry). e.stale) view.entries)
      × (view.counts.online + view.counts.offline + view.counts.missing + view.counts.unexpected
            + view.counts.paused
          ≡ length view.entries)
unfolding reconcile
reconcile-counts expected discovered now options =
    let entries = sort before (all_entries expected discovered now options) in
    omega (arith, count_entries-Counted entries no_counts, states_sum entries)

abbrev names : Text → FleetEntry → Bool
names x entry = str_eq entry.host_id x

abbrev pub names_host : Text → ExpectedHost → Bool
names_host x host = str_eq host.host_id x

-- How many entries a host has.
abbrev pub entries_of : Text → List FleetEntry → ℕ
entries_of x entries = count_if (names x) entries

abbrev pub one_if_some : Option DiscoveredClient → ℕ
one_if_some none = 0
one_if_some (some c) = 1

host_id-expected_entry :
    (now : ℕ) (options : ReconcileOptions) (host : ExpectedHost) (o : Option DiscoveredClient)
    → (expected_entry now options host o).host_id ≡ host.host_id
unfolding expected_entry
host_id-expected_entry now options host none = refl
host_id-expected_entry now options host (some c) = refl

count-expected :
    (x : Text) (now : ℕ) (options : ReconcileOptions) (latest : Map DiscoveredClient)
    (expected : List ExpectedHost)
    → entries_of x (expected_entries now options latest expected) ≡ count_if (names_host x) expected
unfolding count_if expected_entries
count-expected x now options latest [] = refl
count-expected x now options latest (host ∷ expected) = rw (
  host_id-expected_entry now options host (OrderedMap.find host.host_id latest),
  count-expected x now options latest expected,
)

not_expected :
    (x : Text) (expected : List ExpectedHost)
    → member x (host_ids expected) ≡ false
    → count_if (names_host x) expected ≡ 0
unfolding count_if member
not_expected x [] h = refl
not_expected x (host ∷ expected) h =
    ground (arith, not_expected x expected, str_eq_iff host.host_id x, str_eq_iff x host.host_id)

find_above :
    (j : Text) (m : Map DiscoveredClient)
    → All (λ (p : Text × DiscoveredClient). text_ltb j p.0 ≡ true) m
    → OrderedMap.find j m ≡ none
unfolding OrderedMap.find
find_above j [] a = refl
find_above j ((k, c) ∷ m) a = ground (arith, find_above j m a.1, str_eq_iff j k, text_ltb_irrefl j)

count-unexpected :
    (x : Text) (options : ReconcileOptions) (expected_ids : List Text) (m : Map DiscoveredClient)
    → OrderedMap.IsOrdered m
    → entries_of x (unexpected_entries options expected_ids m)
      ≡ (if member x expected_ids then 0 else one_if_some (OrderedMap.find x m))
unfolding count_if unexpected_entries unexpected_entry OrderedMap.find
count-unexpected x options expected_ids [] o = ground arith
count-unexpected x options expected_ids ((k, c) ∷ m) o = elim (Bool-cases (str_eq x k)) [
  | inl e ↦
      let same : x ≡ k = (str_eq_iff x k).0 e in
      ground (
        arith,
        same,
        find_above k m o.0,
        count-unexpected x options expected_ids m o.1,
        str_eq_iff k x,
      )
  | inr e ↦
      ground
        (arith, e, count-unexpected x options expected_ids m o.1, str_eq_iff k x, str_eq_iff x k)
]

collapse-IsOrdered :
    (discovered : List DiscoveredClient) (m : Map DiscoveredClient)
    → OrderedMap.IsOrdered m
    → OrderedMap.IsOrdered (collapse m discovered)
unfolding collapse
collapse-IsOrdered [] m o = o
collapse-IsOrdered (c ∷ discovered) m o =
    elim (Bool-cases (newer c (OrderedMap.find c.host_id m))) [
      | inl n ↦ rw n (
          collapse-IsOrdered discovered (OrderedMap.insert_or_assign c.host_id c m)
            (OrderedMap.insert-IsOrdered c.host_id c m o))
      | inr n ↦ rw n (collapse-IsOrdered discovered m o)
    ]

-- A sighting is of the host.
unfoldable pub is_seen : Text → List DiscoveredClient → Bool
is_seen x [] = false
is_seen x (c ∷ discovered) = str_eq c.host_id x || is_seen x discovered

-- The latest sighting is there once the host is seen.
newest_seen :
    (x : Text) (best : Option DiscoveredClient) (discovered : List DiscoveredClient)
    → one_if_some (newest x best discovered)
      ≡ (if is_seen x discovered then 1 else one_if_some best)
unfolding newest is_seen
newest_seen x none [] = refl
newest_seen x (some b) [] = refl
newest_seen x none (c ∷ cs) = elim (Bool-cases (str_eq c.host_id x)) [
  | inl e ↦ rw e (newest_seen x (some c) cs ∙ ground arith)
  | inr e ↦ rw e (newest_seen x none cs)
]
newest_seen x (some b) (c ∷ cs) = elim (Bool-cases (str_eq c.host_id x)) [
  | inl e ↦ elim (Bool-cases (newer c (some b))) [
    | inl n ↦ rw (e, n) (newest_seen x (some c) cs ∙ ground arith)
    | inr n ↦ rw (e, n) (newest_seen x (some b) cs ∙ ground arith)
  ]
  | inr e ↦ rw e (newest_seen x (some b) cs)
]

-- An expected host has as many entries as it is expected times, whether it was seen or not; a host
-- that is not expected has one entry if it was discovered, however often, and none otherwise.
pub entries_of-reconcile :
    (x : Text) (expected : List ExpectedHost) (discovered : List DiscoveredClient) (now : ℕ)
    (options : ReconcileOptions)
    → entries_of x (reconcile expected discovered now options).entries ≡ (
        if member x (host_ids expected)
        then count_if (names_host x) expected
        else if is_seen x discovered
        then 1
        else 0)
unfolding reconcile
entries_of-reconcile x expected discovered now options =
    let latest = collapse [] discovered in
    let shown = expected_entries now options latest expected in
    let others = unexpected_entries options (host_ids expected) latest in
    count_if-sort before (names x) (shown ++ others)
    ∙ count_if-append (names x) shown others
    ∙ ground (
      arith,
      count-expected x now options latest expected,
      count-unexpected x options (host_ids expected) latest (collapse-IsOrdered discovered [] tt),
      not_expected x expected,
      ap one_if_some (find-collapse x [] discovered),
      newest_seen x none discovered,
      none_found,
    )
  where
    none_found : ◌≡◌ {A = Option DiscoveredClient} (OrderedMap.find x []) none
    none_found = unfold OrderedMap.find in refl
