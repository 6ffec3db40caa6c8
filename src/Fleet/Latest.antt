-- ===== src/Fleet/Latest.antt =====
-- The map of the latest sightings.
use lab_monitor.Base.{
  ◌≤◌, ◌≡◌, ◌⊎◌, refl, sym, ◌∙◌, ap, arith, true, false, Option, none, some, List, [], ◌∷◌,
  if◌then◌else◌, Text, str_eq, str_eq_iff, Bool-cases, inl, inr, All,
}
use lab_monitor.Base.OrderedMap
use lab_monitor.Base.OrderedMap.{Map}
use lab_monitor.Registry.{DiscoveredClient}
use lab_monitor.Fleet.{collapse, newer}

-- What the sightings say of one host: the first among its sightings with the latest time.
unfoldable pub newest :
    Text → Option DiscoveredClient → List DiscoveredClient → Option DiscoveredClient
newest h best [] = best
newest h best (client ∷ discovered) =
    newest h
      (if str_eq client.host_id h then (if newer client best then some client else best) else best)
      discovered

pub find-collapse :
    (h : Text) (latest : Map DiscoveredClient) (discovered : List DiscoveredClient)
    → OrderedMap.find h (collapse latest discovered)
      ≡ newest h (OrderedMap.find h latest) discovered
unfolding collapse newest
find-collapse h latest [] = refl
find-collapse h latest (c ∷ cs) = elim (Bool-cases (newer c (OrderedMap.find c.host_id latest))) [
  | inl n ↦ rw n (
      find-collapse h (OrderedMap.insert_or_assign c.host_id c latest) cs
      ∙ ap (λ best. newest h best cs)
          (OrderedMap.find-insert h c.host_id c latest ∙ ground (arith, str_eq_iff c.host_id h)))
  | inr n ↦ rw n (
      find-collapse h latest cs
      ∙ ap (λ best. newest h best cs) (ground (arith, str_eq_iff c.host_id h)))
]

-- The host's best sighting so far is one of host `h`, and not older than another sighting of it.
abbrev pub IsNewest : Text → Option DiscoveredClient → List DiscoveredClient → Type 0
IsNewest h none seen = All (λ (d : DiscoveredClient). str_eq d.host_id h ≡ false) seen
IsNewest h (some c) seen =
    (c.host_id ≡ h) × All (λ (d : DiscoveredClient). d.host_id ≡ h → d.last_seen ≤ c.last_seen) seen

abbrev IsOf : Text → Option DiscoveredClient → Type 0
IsOf h none = Unit
IsOf h (some c) = c.host_id ≡ h

abbrev AtLeast : Option DiscoveredClient → Option DiscoveredClient → Type 0
AtLeast none r = Unit
AtLeast (some b) none = ⊥
AtLeast (some b) (some c) = b.last_seen ≤ c.last_seen

AtLeast-trans : (a b c : Option DiscoveredClient) → AtLeast a b → AtLeast b c → AtLeast a c
AtLeast-trans none b c h k = tt
AtLeast-trans (some a) none c h k = absurd h
AtLeast-trans (some a) (some b) none h k = absurd k
AtLeast-trans (some a) (some b) (some c) h k = omega arith

AtLeast-refl : (a : Option DiscoveredClient) → AtLeast a a
AtLeast-refl none = tt
AtLeast-refl (some a) = omega arith

-- The best sighting behind one more.
abbrev better : Text → DiscoveredClient → Option DiscoveredClient → Option DiscoveredClient
better h c best = if str_eq c.host_id h then (if newer c best then some c else best) else best

better-AtLeast :
    (h : Text) (c : DiscoveredClient) (best : Option DiscoveredClient)
    → AtLeast best (better h c best)
better-AtLeast h c none = tt
better-AtLeast h c (some b) = ground arith

better-IsOf :
    (h : Text) (c : DiscoveredClient) (best : Option DiscoveredClient)
    → IsOf h best
    → IsOf h (better h c best)
better-IsOf h c none o = ground (arith, str_eq_iff c.host_id h)
better-IsOf h c (some b) o = ground (arith, str_eq_iff c.host_id h)

newest-AtLeast :
    (h : Text) (best : Option DiscoveredClient) (cs : List DiscoveredClient)
    → AtLeast best (newest h best cs)
unfolding newest
newest-AtLeast h best [] = AtLeast-refl best
newest-AtLeast h best (c ∷ cs) =
    AtLeast-trans best (better h c best) (newest h (better h c best) cs) (better-AtLeast h c best)
      (newest-AtLeast h (better h c best) cs)

newest-IsOf :
    (h : Text) (best : Option DiscoveredClient) (cs : List DiscoveredClient)
    → IsOf h best
    → IsOf h (newest h best cs)
unfolding newest
newest-IsOf h best [] o = o
newest-IsOf h best (c ∷ cs) o = newest-IsOf h (better h c best) cs (better-IsOf h c best o)

-- The sighting `c` is taken into account in the result.
abbrev Covers : Text → DiscoveredClient → Option DiscoveredClient → Type 0
Covers h c none = str_eq c.host_id h ≡ false
Covers h c (some r) = c.host_id ≡ h → c.last_seen ≤ r.last_seen

better-Covers :
    (h : Text) (c : DiscoveredClient) (best r : Option DiscoveredClient)
    → AtLeast (better h c best) r
    → Covers h c r
better-Covers h c none none a = ground arith
better-Covers h c none (some r) a = λ e. ground (arith, str_eq_iff c.host_id h)
better-Covers h c (some b) none a = ground arith
better-Covers h c (some b) (some r) a = λ e. ground (arith, str_eq_iff c.host_id h)

newest-Covers :
    (h : Text) (best : Option DiscoveredClient) (cs : List DiscoveredClient)
    → All (λ c. Covers h c (newest h best cs)) cs
unfolding newest
newest-Covers h best [] = tt
newest-Covers h best (c ∷ cs) = (
  better-Covers h c best (newest h (better h c best) cs) (newest-AtLeast h (better h c best) cs),
  newest-Covers h (better h c best) cs,
)

Covers→IsNewest :
    (h : Text) (r : Option DiscoveredClient) (cs : List DiscoveredClient)
    → IsOf h r
    → All (λ c. Covers h c r) cs
    → IsNewest h r cs
Covers→IsNewest h none cs o a = a
Covers→IsNewest h (some r) cs o a = (o, a)

-- The client is one of the list.
abbrev pub IsIn : DiscoveredClient → List DiscoveredClient → Type 0
IsIn c [] = ⊥
IsIn c (d ∷ ds) = (c ≡ d) ⊎ IsIn c ds

newest-IsIn :
    (h : Text) (best : Option DiscoveredClient) (cs : List DiscoveredClient) (c : DiscoveredClient)
    → newest h best cs ≡ some c
    → (best ≡ some c) ⊎ IsIn c cs
unfolding newest
newest-IsIn h best [] c e = inl e
newest-IsIn h best (d ∷ ds) c e = elim (newest-IsIn h (better h d best) ds c e) [
  | inl f ↦ from (Bool-cases (str_eq d.host_id h)) (Bool-cases (newer d best)) f
  | inr m ↦ inr (inr m)
]
  where
    from :
        (str_eq d.host_id h ≡ true) ⊎ (str_eq d.host_id h ≡ false)
        → (newer d best ≡ true) ⊎ (newer d best ≡ false)
        → better h d best ≡ some c
        → (best ≡ some c) ⊎ IsIn c (d ∷ ds)
    from (inl a) (inl b) f = inr (inl (ground arith))
    from (inl a) (inr b) f = inl (ground arith)
    from (inr a) b f = inl (ground arith)

-- Of several sightings of a host the collapsed map holds a latest one: if it has none, no sighting is
-- of that host, and the one that it has is of that host, is one of the sightings, and no sighting of
-- that host is later.
pub collapse-IsNewest :
    (h : Text) (discovered : List DiscoveredClient)
    → IsNewest h (OrderedMap.find h (collapse [] discovered)) discovered
      × ((c : DiscoveredClient)
          → OrderedMap.find h (collapse [] discovered) ≡ some c
          → IsIn c discovered)
unfolding OrderedMap.find
collapse-IsNewest h discovered =
    let r = newest h none discovered in
    let found = find-collapse h [] discovered in
    (
      rw found (
          Covers→IsNewest h r discovered (newest-IsOf h none discovered tt)
            (newest-Covers h none discovered)),
      λ c e. was_in c (newest-IsIn h none discovered c (sym found ∙ e)),
    )
  where
    was_in : (c : DiscoveredClient) → (none ≡ some c) ⊎ IsIn c discovered → IsIn c discovered
    was_in c (inl e) = cc
    was_in c (inr m) = m
