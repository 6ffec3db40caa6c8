-- ===== src/Registry/Validity.antt =====
-- The well-formed registries of libs/core/src/client_registry.cpp, and the order of the snapshot.
use lab_monitor.Base.{
  ℕ, ◌≡◌, refl, arith, true, Option, none, some, Option-cases, List, [], ◌∷◌, Text, text_ltb, All,
  inl, inr, ◌∙◌,
}
use lab_monitor.Base.OrderedMap
use lab_monitor.Base.OrderedMap.{Map}
use lab_monitor.Registry.{
  DiscoveredClient, ClientRegistry, touched, touch, update, record_announce, record_sample,
  record_report, mark_lost, snapshot,
}
use lab_monitor.Registry.History.{Heard, apply, apply_all}

-- An entry stands under its own host id.
abbrev pub IsKeyed : Text × DiscoveredClient → Type 0
IsKeyed (k, c) = c.host_id ≡ k

-- The keys rise, and every entry stands under its own host id.
pub record IsValid (clients : ClientRegistry) : Type 0 where
  pub ordered : OrderedMap.IsOrdered clients
  pub keyed : All IsKeyed clients

insert-IsValid :
    (clients : ClientRegistry) (h : Text) (c : DiscoveredClient)
    → c.host_id ≡ h
    → IsValid clients
    → IsValid (OrderedMap.insert_or_assign h c clients)
insert-IsValid clients h c e v = record {
  ordered = OrderedMap.insert-IsOrdered h c clients v.ordered;
  keyed = OrderedMap.insert-All IsKeyed h c clients e v.keyed;
}

touched-IsKeyed :
    (h : Text) (t : ℕ) (o : Option DiscoveredClient)
    → ((c : DiscoveredClient) → o ≡ some c → c.host_id ≡ h)
    → (touched h t o).host_id ≡ h
touched-IsKeyed h t none k = refl
touched-IsKeyed h t (some c) k = ground (arith, k c refl)

touch-IsValid :
    (clients : ClientRegistry) (h : Text) (t : ℕ) → IsValid clients → IsValid (touch clients h t)
unfolding touch
touch-IsValid clients h t v =
    insert-IsValid clients h (touched h t (OrderedMap.find h clients))
      (touched-IsKeyed h t (OrderedMap.find h clients)
        (λ c e. OrderedMap.find-All IsKeyed h clients c v.keyed e))
      v

update-IsValid :
    (clients : ClientRegistry) (h : Text) (f : DiscoveredClient → DiscoveredClient)
    → ((c : DiscoveredClient) → (f c).host_id ≡ c.host_id)
    → IsValid clients
    → IsValid (update clients h f)
unfolding update
update-IsValid clients h f k v = elim (Option-cases (OrderedMap.find h clients)) [
  | inl e ↦ rw e v
  | inr (c, e) ↦
      rw e
        (insert-IsValid clients h (f c) (k c ∙ OrderedMap.find-All IsKeyed h clients c v.keyed e) v)
]

-- Every call of the registry keeps it well formed.
pub apply-IsValid :
    (clients : ClientRegistry) (message : Heard) → IsValid clients → IsValid (apply clients message)
unfolding apply record_announce record_sample record_report mark_lost
apply-IsValid clients (Heard.announce h caps paused t) v =
    update-IsValid (touch clients h t) h (λ c. record c { caps = caps; paused = paused })
      (λ c. refl) (touch-IsValid clients h t v)
apply-IsValid clients (Heard.sample h t) v = touch-IsValid clients h t v
apply-IsValid clients (Heard.report h revision t) v =
    update-IsValid (touch clients h t) h (λ c. record c { applied_revision = revision }) (λ c. refl)
      (touch-IsValid clients h t v)
apply-IsValid clients (Heard.lost h) v = record {
  ordered = OrderedMap.erase-IsOrdered h clients v.ordered;
  keyed = OrderedMap.erase-All IsKeyed h clients v.keyed;
}

apply_all-IsValid :
    (clients : ClientRegistry) (messages : List Heard)
    → IsValid clients
    → IsValid (apply_all clients messages)
unfolding apply_all
apply_all-IsValid clients [] v = v
apply_all-IsValid clients (m ∷ ms) v =
    apply_all-IsValid (apply clients m) ms (apply-IsValid clients m v)

-- The host ids of the clients rise strictly, so that no host stands there twice.
abbrev pub AreRising : List DiscoveredClient → Type 0
AreRising [] = Unit
AreRising (c ∷ cs) = All (λ d. text_ltb c.host_id d.host_id ≡ true) cs × AreRising cs

values-above :
    (k : Text) (clients : ClientRegistry)
    → All (λ (p : Text × DiscoveredClient). text_ltb k p.0 ≡ true) clients
    → All IsKeyed clients
    → All (λ d. text_ltb k d.host_id ≡ true) (OrderedMap.values clients)
unfolding OrderedMap.values
values-above k [] a b = tt
values-above k ((j, c) ∷ m) a b = (rw b.0 a.0, values-above k m a.1 b.1)

values-AreRising :
    (clients : ClientRegistry)
    → OrderedMap.IsOrdered clients
    → All IsKeyed clients
    → AreRising (OrderedMap.values clients)
unfolding OrderedMap.values
values-AreRising [] o k = tt
values-AreRising ((j, c) ∷ m) o k = (rw k.0 (values-above j m o.0 k.1), values-AreRising m o.1 k.1)

-- From the empty registry, after any calls, the snapshot is in strictly rising order of host ids.
pub snapshot-AreRising : (messages : List Heard) → AreRising (snapshot (apply_all [] messages))
unfolding snapshot
snapshot-AreRising messages =
    let v = apply_all-IsValid [] messages (record { ordered = tt; keyed = tt }) in
    values-AreRising (apply_all [] messages) v.ordered v.keyed
