-- ===== src/Registry/History.antt =====
-- The registry of libs/core/src/client_registry.cpp against a history of calls.
use lab_monitor.Base.{
  ℕ, ◌≡◌, refl, ◌∙◌, ap, arith, Bool, Option, none, some, List, [], ◌∷◌, max, if◌then◌else◌, Text,
  str_eq, str_eq_iff, str_eq_refl, Bool-cases, inl, inr,
}
use lab_monitor.Base.OrderedMap
use lab_monitor.Types.{Capabilities}
use lab_monitor.Registry.{
  DiscoveredClient, ClientRegistry, touched, touch, update, record_announce, record_sample,
  record_report, mark_lost,
}

-- What the server hears: each call of the registry that changes it.
pub data Heard : Type 0 where
  announce : Text → Capabilities → Bool → ℕ → Heard
  sample : Text → ℕ → Heard
  report : Text → ℕ → ℕ → Heard
  lost : Text → Heard

unfoldable pub apply : ClientRegistry → Heard → ClientRegistry
apply clients (Heard.announce h caps paused t) = record_announce clients h caps paused t
apply clients (Heard.sample h t) = record_sample clients h t
apply clients (Heard.report h revision t) = record_report clients h revision t
apply clients (Heard.lost h) = mark_lost clients h

unfoldable pub apply_all : ClientRegistry → List Heard → ClientRegistry
unfolding apply
apply_all clients [] = clients
apply_all clients (m ∷ ms) = apply_all (apply clients m) ms

abbrev pub host_of : Heard → Text
host_of (Heard.announce h _ _ _) = h
host_of (Heard.sample h _) = h
host_of (Heard.report h _ _) = h
host_of (Heard.lost h) = h

-- What is known of one host behind a message of that host.
abbrev pub learn : Option DiscoveredClient → Heard → Option DiscoveredClient
learn known (Heard.announce h caps paused t) =
    some (record (touched h t known) { caps = caps; paused = paused })
learn known (Heard.sample h t) = some (touched h t known)
learn known (Heard.report h revision t) =
    some (record (touched h t known) { applied_revision = revision })
learn known (Heard.lost h) = none

-- What is known of host `h` behind a history: the messages of other hosts are passed over.
pub known_after : Text → Option DiscoveredClient → List Heard → Option DiscoveredClient
known_after h known [] = known
known_after h known (m ∷ ms) =
    known_after h (if str_eq (host_of m) h then learn known m else known) ms

find-touch :
    (clients : ClientRegistry) (j h : Text) (t : ℕ)
    → OrderedMap.find j (touch clients h t) ≡ (
        if str_eq h j
        then some (touched h t (OrderedMap.find h clients))
        else OrderedMap.find j clients)
unfolding touch
find-touch clients j h t =
    OrderedMap.find-insert j h (touched h t (OrderedMap.find h clients)) clients

find-update-touch :
    (clients : ClientRegistry) (j h : Text) (t : ℕ) (f : DiscoveredClient → DiscoveredClient)
    → OrderedMap.find j (update (touch clients h t) h f) ≡ (
        if str_eq h j
        then some (f (touched h t (OrderedMap.find h clients)))
        else OrderedMap.find j clients)
unfolding update
find-update-touch clients j h t f =
    rw (find-touch clients h h t, str_eq_refl h)
      (OrderedMap.find-insert j h (f (touched h t (OrderedMap.find h clients))) (touch clients h t)
        ∙ rw (find-touch clients j h t) (ground arith))

same_host :
    (clients : ClientRegistry) (j h : Text) (f : Option DiscoveredClient → Option DiscoveredClient)
    → (if str_eq h j then f (OrderedMap.find h clients) else OrderedMap.find j clients)
      ≡ (if str_eq h j then f (OrderedMap.find j clients) else OrderedMap.find j clients)
same_host clients j h f = ground (arith, str_eq_iff h j)

find-apply :
    (clients : ClientRegistry) (j : Text) (m : Heard)
    → OrderedMap.find j (apply clients m) ≡ (
        if str_eq (host_of m) j
        then learn (OrderedMap.find j clients) m
        else OrderedMap.find j clients)
unfolding apply record_announce record_sample record_report mark_lost
find-apply clients j (Heard.announce h caps paused t) =
    find-update-touch clients j h t (λ c. record c { caps = caps; paused = paused })
    ∙ same_host clients j h
        (λ known. some (record (touched h t known) { caps = caps; paused = paused }))
find-apply clients j (Heard.sample h t) =
    find-touch clients j h t ∙ same_host clients j h (λ known. some (touched h t known))
find-apply clients j (Heard.report h revision t) =
    find-update-touch clients j h t (λ c. record c { applied_revision = revision })
    ∙ same_host clients j h
        (λ known. some (record (touched h t known) { applied_revision = revision }))
find-apply clients j (Heard.lost h) = OrderedMap.find-erase j h clients

-- After any sequence of calls the registry holds of each host what it held before, changed by the
-- messages of that host in their order; the messages of other hosts have no influence on it.
pub find-apply_all :
    (h : Text) (clients : ClientRegistry) (messages : List Heard)
    → OrderedMap.find h (apply_all clients messages)
      ≡ known_after h (OrderedMap.find h clients) messages
unfolding apply_all known_after
find-apply_all h clients [] = refl
find-apply_all h clients (m ∷ ms) =
    find-apply_all h (apply clients m) ms
    ∙ ap (λ known. known_after h known ms) (find-apply clients h m)

-- The time of the known client, or none.
abbrev pub seen_of : Option DiscoveredClient → Option ℕ
seen_of none = none
seen_of (some c) = some c.last_seen

-- The latest of the times that a history has for a host; it starts anew where the host is lost.
abbrev later : Option ℕ → ℕ → ℕ
later none t = t
later (some a) t = max a t

abbrev pub seen_after : Option ℕ → Heard → Option ℕ
seen_after seen (Heard.announce _ _ _ t) = some (later seen t)
seen_after seen (Heard.sample _ t) = some (later seen t)
seen_after seen (Heard.report _ _ t) = some (later seen t)
seen_after seen (Heard.lost _) = none

pub latest : Text → Option ℕ → List Heard → Option ℕ
latest h seen [] = seen
latest h seen (m ∷ ms) = latest h (if str_eq (host_of m) h then seen_after seen m else seen) ms

seen-touched :
    (h : Text) (t : ℕ) (known : Option DiscoveredClient)
    → (touched h t known).last_seen ≡ later (seen_of known) t
seen-touched h t known = ground arith

seen-learn :
    (known : Option DiscoveredClient) (m : Heard)
    → seen_of (learn known m) ≡ seen_after (seen_of known) m
seen-learn known (Heard.announce h caps paused t) = ap some (seen-touched h t known)
seen-learn known (Heard.sample h t) = ap some (seen-touched h t known)
seen-learn known (Heard.report h revision t) = ap some (seen-touched h t known)
seen-learn known (Heard.lost h) = refl

seen-known_after :
    (h : Text) (known : Option DiscoveredClient) (messages : List Heard)
    → seen_of (known_after h known messages) ≡ latest h (seen_of known) messages
unfolding known_after latest
seen-known_after h known [] = refl
seen-known_after h known (m ∷ ms) = elim (Bool-cases (str_eq (host_of m) h)) [
  | inl e ↦
      rw e (seen-known_after h (learn known m) ms ∙ ap (λ s. latest h s ms) (seen-learn known m))
  | inr e ↦ rw e (seen-known_after h known ms)
]

-- A host's last_seen is the latest of the time that the registry had for it and the times in its
-- messages, since it was last lost and in whatever order they arrive; a lost host, and one never
-- heard of, has no entry.
pub last_seen-latest :
    (h : Text) (clients : ClientRegistry) (messages : List Heard)
    → seen_of (OrderedMap.find h (apply_all clients messages))
      ≡ latest h (seen_of (OrderedMap.find h clients)) messages
last_seen-latest h clients messages =
    ap seen_of (find-apply_all h clients messages)
    ∙ seen-known_after h (OrderedMap.find h clients) messages

-- What the two messages carry beside the time: an announce sets capabilities and the paused flag and
-- keeps the revision, a report sets the revision and keeps the other two, a sample keeps all three.
pub carried :
    (clients : ClientRegistry) (h : Text) (c : DiscoveredClient) (caps : Capabilities)
    (paused : Bool) (revision t : ℕ)
    → OrderedMap.find h clients ≡ some c
    → (OrderedMap.find h (record_announce clients h caps paused t)
        ≡ some (record c { last_seen = max c.last_seen t; caps = caps; paused = paused }))
      × (OrderedMap.find h (record_report clients h revision t)
          ≡ some (record c { last_seen = max c.last_seen t; applied_revision = revision }))
      × (OrderedMap.find h (record_sample clients h t)
          ≡ some (record c { last_seen = max c.last_seen t }))
unfolding apply
carried clients h c caps paused revision t e = (
  find-apply clients h (Heard.announce h caps paused t) ∙ rw (e, str_eq_refl h) (ground arith),
  find-apply clients h (Heard.report h revision t) ∙ rw (e, str_eq_refl h) (ground arith),
  find-apply clients h (Heard.sample h t) ∙ rw (e, str_eq_refl h) (ground arith),
)
