-- ===== src/Controller/Publish.antt =====
-- What publishing a draft does, and what the clients make of it.
use lab_monitor.Base.{
  ℕ, ◌+◌, ◌%◌, ◌^◌, ◌≡◌, refl, ap, ◌∙◌, sym, subst, Bool, true, false, not, Option, none, some,
  List, [], ◌∷◌, ◌++◌, ◌==◌, Text, str_eq_refl,
}
use lab_monitor.Base.Json.{Expected, JsonLibrary}
use lab_monitor.Facts.{HostFacts}
use lab_monitor.Bundle.{TemplateBundle}
use lab_monitor.BundleJson.{content, content_hash, bundle_to_json, serialise_bundle}
use lab_monitor.BundleJson.RoundTrip.{IsWireBundle}
use lab_monitor.BundleJson.Hash.{content_hash_same}
use lab_monitor.Fleet.{FleetView}
use lab_monitor.RuleDetail.{Qt}
use lab_monitor.Bus.{TemplateBundleMessage}
use lab_monitor.Worker.{Setup, Worker, on_bundle}
use lab_monitor.Worker.Bundles.{on_bundle-serialise_bundle}
use lab_monitor.Controller.{
  Disk, Output, Event, Server, can_publish, stamped, message_of, reconcile_now, publish,
  published_as, sent_out, ◌then_call◌, written, changed_event, same_entries,
}

module _ (J : JsonLibrary) (Q : Qt) where
  -- The bundles that are sent to the clients.
  abbrev pub sent_by : Event J Q → List TemplateBundleMessage
  sent_by (Output.publish_bundle message) = message ∷ []
  sent_by _ = []

  unfoldable pub sent_bundles : List (Event J Q) → List TemplateBundleMessage
  sent_bundles [] = []
  sent_bundles (e ∷ es) = sent_by e ++ sent_bundles es

  published_same :
      (c : Server J Q) (hash : Text)
      → c.draft ≡ c.published
      → content_hash J c.published ≡ Expected.value hash
      → can_publish J Q c ≡ Expected.value false
  unfolding can_publish
  published_same c hash e h = rw (ap (content_hash J) e ∙ h, h, str_eq_refl hash) refl

  -- A draft that can be compared has a hash.
  publishable_hash :
      (c : Server J Q)
      → can_publish J Q c ≡ Expected.value true
      → (hash : Text) × (content_hash J c.draft ≡ Expected.value hash)
  unfolding can_publish
  publishable_hash c h = go (content_hash J c.draft) refl
    where
      go :
          (o : Expected Text Text)
          → content_hash J c.draft ≡ o
          → (hash : Text) × (content_hash J c.draft ≡ Expected.value hash)
      go (Expected.value hash) e = (hash, e)
      go (Expected.unexpected error) e = absurd (thrown (rw e at h))
        where
          thrown :
              ◌≡◌ {A = Expected Bool Text} (Expected.unexpected error) (Expected.value true) → ⊥
          thrown h = cc

  -- The publication of a draft with this hash.
  published_with :
      (c : Server J Q) (disk : Disk Q.QString) (now : ℕ) (hash : Text)
      → can_publish J Q c ≡ Expected.value true
      → content_hash J c.draft ≡ Expected.value hash
      → let d = published_as J Q c (stamped J Q c hash) in
        publish J Q c disk now
        ≡ ◌then_call◌ J Q
            (d, sent_out J Q d disk (Output.draft_publishable_changed false))
            (λ e. reconcile_now J Q e now)
  unfolding publish
  published_with c disk now hash h e =
      let d = published_as J Q c (stamped J Q c hash) in
      let next = (c.published.revision + 1) % 2 ^ 64 in
      rw
        (
          h,
          content_hash_same J c.draft next c.draft.hash ∙ e,
          published_same d hash refl (content_hash_same J c.draft next hash ∙ e),
        )
        refl

  -- What a publication sends, between the write of the file and the events of the reconciliation.
  sent_publish :
      (answer : Option Q.QString) (changed b : Bool) (saved : Text) (bundle : TemplateBundle)
      (view : FleetView)
      → sent_bundles (
          (written J Q answer (Output.bundle_saved saved)
            ++ (Output.publish_bundle (message_of J Q bundle)
                ∷ Output.published_changed
                ∷ Output.draft_publishable_changed b
                ∷ []))
          ++ (Output.model_applied view
              ∷ Output.counts_changed view.counts
              ∷ changed_event J Q changed))
        ≡ message_of J Q bundle ∷ []
  unfolding sent_bundles
  sent_publish none true b saved bundle view = refl
  sent_publish none false b saved bundle view = refl
  sent_publish (some error) true b saved bundle view = refl
  sent_publish (some error) false b saved bundle view = refl

  -- Publishing a draft that differs from what is published: the draft is published under the next
  -- revision with its own hash and is no longer different, nothing else of it changes, and exactly
  -- one message goes out, that of the published bundle.
  pub publish_lem :
      (c : Server J Q) (disk : Disk Q.QString) (now : ℕ)
      → can_publish J Q c ≡ Expected.value true
      → let r = publish J Q c disk now in
        (can_publish J Q r.0 ≡ Expected.value false)
        × (r.0.draft ≡ r.0.published)
        × (content r.0.published ≡ content c.draft)
        × (r.0.published.revision ≡ (c.published.revision + 1) % 2 ^ 64)
        × (content_hash J c.draft ≡ Expected.value r.0.published.hash)
        × (sent_bundles r.1 ≡ message_of J Q r.0.published ∷ [])
  unfolding reconcile_now
  publish_lem c disk now h =
      let (hash, e) = publishable_hash c h in
      let bundle = stamped J Q c hash in
      let d = published_as J Q c bundle in
      let view = (reconcile_now J Q d now).0.fleet in
      let next = (c.published.revision + 1) % 2 ^ 64 in
      rw (published_with c disk now hash h e) (
        published_same (reconcile_now J Q d now).0 hash refl
            (content_hash_same J c.draft next hash ∙ e),
        refl,
        refl,
        refl,
        e,
        sent_publish (disk.save_bundle (serialise_bundle J bundle))
            (not (same_entries c.fleet.entries view.entries)) false (serialise_bundle J bundle)
            bundle view,
      )

  published_stamped :
      (c : Server J Q) (disk : Disk Q.QString) (now : ℕ) (hash : Text)
      → can_publish J Q c ≡ Expected.value true
      → content_hash J c.draft ≡ Expected.value hash
      → (publish J Q c disk now).0.published ≡ stamped J Q c hash
  unfolding reconcile_now
  published_stamped c disk now hash h e = rw (published_with c disk now hash h e) refl

  -- The message that a publication sends is, at every worker that holds another revision, applied as
  -- the very bundle that is published, where the draft can be written as JSON and read again.
  pub on_bundle-publish :
      (setup : Setup) (c : Server J Q) (disk : Disk Q.QString) (now : ℕ) (w : Worker)
      (collect : TemplateBundle → HostFacts J.Double) (hash : Text)
      → can_publish J Q c ≡ Expected.value true
      → content_hash J c.draft ≡ Expected.value hash
      → IsWireBundle (stamped J Q c hash)
      → J.IsPrintable (bundle_to_json J (stamped J Q c hash))
      → ((stamped J Q c hash).revision == w.bundle.revision) ≡ false
      → let r = publish J Q c disk now in
        (sent_bundles r.1 ≡ message_of J Q r.0.published ∷ [])
        × ((on_bundle J Q setup w (message_of J Q r.0.published) collect).0.bundle ≡ r.0.published)
  on_bundle-publish setup c disk now w collect hash h e wire printable other = (
    (publish_lem c disk now h).5,
    subst (λ (b : TemplateBundle). (on_bundle J Q setup w (message_of J Q b) collect).0.bundle ≡ b)
        (sym (published_stamped c disk now hash h e))
        (ap (λ r. r.0.bundle)
          (on_bundle-serialise_bundle J Q setup w (stamped J Q c hash) collect wire printable
            other)),
  )
