-- ===== src/Registry/Examples.antt =====
-- Runs of the client registry, and the theorems on it at a history of five calls.
use lab_monitor.Base.{
  ◌≡◌, refl, ℕ, max, Bool, true, false, Option, none, some, List, [], ◌∷◌, Text, text,
}
use lab_monitor.Base.OrderedMap
use lab_monitor.Types.{Capability, no_capabilities, add}
use lab_monitor.Registry.{DiscoveredClient, record_announce, record_report, record_sample, snapshot}
use lab_monitor.Registry.History.{Heard, apply_all, known_after, find-apply_all, seen_of}
use lab_monitor.Registry.Validity.{AreRising, snapshot-AreRising}

abbrev history : List Heard
history =
    Heard.announce (text "pc-2") (add no_capabilities Capability.dds) false 100
    ∷ Heard.sample (text "pc-1") 105
    ∷ Heard.report (text "pc-2") 4 90
    ∷ Heard.lost (text "pc-1")
    ∷ Heard.sample (text "pc-1") 101
    ∷ []

late_report : seen_of (OrderedMap.find (text "pc-2") (apply_all [] history)) ≡ some 100
unfolding OrderedMap.find apply_all record_sample OrderedMap.insert_or_assign
    lab_monitor.Registry.mark_lost OrderedMap.erase record_report record_announce
    lab_monitor.Base.str_eq text lab_monitor.Base.text_ltb
late_report = refl

lost_then_heard : seen_of (OrderedMap.find (text "pc-1") (apply_all [] history)) ≡ some 101
unfolding OrderedMap.find apply_all record_sample OrderedMap.insert_or_assign
    lab_monitor.Registry.mark_lost OrderedMap.erase record_report record_announce
    lab_monitor.Base.str_eq text lab_monitor.Base.text_ltb
lost_then_heard = refl

find-apply_all_example :
    OrderedMap.find (text "pc-2") (apply_all [] history)
    ≡ known_after (text "pc-2") (OrderedMap.find (text "pc-2") []) history
find-apply_all_example = find-apply_all (text "pc-2") [] history

snapshot-AreRising_example : AreRising (snapshot (apply_all [] history))
snapshot-AreRising_example = snapshot-AreRising history
