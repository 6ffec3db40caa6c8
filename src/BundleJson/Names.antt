-- ===== src/BundleJson/Names.antt =====
-- The enumerations of libs/core/src/json.cpp as names, and back.
use lab_monitor.Base.{◌≡◌, refl, text, str_eq}
use lab_monitor.Base.Json.{Expected}
use lab_monitor.Types.{Presence, ServiceState, Comparison, DdsMatch, LinkState}
use lab_monitor.Rule.{RegistryMatch}
use lab_monitor.BundleJson.{
  presence_to_string, presence_from_string, service_state_to_string, service_state_from_string,
  registry_match_to_string, registry_match_from_string, comparison_to_name, comparison_from_string,
  dds_match_to_name, dds_match_from_string, link_state_to_name, link_state_from_string,
}

pub presence_from-to_string :
    (p : Presence) → presence_from_string (presence_to_string p) ≡ Expected.value p
unfolding presence_from_string presence_to_string text str_eq
presence_from-to_string Presence.must_be_present = refl
presence_from-to_string _ = refl

pub service_state_from-to_string :
    (s : ServiceState) → service_state_from_string (service_state_to_string s) ≡ Expected.value s
unfolding service_state_from_string service_state_to_string text str_eq
service_state_from-to_string ServiceState.running = refl
service_state_from-to_string _ = refl

pub registry_match_from-to_string :
    (m : RegistryMatch) → registry_match_from_string (registry_match_to_string m) ≡ Expected.value m
unfolding registry_match_from_string registry_match_to_string text str_eq
registry_match_from-to_string RegistryMatch.exists = refl
registry_match_from-to_string _ = refl

pub comparison_from-to_name :
    (c : Comparison) → comparison_from_string (comparison_to_name c) ≡ Expected.value c
unfolding comparison_from_string comparison_to_name text str_eq
comparison_from-to_name Comparison.at_least = refl
comparison_from-to_name _ = refl

pub dds_match_from-to_name :
    (m : DdsMatch) → dds_match_from_string (dds_match_to_name m) ≡ Expected.value m
unfolding dds_match_from_string dds_match_to_name text str_eq
dds_match_from-to_name DdsMatch.equals = refl
dds_match_from-to_name _ = refl

pub link_state_from-to_name :
    (s : LinkState) → link_state_from_string (link_state_to_name s) ≡ Expected.value s
unfolding link_state_from_string link_state_to_name text str_eq
link_state_from-to_name LinkState.unknown = refl
link_state_from-to_name _ = refl
