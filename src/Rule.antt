-- ===== src/Rule.antt =====
-- libs/core/include/lm/core/rule.hpp and libs/core/src/rule.cpp: the rules and the keys under which
-- a host's facts are looked up.
pub mod Keys
mod Examples
use lab_monitor.Base.{
  ℕ, Option, none, some, List, [], ◌∷◌, ◌++◌, ℤ, Text, text, str_eq, if◌then◌else◌,
}
use lab_monitor.Base.Decimal.{to_string}
use lab_monitor.Types.{RuleKind, Comparison, DdsMatch, Presence, ServiceState, LinkState}
use lab_monitor.Version.{VersionConstraint}

pub data RegistryHive : Type 0 where
  local_machine current_user classes_root users : RegistryHive

pub data RegistryMatch : Type 0 where
  exists equals contains : RegistryMatch

pub record ProcessRule : Type 0 where
  pub executable : Text

pub record ServiceRule : Type 0 where
  pub service_name : Text
  pub expected_state : Option ServiceState

pub record RegistryRule : Type 0 where
  pub hive : RegistryHive
  pub key_path : Text
  pub value_name : Text
  pub match : RegistryMatch
  pub expected_value : Text

pub record AdapterCountRule : Type 0 where
  pub comparison : Comparison
  pub count : ℤ

pub record AdapterStateRule : Type 0 where
  pub adapter_name : Text
  pub expected : LinkState

pub record DdsTopicRule : Type 0 where
  pub domain_id : ℕ
  pub topic_name : Text

pub record DdsValueRule : Type 0 where
  pub domain_id : ℕ
  pub topic_name : Text
  pub path : Text
  pub match : DdsMatch
  pub expected_value : Text

pub data RulePayload : Type 0 where
  process : ProcessRule → RulePayload
  service : ServiceRule → RulePayload
  registry : RegistryRule → RulePayload
  adapter_count : AdapterCountRule → RulePayload
  adapter_state : AdapterStateRule → RulePayload
  dds_topic : DdsTopicRule → RulePayload
  dds_value : DdsValueRule → RulePayload

pub record Rule : Type 0 where
  pub id : Text
  pub description : Text
  pub expectation : Presence
  pub payload : RulePayload
  pub version : Option VersionConstraint

abbrev pub kind_of_payload : RulePayload → RuleKind
kind_of_payload (RulePayload.process _) = RuleKind.process
kind_of_payload (RulePayload.service _) = RuleKind.service
kind_of_payload (RulePayload.registry _) = RuleKind.registry
kind_of_payload (RulePayload.adapter_count _) = RuleKind.network
kind_of_payload (RulePayload.adapter_state _) = RuleKind.network
kind_of_payload (RulePayload.dds_topic _) = RuleKind.dds
kind_of_payload (RulePayload.dds_value _) = RuleKind.dds

unfoldable pub kind_of : Rule → RuleKind
kind_of rule = kind_of_payload rule.payload

unfoldable pub hive_to_string : RegistryHive → Text
hive_to_string RegistryHive.local_machine = text "HKLM"
hive_to_string RegistryHive.current_user = text "HKCU"
hive_to_string RegistryHive.classes_root = text "HKCR"
hive_to_string RegistryHive.users = text "HKU"

unfoldable pub parse_registry_hive : Text → Option RegistryHive
parse_registry_hive s =
    if str_eq s (text "HKLM")
    then some RegistryHive.local_machine
    else if str_eq s (text "HKCU")
    then some RegistryHive.current_user
    else if str_eq s (text "HKCR")
    then some RegistryHive.classes_root
    else if str_eq s (text "HKU")
    then some RegistryHive.users
    else none

-- One backslash stands before the path, and two before the name of the value.
unfoldable pub registry_key : RegistryRule → Text
registry_key rule =
    hive_to_string rule.hive ++ (b'\\' ∷ (rule.key_path ++ (b'\\' ∷ b'\\' ∷ rule.value_name)))

unfoldable pub dds_key : ℕ → Text → Text
dds_key domain_id topic_name = to_string domain_id ++ (b'/' ∷ topic_name)
