-- ===== src/Rule/Examples.antt =====
-- Runs of the rules' keys at concrete rules.
use lab_monitor.Base.{ℕ, ◌≡◌, ◌↔◌, refl, ◌∷◌, [], ◌++◌, some, text}
use lab_monitor.Rule.{
  RegistryHive, RegistryMatch, RegistryRule, hive_to_string, registry_key, dds_key,
}

abbrev build_rule : RegistryRule
unfolding text
build_rule = record {
  hive = RegistryHive.local_machine;
  key_path = text "SOFTWARE\\Lab";
  value_name = text "Build";
  match = RegistryMatch.exists;
  expected_value = [];
}

build_key : registry_key build_rule ≡ text "HKLM\\SOFTWARE\\Lab\\\\Build"
unfolding registry_key text hive_to_string
build_key = refl

topic_key : dds_key 42 (text "Cart") ≡ text "42/Cart"
unfolding dds_key text lab_monitor.Base.Decimal.to_string
topic_key = refl
