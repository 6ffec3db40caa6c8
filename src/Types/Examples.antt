-- ===== src/Types/Examples.antt =====
-- Runs of the capability sets at concrete sets.
use lab_monitor.Base.{◌≡◌, refl, true}
use lab_monitor.Types.{Capability, add, has, platform_capabilities}

registry_on_windows : has (platform_capabilities true) Capability.registry ≡ true
unfolding platform_capabilities has add
registry_on_windows = refl
