-- ===== src/Types/CapabilitySet.antt =====
-- The capability set as a set: what `add` and `has` mean for every pair of capabilities.
use Prim.Native.Nat.{bit_or}
use native.Mathlib.Nat.{one-le-pow}
use lab_monitor.Base.{
  ℕ, ◌^◌, ◌*◌, ◌<◌, ◌≡◌, refl, arith, Bool, true, false, not, ◌||◌, ◌==◌, ltb, ◌&&◌,
}
use lab_monitor.Base.Bits.{bit, bit-or_pow, and_pow}
use lab_monitor.Types.{
  RuleKind, Capability, Capabilities, add, has, place, platform_capabilities, required_capability,
}

product_zero : (b p : ℕ) → 0 < p → (b * p == 0) ≡ (b == 0)
product_zero b p h = grind arith

-- `has` reads the bit of the capability.
has-bit : (caps : Capabilities) (c : Capability) → has caps c ≡ not (bit (place c) caps.raw == 0)
unfolding has
has-bit caps c = rw (
  and_pow (place c) caps.raw,
  product_zero (bit (place c) caps.raw) (2 ^ place c) (one-le-pow (place c) 2 (omega arith)),
)

-- After adding a capability the set has that one and those that it had before, and no other.
pub has-add :
    (caps : Capabilities) (c d : Capability)
    → has (add caps c) d ≡ ((place d == place c) || has caps d)
unfolding add
has-add caps c d =
    rw
      (
        has-bit (record { raw = bit_or caps.raw (2 ^ place c) }) d,
        has-bit caps d,
        bit-or_pow (place d) (place c) caps.raw,
      )
      (ground arith)

-- The order in which capabilities are added does not matter, nor does adding one twice.
pub has-add_comm :
    (caps : Capabilities) (c d e : Capability)
    → (has (add (add caps c) d) e ≡ has (add (add caps d) c) e)
      × (has (add (add caps c) c) e ≡ has (add caps c) e)
has-add_comm caps c d e = simp has-add (ground arith)

-- A client of a build that serves no registry and no network reports exactly the three portable
-- capabilities, and a Windows build exactly five; neither reports scripts, elevation or DDS.
pub has-platform_capabilities :
    (windows : Bool) (c : Capability)
    → has (platform_capabilities windows) c
      ≡ (ltb (place c) 3 || (windows && (place c == 3 || place c == 4)))
unfolding platform_capabilities has
has-platform_capabilities true Capability.resources = refl
has-platform_capabilities true _ = refl
has-platform_capabilities false Capability.resources = refl
has-platform_capabilities false _ = refl

-- No two kinds of rule need the same capability.
pub required_capability_injective :
    (k l : RuleKind) → required_capability k ≡ required_capability l → k ≡ l
unfolding required_capability
required_capability_injective k l h = ground arith
