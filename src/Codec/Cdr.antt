-- ===== src/Codec/Cdr.antt =====
-- What the program takes from the CDR library, which is not part of the repository, and the numbers of
-- the enumerations of libs/transport/src/codec.cpp.
use lab_monitor.Base.{
  ℕ, suc, ◌^◌, ◌<◌, ◌≡◌, ℤ, Bool, true, false, ◌&&◌, Option, none, some, List, [], ◌∷◌, ◌==◌,
  if◌then◌else◌, Text, empty, ltb, length, All,
}
use lab_monitor.Base.Json.{IsInt32}
use lab_monitor.Types.{CheckStatus, AdapterType, LinkState}
use lab_monitor.Script.{ScriptStatus}

pub data Item (Double : Type 0) : Type 0 where
  text_item : Text → Item Double
  uint8_item : ℕ → Item Double
  uint32_item : ℕ → Item Double
  uint64_item : ℕ → Item Double
  int32_item : ℤ → Item Double
  bool_item : Bool → Item Double
  double_item : Double → Item Double

-- A text that a CDR string can hold: its characters are bytes and none of them is NUL, which ends such
-- a string, and its length with the NUL fits a number of 32 bits.
unfoldable pub is_cdr_text : Text → Bool
is_cdr_text s = all_bytes s && ltb (suc (length s)) (2 ^ 32)
  where
    all_bytes : Text → Bool
    all_bytes [] = true
    all_bytes (c ∷ cs) = (ltb 0 c && ltb c (2 ^ 8)) && all_bytes cs

abbrev pub IsCdrText : Text → Type 0
IsCdrText s = is_cdr_text s ≡ true

-- The texts of the items can be held; the types of the source keep the numbers in their ranges.
abbrev pub IsWritable : {Double : Type 0} → Item Double → Type 0
IsWritable (Item.text_item s) = IsCdrText s
IsWritable _ = Unit

pub record CdrLibrary : Type 1 where
  pub Double : Type 0
  pub Reader : Type 0
  -- The bytes of a buffer into which the items are written in their order: none where it throws.
  pub write : List (Item Double) → Option Text
  pub open_reader : Text → Reader
  -- `reader >> value`: none where it throws.
  pub read_text : Reader → Option (Text × Reader)
  pub read_uint8 : Reader → Option (ℕ × Reader)
  pub read_uint32 : Reader → Option (ℕ × Reader)
  pub read_uint64 : Reader → Option (ℕ × Reader)
  pub read_int32 : Reader → Option (ℤ × Reader)
  pub read_bool : Reader → Option (Bool × Reader)
  pub read_double : Reader → Option (Double × Reader)
  -- The reader stands before these items, with nothing behind them.
  pub StandsBefore : Reader → List (Item Double) → Type 0
  pub written :
      (i : Item Double) (items : List (Item Double))
      → All IsWritable (i ∷ items)
      → (bytes : Text) × (write (i ∷ items) ≡ some bytes)
        × (empty bytes ≡ false)
        × StandsBefore (open_reader bytes) (i ∷ items)
  pub reads_text :
      (r : Reader) (s : Text) (items : List (Item Double))
      → IsCdrText s
      → StandsBefore r (Item.text_item s ∷ items)
      → (next : Reader) × (read_text r ≡ some (s, next)) × StandsBefore next items
  pub reads_uint8 :
      (r : Reader) (n : ℕ) (items : List (Item Double))
      → n < 2 ^ 8
      → StandsBefore r (Item.uint8_item n ∷ items)
      → (next : Reader) × (read_uint8 r ≡ some (n, next)) × StandsBefore next items
  pub reads_uint32 :
      (r : Reader) (n : ℕ) (items : List (Item Double))
      → n < 2 ^ 32
      → StandsBefore r (Item.uint32_item n ∷ items)
      → (next : Reader) × (read_uint32 r ≡ some (n, next)) × StandsBefore next items
  pub reads_uint64 :
      (r : Reader) (n : ℕ) (items : List (Item Double))
      → n < 2 ^ 64
      → StandsBefore r (Item.uint64_item n ∷ items)
      → (next : Reader) × (read_uint64 r ≡ some (n, next)) × StandsBefore next items
  pub reads_int32 :
      (r : Reader) (z : ℤ) (items : List (Item Double))
      → IsInt32 z
      → StandsBefore r (Item.int32_item z ∷ items)
      → (next : Reader) × (read_int32 r ≡ some (z, next)) × StandsBefore next items
  pub reads_bool :
      (r : Reader) (b : Bool) (items : List (Item Double))
      → StandsBefore r (Item.bool_item b ∷ items)
      → (next : Reader) × (read_bool r ≡ some (b, next)) × StandsBefore next items
  pub reads_double :
      (r : Reader) (d : Double) (items : List (Item Double))
      → StandsBefore r (Item.double_item d ∷ items)
      → (next : Reader) × (read_double r ≡ some (d, next)) × StandsBefore next items
  -- There is nothing to read at the end.
  pub at_end : (r : Reader) → StandsBefore r [] → read_bool r ≡ none

unfoldable pub adapter_type_number : AdapterType → ℕ
adapter_type_number AdapterType.unknown = 0
adapter_type_number AdapterType.ethernet = 1
adapter_type_number AdapterType.wi_fi = 2
adapter_type_number AdapterType.loopback = 3
adapter_type_number AdapterType.ppp = 4
adapter_type_number AdapterType.tunnel = 5
adapter_type_number AdapterType.modem = 6
adapter_type_number AdapterType.other = 7

-- static_cast to an enumeration; a number that is none of its values is taken to the first.
unfoldable pub adapter_type_of : ℕ → AdapterType
adapter_type_of n =
    if n == 1
    then AdapterType.ethernet
    else if n == 2
    then AdapterType.wi_fi
    else if n == 3
    then AdapterType.loopback
    else if n == 4
    then AdapterType.ppp
    else if n == 5
    then AdapterType.tunnel
    else if n == 6
    then AdapterType.modem
    else if n == 7
    then AdapterType.other
    else AdapterType.unknown

unfoldable pub link_of : ℕ → LinkState
link_of n =
    if n == 1
    then LinkState.connected
    else if n == 2
    then LinkState.no_media
    else if n == 3
    then LinkState.disconnected
    else if n == 4
    then LinkState.connecting
    else if n == 5
    then LinkState.disabled
    else if n == 6
    then LinkState.faulted
    else LinkState.unknown

unfoldable pub status_of : ℕ → CheckStatus
status_of n =
    if n == 1
    then CheckStatus.fail
    else if n == 2
    then CheckStatus.not_applicable
    else if n == 3
    then CheckStatus.error
    else CheckStatus.pass

unfoldable pub script_status_number : ScriptStatus → ℕ
script_status_number ScriptStatus.completed = 0
script_status_number ScriptStatus.failed = 1
script_status_number ScriptStatus.refused = 2
script_status_number ScriptStatus.error = 3

-- The switch: a number that is no status of this build is an error.
unfoldable pub script_status_of : ℕ → ScriptStatus
script_status_of n =
    if n == 0
    then ScriptStatus.completed
    else if n == 1
    then ScriptStatus.failed
    else if n == 2
    then ScriptStatus.refused
    else ScriptStatus.error
