-- ===== src/Codec/SampleCdr.antt =====
-- A CDR library for the examples: a byte is any number, a text stands behind its length.
use lab_monitor.Base.{
  ℕ, zero, suc, ◌≡◌, refl, ap, ◌∙◌, not, empty, Bool, true, false, pos, negsuc, ℤ, Option, none,
  some, List, [], ◌∷◌, ◌++◌, ◌==◌, length, Text, if◌then◌else◌,
}
use lab_monitor.Codec.Cdr.{Item, CdrLibrary}

abbrev pub encode_item : Item ℕ → Text
encode_item (Item.text_item s) = length s ∷ s
encode_item (Item.uint8_item n) = n ∷ []
encode_item (Item.uint32_item n) = n ∷ []
encode_item (Item.uint64_item n) = n ∷ []
encode_item (Item.int32_item (pos n)) = 0 ∷ n ∷ []
encode_item (Item.int32_item (negsuc n)) = 1 ∷ n ∷ []
encode_item (Item.bool_item true) = 1 ∷ []
encode_item (Item.bool_item false) = 0 ∷ []
encode_item (Item.double_item d) = d ∷ []

abbrev pub write_items : List (Item ℕ) → Text
write_items [] = []
write_items (i ∷ items) = encode_item i ++ write_items items

abbrev pub cons_first : ℕ → Text × Text → Text × Text
cons_first b (s, rest) = (b ∷ s, rest)

-- The first bytes, as many as asked for, and the rest.
abbrev pub split_at : ℕ → Text → Text × Text
split_at zero bytes = ([], bytes)
split_at (suc n) [] = ([], [])
split_at (suc n) (b ∷ bytes) = cons_first b (split_at n bytes)

abbrev pub read_text : Text → Option (Text × Text)
read_text [] = none
read_text (n ∷ bytes) = some (split_at n bytes)

abbrev pub read_number : Text → Option (ℕ × Text)
read_number [] = none
read_number (n ∷ bytes) = some (n, bytes)

abbrev pub read_signed : Text → Option (ℤ × Text)
read_signed (sign ∷ n ∷ bytes) = some ((if sign == 0 then pos n else negsuc n), bytes)
read_signed _ = none

abbrev pub read_flag : Text → Option (Bool × Text)
read_flag [] = none
read_flag (n ∷ bytes) = some (not (n == 0), bytes)

pub split_at-append : (s rest : Text) → split_at (length s) (s ++ rest) ≡ (s, rest)
split_at-append [] rest = refl
split_at-append (b ∷ s) rest = ap (cons_first b) (split_at-append s rest)

pub nonempty : (i : Item ℕ) (items : List (Item ℕ)) → empty (write_items (i ∷ items)) ≡ false
nonempty (Item.text_item s) items = refl
nonempty (Item.uint8_item n) items = refl
nonempty (Item.uint32_item n) items = refl
nonempty (Item.uint64_item n) items = refl
nonempty (Item.int32_item (pos n)) items = refl
nonempty (Item.int32_item (negsuc n)) items = refl
nonempty (Item.bool_item true) items = refl
nonempty (Item.bool_item false) items = refl
nonempty (Item.double_item d) items = refl

pub signed :
    (z : ℤ) (items : List (Item ℕ))
    → read_signed (write_items (Item.int32_item z ∷ items)) ≡ some (z, write_items items)
signed (pos n) items = refl
signed (negsuc n) items = refl

pub flag :
    (b : Bool) (items : List (Item ℕ))
    → read_flag (write_items (Item.bool_item b ∷ items)) ≡ some (b, write_items items)
flag true items = refl
flag false items = refl

abbrev pub sample_cdr : CdrLibrary
sample_cdr = record {
  Double = ℕ;
  Reader = Text;
  write = λ items. some (write_items items);
  open_reader = λ bytes. bytes;
  read_text = read_text;
  read_uint8 = read_number;
  read_uint32 = read_number;
  read_uint64 = read_number;
  read_int32 = read_signed;
  read_bool = read_flag;
  read_double = read_number;
  StandsBefore = λ r items. r ≡ write_items items;
  written = λ i items w. (write_items (i ∷ items), refl, nonempty i items, refl);
  reads_text = λ r s items p h.
      (write_items items, ap read_text h ∙ ap some (split_at-append s (write_items items)), refl);
  reads_uint8 = λ r n items p h. (write_items items, ap read_number h, refl);
  reads_uint32 = λ r n items p h. (write_items items, ap read_number h, refl);
  reads_uint64 = λ r n items p h. (write_items items, ap read_number h, refl);
  reads_int32 = λ r z items p h. (write_items items, ap read_signed h ∙ signed z items, refl);
  reads_bool = λ r b items h. (write_items items, ap read_flag h ∙ flag b items, refl);
  reads_double = λ r d items h. (write_items items, ap read_number h, refl);
  at_end = λ r h. ap read_flag h;
}
