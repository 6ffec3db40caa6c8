-- ===== src/Codec/Gives.antt =====
-- What a reader of libs/transport/src/codec.cpp gives where it stands before the items of a value.
use lab_monitor.Base.{
  ℕ, ◌<◌, ◌^◌, ◌≡◌, refl, ap, ◌∙◌, subst, sym, ℤ, Bool, some, List, [], ◌∷◌, ◌++◌, map, length,
  append-nil, append_assoc, All, All-append, Text,
}
use lab_monitor.Base.Json.{IsInt32}
use lab_monitor.Codec.Cdr.{Item, CdrLibrary, IsCdrText, IsWritable}
use lab_monitor.Codec.{
  Items, Read, and_then, ◌>>=◌, return, read_many, deserialise, result_of, all_items, read_paused,
  or_false,
}

module _ (C : CdrLibrary) where
  open C use {
    Double, Reader, read_text, read_uint8, read_uint32, read_uint64, read_int32, read_bool,
    read_double, StandsBefore,
  }

  -- Before these items, whatever stands behind them, the reader gives the value and then stands behind
  -- them.
  pub record Gives {A : Type 0} (m : Read C A) (items : Items C) (a : A) : Type 0 where
    pub gives :
        (r : Reader) (rest : Items C)
        → StandsBefore r (items ++ rest)
        → (next : Reader) × (m r ≡ some (a, next)) × StandsBefore next rest

  pub Gives-return : {A : Type 0} (a : A) → Gives (return C a) [] a
  Gives-return a = record { gives = λ r rest h. (r, refl, h) }

  pub Gives-bind :
      {A B : Type 0} {m : Read C A} (f : A → Read C B) (xs ys : Items C) (a : A) {b : B}
      → Gives m xs a
      → Gives (f a) ys b
      → Gives (◌>>=◌ C m f) (xs ++ ys) b
  Gives-bind {A} {B} {m} f xs ys a {b} g k = record {
    gives = λ r rest h.
        let (next, e, s) =
          g.gives r (ys ++ rest) (subst (StandsBefore r) (append_assoc xs ys rest) h) in
        let (last, d, t) = k.gives next rest s in (last, ap (λ o. and_then C o f) e ∙ d, t);
  }

  pub Gives-text : (s : Text) → IsCdrText s → Gives read_text (Item.text_item s ∷ []) s
  Gives-text s p = record { gives = λ r rest h. C.reads_text r s rest p h }

  pub Gives-uint8 : (n : ℕ) → n < 2 ^ 8 → Gives read_uint8 (Item.uint8_item n ∷ []) n
  Gives-uint8 n p = record { gives = λ r rest h. C.reads_uint8 r n rest p h }

  pub Gives-uint32 : (n : ℕ) → n < 2 ^ 32 → Gives read_uint32 (Item.uint32_item n ∷ []) n
  Gives-uint32 n p = record { gives = λ r rest h. C.reads_uint32 r n rest p h }

  pub Gives-uint64 : (n : ℕ) → n < 2 ^ 64 → Gives read_uint64 (Item.uint64_item n ∷ []) n
  Gives-uint64 n p = record { gives = λ r rest h. C.reads_uint64 r n rest p h }

  pub Gives-int32 : (z : ℤ) → IsInt32 z → Gives read_int32 (Item.int32_item z ∷ []) z
  Gives-int32 z p = record { gives = λ r rest h. C.reads_int32 r z rest p h }

  pub Gives-bool : (b : Bool) → Gives read_bool (Item.bool_item b ∷ []) b
  Gives-bool b = record { gives = λ r rest h. C.reads_bool r b rest h }

  pub Gives-double : (d : Double) → Gives read_double (Item.double_item d ∷ []) d
  Gives-double d = record { gives = λ r rest h. C.reads_double r d rest h }

  pub Gives-paused : (b : Bool) → Gives (read_paused C) (Item.bool_item b ∷ []) b
  Gives-paused b = record {
    gives =
        λ r rest h. let (next, e, s) = C.reads_bool r b rest h in (next, ap (or_false C r) e, s);
  }

  -- One value more in front.
  pub give :
      {A B : Type 0} {m : Read C A} (f : A → Read C B) (i : Item Double) (ys : Items C) (a : A)
      {b : B}
      → Gives m (i ∷ []) a
      → Gives (f a) ys b
      → Gives (◌>>=◌ C m f) (i ∷ ys) b
  give f i ys a g k = Gives-bind f (i ∷ []) ys a g k

  -- A loop over the items of a vector.
  pub Gives-many :
      {A B : Type 0} (m : Read C B) (items : A → Items C) (g : A → B) (P : A → Type 0)
      → ((x : A) → P x → Gives m (items x) (g x))
      → (xs : List A) → All P xs
      → Gives (read_many C (length xs) m) (all_items C items xs) (map g xs)
  unfolding read_many all_items
  Gives-many m items g P each [] h = Gives-return []
  Gives-many m items g P each (x ∷ xs) h =
      Gives-bind (λ y. ◌>>=◌ C (read_many C (length xs) m) (λ rest. return C (y ∷ rest))) (items x)
        (all_items C items xs) (g x) (each x h.0)
        (subst
          (λ ys.
            Gives (◌>>=◌ C (read_many C (length xs) m) (λ rest. return C (g x ∷ rest))) ys
              (g x ∷ map g xs))
          (append-nil (all_items C items xs))
          (Gives-bind (λ rest. return C (g x ∷ rest)) (all_items C items xs) [] (map g xs)
            (Gives-many m items g P each xs h.1) (Gives-return (g x ∷ map g xs))))

  -- What a reader makes of the bytes that are written.
  pub deserialise-write :
      {A : Type 0} (m : Read C A) (i : Item Double) (items : Items C) (a : A)
      → All IsWritable (i ∷ items)
      → Gives m (i ∷ items) a
      → (bytes : Text) × (C.write (i ∷ items) ≡ some bytes) × (deserialise C bytes m ≡ some a)
  unfolding deserialise
  deserialise-write m i items a w g =
      let (bytes, e, nonempty, stands) = C.written i items w in
      let (next, d, s) =
        g.gives (C.open_reader bytes) []
          (subst (StandsBefore (C.open_reader bytes)) (sym (append-nil (i ∷ items))) stands) in
      (bytes, e, rw nonempty (ap (result_of C) d))

  -- The items of a vector can be written if those of its elements can.
  pub all_items-All :
      {A : Type 0} (items : A → Items C) (P : A → Type 0)
      → ((x : A) → P x → All IsWritable (items x))
      → (xs : List A) → All P xs
      → All IsWritable (all_items C items xs)
  unfolding all_items
  all_items-All items P each [] h = tt
  all_items-All items P each (x ∷ xs) h =
      All-append IsWritable (items x) (all_items C items xs) (each x h.0)
        (all_items-All items P each xs h.1)
