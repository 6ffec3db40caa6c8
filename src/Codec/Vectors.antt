-- ===== src/Codec/Vectors.antt =====
-- Vectors in the messages of libs/transport/src/codec.cpp, and the resource samples.
use lab_monitor.Base.{
  ℕ, ◌<◌, ◌%◌, ◌^◌, ◌≡◌, refl, ap, ◌∙◌, subst, Bool, true, arith, some, List, [], ◌∷◌, map, length,
  All, All-append, Text, append-nil, leb, ◌&&◌,
}
use lab_monitor.Types.{AdapterType, LinkState, link_number}
use lab_monitor.Facts.{DiskUsage, NetworkAdapter}
use lab_monitor.Bus.{ResourceSampleMessage}
use lab_monitor.Codec.Cdr.{
  CdrLibrary, IsCdrText, IsWritable, adapter_type_number, adapter_type_of, link_of,
}
use lab_monitor.Codec.{
  Items, Read, return, ◌>>=◌, read_many, read_vector, vector_items, disk_items, read_disk,
  adapter_items, read_adapter, values, all_valid, if_valid, sample_items, encode_resources,
  read_resources, decode_resources,
}
use lab_monitor.Codec.Gives.{
  Gives, Gives-return, Gives-bind, give, Gives-text, Gives-uint8, Gives-uint32, Gives-uint64,
  Gives-double, Gives-many, deserialise-write, all_items-All,
}

adapter_type_of-number : (t : AdapterType) → adapter_type_of (adapter_type_number t) ≡ t
unfolding adapter_type_of adapter_type_number
adapter_type_of-number AdapterType.unknown = refl
adapter_type_of-number AdapterType.ethernet = refl
adapter_type_of-number AdapterType.wi_fi = refl
adapter_type_of-number AdapterType.loopback = refl
adapter_type_of-number AdapterType.ppp = refl
adapter_type_of-number AdapterType.tunnel = refl
adapter_type_of-number AdapterType.modem = refl
adapter_type_of-number AdapterType.other = refl

adapter_type_number-le : (t : AdapterType) → leb (adapter_type_number t) 7 ≡ true
unfolding adapter_type_number
adapter_type_number-le AdapterType.unknown = refl
adapter_type_number-le AdapterType.ethernet = refl
adapter_type_number-le AdapterType.wi_fi = refl
adapter_type_number-le AdapterType.loopback = refl
adapter_type_number-le AdapterType.ppp = refl
adapter_type_number-le AdapterType.tunnel = refl
adapter_type_number-le AdapterType.modem = refl
adapter_type_number-le AdapterType.other = refl

link_of-number : (l : LinkState) → link_of (link_number l) ≡ l
unfolding link_of
link_of-number LinkState.unknown = refl
link_of-number LinkState.connected = refl
link_of-number LinkState.no_media = refl
link_of-number LinkState.disconnected = refl
link_of-number LinkState.connecting = refl
link_of-number LinkState.disabled = refl
link_of-number LinkState.faulted = refl

link_number-le : (l : LinkState) → leb (link_number l) 6 ≡ true
link_number-le LinkState.unknown = refl
link_number-le LinkState.connected = refl
link_number-le LinkState.no_media = refl
link_number-le LinkState.disconnected = refl
link_number-le LinkState.connecting = refl
link_number-le LinkState.disabled = refl
link_number-le LinkState.faulted = refl

pub small : (n k : ℕ) → leb n k ≡ true → k < 2 ^ 8 → n < 2 ^ 8
small n k h l = ground arith

-- The mount of a disk is a CDR string, and its numbers fit their types.
abbrev pub IsWireDisk : DiskUsage → Type 0
IsWireDisk disk = IsCdrText disk.mount × (disk.total_bytes < 2 ^ 64) × (disk.free_bytes < 2 ^ 64)

abbrev pub IsWireAdapter : NetworkAdapter → Type 0
IsWireAdapter adapter =
    IsCdrText adapter.name × IsCdrText adapter.description × IsCdrText adapter.id

module _ (C : CdrLibrary) where
  Gives-disk : (disk : DiskUsage) → IsWireDisk disk → Gives C (read_disk C) (disk_items C disk) disk
  unfolding read_disk
  Gives-disk disk h = give C _ _ _ disk.mount (Gives-text C disk.mount h.0) (
      give C _ _ _ disk.total_bytes (Gives-uint64 C disk.total_bytes h.1)
        (give C _ _ _ disk.free_bytes (Gives-uint64 C disk.free_bytes h.2) (Gives-return C disk)))

  -- The value that is read for an adapter, and that it is valid.
  abbrev valid_one : {A : Type 0} → A → A × Bool
  valid_one a = (a, true)

  Gives-adapter :
      (a : NetworkAdapter)
      → IsWireAdapter a
      → Gives C (read_adapter C) (adapter_items C a) (a, true)
  unfolding read_adapter
  Gives-adapter a h =
      let t = adapter_type_number a.type in
      let l = link_number a.link in
      let read : NetworkAdapter × Bool =
        (record a { type = adapter_type_of t; link = link_of l }, leb t 7 && leb l 6) in
      let same : read ≡ (a, true) = λ i. (
        record a { type = adapter_type_of-number a.type i; link = link_of-number a.link i },
        adapter_type_number-le a.type i && link_number-le a.link i,
      ) in
      subst (Gives C (read_adapter C) (adapter_items C a)) same (
        give C _ _ _ a.name (Gives-text C a.name h.0) (
          give C _ _ _ a.description (Gives-text C a.description h.1) (
            give C _ _ _ a.id (Gives-text C a.id h.2) (
              give C _ _ _ t
                (Gives-uint8 C t (small t 7 (adapter_type_number-le a.type) (omega arith)))
                (give C _ _ _ l (Gives-uint8 C l (small l 6 (link_number-le a.link) (omega arith)))
                  (Gives-return C read))))))

  pub Gives-vector :
      {A B : Type 0} (m : Read C B) (items : A → Items C) (g : A → B) (P : A → Type 0)
      → ((x : A) → P x → Gives C m (items x) (g x))
      → (xs : List A) → All P xs
      → length xs < 2 ^ 32
      → Gives C (read_vector C m) (vector_items C items xs) (map g xs)
  Gives-vector m items g P each xs h l =
      let e : length xs % 2 ^ 32 ≡ length xs = omega (arith, l) in
      rw e (
        give C (λ count. read_many C count m) _ _ (length xs) (Gives-uint32 C (length xs) l)
          (Gives-many C m items g P each xs h))

  -- The last value of a message.
  pub Gives-end :
      {A B : Type 0} {m : Read C A} {items : Items C} (a : A) (f : A → B)
      → Gives C m items a
      → Gives C (◌>>=◌ C m (λ x. return C (f x))) items (f a)
  Gives-end {A} {B} {m} {items} a f g =
      subst (λ is. Gives C (◌>>=◌ C m (λ x. return C (f x))) is (f a)) (append-nil items)
        (Gives-bind C (λ x. return C (f x)) items [] a g (Gives-return C (f a)))

  pub values-valid : {A : Type 0} (xs : List A) → values C (map (λ x. (x, true)) xs) ≡ xs
  values-valid [] = refl
  values-valid (x ∷ xs) = ap (λ ys. x ∷ ys) (values-valid xs)

  pub all_valid-valid : {A : Type 0} (xs : List A) → all_valid C (map (λ x. (x, true)) xs) ≡ true
  all_valid-valid [] = refl
  all_valid-valid (x ∷ xs) = all_valid-valid xs

  map_same : {A : Type 0} (xs : List A) → map (λ x. x) xs ≡ xs
  map_same [] = refl
  map_same (x ∷ xs) = ap (λ ys. x ∷ ys) (map_same xs)

  Gives-disks :
      (disks : List DiskUsage)
      → All IsWireDisk disks
      → length disks < 2 ^ 32
      → Gives C (read_vector C (read_disk C)) (vector_items C (disk_items C) disks) disks
  Gives-disks disks h l =
      subst (Gives C (read_vector C (read_disk C)) (vector_items C (disk_items C) disks))
        (map_same disks)
        (Gives-vector (read_disk C) (disk_items C) (λ x. x) IsWireDisk Gives-disk disks h l)

  disk-All : (disk : DiskUsage) → IsWireDisk disk → All IsWritable (disk_items C disk)
  disk-All disk (a, b, c) = (a, (tt, (tt, tt)))

  adapter-All : (x : NetworkAdapter) → IsWireAdapter x → All IsWritable (adapter_items C x)
  adapter-All x (a, b, c) = (a, (b, (c, (tt, (tt, tt)))))

  -- The texts of a sample are CDR strings, and its numbers and vectors fit their types.
  pub record IsWireSample (message : ResourceSampleMessage C.Double) : Type 0 where
    pub host_id : IsCdrText message.host_id
    pub total : message.sample.mem_total_bytes < 2 ^ 64
    pub used : message.sample.mem_used_bytes < 2 ^ 64
    pub disks : All IsWireDisk message.sample.disks
    pub disk_count : length message.sample.disks < 2 ^ 32
    pub adapters : All IsWireAdapter message.sample.adapters
    pub adapter_count : length message.sample.adapters < 2 ^ 32

  sample-All :
      (message : ResourceSampleMessage C.Double)
      → IsWireSample message
      → All IsWritable (sample_items C message)
  sample-All message h =
      let s = message.sample in
      (
        h.host_id,
        (
          tt,
          (
            tt,
            (
              tt,
              All-append IsWritable (vector_items C (disk_items C) s.disks)
                  (vector_items C (adapter_items C) s.adapters)
                  (tt, all_items-All C (disk_items C) IsWireDisk disk-All s.disks h.disks)
                  (
                    tt,
                    all_items-All C (adapter_items C) IsWireAdapter adapter-All s.adapters
                        h.adapters,
                  ),
            ),
          ),
        ),
      )

  -- A resource sample whose texts are CDR strings and whose numbers and vectors fit their types is
  -- encoded, and it is decoded from its bytes as it was, its disks and its adapters included.
  pub decode-encode_resources :
      (message : ResourceSampleMessage C.Double)
      → IsWireSample message
      → (bytes : Text) × (encode_resources C message ≡ some bytes)
        × (decode_resources C bytes ≡ some message)
  unfolding decode_resources encode_resources read_resources
  decode-encode_resources message h =
      let s = message.sample in
      let back : List (NetworkAdapter × Bool) → ResourceSampleMessage C.Double × Bool = λ as_read. (
        record { host_id = message.host_id; sample = record s { adapters = values C as_read } },
        all_valid C as_read,
      ) in
      let (bytes, e, d) =
        deserialise-write C (read_resources C) _ _ (back (map (λ x. (x, true)) s.adapters))
          (sample-All message h)
          (give C _ _ _ message.host_id (Gives-text C message.host_id h.host_id) (
            give C _ _ _ s.cpu_percent (Gives-double C s.cpu_percent) (
              give C _ _ _ s.mem_total_bytes (Gives-uint64 C s.mem_total_bytes h.total) (
                give C _ _ _ s.mem_used_bytes (Gives-uint64 C s.mem_used_bytes h.used) (
                  Gives-bind C _ (vector_items C (disk_items C) s.disks)
                    (vector_items C (adapter_items C) s.adapters) s.disks
                    (Gives-disks s.disks h.disks h.disk_count)
                    (Gives-end (map (λ x. (x, true)) s.adapters) back (
                      Gives-vector (read_adapter C) (adapter_items C) (λ x. (x, true)) IsWireAdapter
                        Gives-adapter s.adapters h.adapters h.adapter_count))))))) in
      (bytes, e, ap (if_valid C) d ∙ rw (values-valid s.adapters, all_valid-valid s.adapters) refl)
