-- ===== src/Codec/Legacy.antt =====
-- An announce of an older client, of libs/transport/src/codec.cpp.
use lab_monitor.Base.{◌<◌, ◌^◌, ◌≡◌, refl, false, some, [], ◌∷◌, Text}
use lab_monitor.Bus.{ClientAnnounce}
use lab_monitor.Codec.Cdr.{Item, CdrLibrary, IsCdrText}
use lab_monitor.Codec.{Items, decode_announce, read_announce, deserialise}

module _ (C : CdrLibrary) where
  -- The items of an announce that ends before the flag for the pause.
  abbrev pub legacy_items : ClientAnnounce → Items C
  legacy_items message =
      Item.text_item message.host_id
      ∷ Item.text_item message.agent_version
      ∷ Item.uint32_item message.capabilities
      ∷ []

  -- An announce whose texts are CDR strings, and that ends before the flag for the pause, is decoded
  -- all the same, as one of a client that is not paused.
  pub decode_announce-legacy :
      (message : ClientAnnounce)
      → IsCdrText message.host_id
      → IsCdrText message.agent_version
      → message.capabilities < 2 ^ 32
      → (bytes : Text) × (C.write (legacy_items message) ≡ some bytes)
        × (decode_announce C bytes ≡ some (record message { paused = false }))
  unfolding decode_announce read_announce deserialise
  decode_announce-legacy message p q h =
      let (bytes, w, nonempty, o) =
        C.written (Item.text_item message.host_id) _ (p, (q, (tt, tt))) in
      let (a, d, s) = C.reads_text (C.open_reader bytes) message.host_id _ p o in
      let (b, e, t) = C.reads_text a message.agent_version _ q s in
      let (c, f, u) = C.reads_uint32 b message.capabilities [] h t in
      (bytes, w, rw (nonempty, d, e, f, C.at_end c u) refl)
