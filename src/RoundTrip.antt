-- ===== src/RoundTrip.antt =====
-- marshal.go and unmarshal.go together: what is encoded is decoded, and the order of the links.
use go_codec_dagpb.Common.{◌≡◌, ap, ◌∙◌, sym, Bytes, [], ◌++◌, less-asym, less-negative_trans}
use go_codec_dagpb.Outcome.{ok}
use go_codec_dagpb.Message.{Message, node_of}
use go_codec_dagpb.Node.{Node, Typed}
use go_codec_dagpb.Wire.{Protowire, IsReader, IsWriter, IsCodec, Cids}
use go_codec_dagpb.Assembler.Root
use go_codec_dagpb.Marshal.Image.{or_empty, image, sorted, name_less, CanEncode}
use go_codec_dagpb.Marshal.Append.{append_encode}
use go_codec_dagpb.Marshal.Encoded.{CanEncode-sorted}
use go_codec_dagpb.Marshal.Encodable.{append_encode-image}
use go_codec_dagpb.Marshal.Order.{stable_sort-IsOrdered, stable_sort-of_IsOrdered}
use go_codec_dagpb.Unmarshal.Target.{node_builder}
use go_codec_dagpb.Unmarshal.Node.{decode_bytes}
use go_codec_dagpb.Unmarshal.NodeImage.{decode_bytes-image}
use go_codec_dagpb.Unmarshal.ReplayBuilder.{Yields, Yields-replay}

module _ {C : Type 0} where
  pub sorted_idem : (m : Message C) → sorted (sorted m) ≡ sorted m
  sorted_idem m =
      ap (λ ls. record m { links = ls })
        (stable_sort-of_IsOrdered name_less _ (
          stable_sort-IsOrdered name_less (λ x y. less-asym (or_empty x.name) (or_empty y.name))
            (λ x y z. less-negative_trans (or_empty x.name) (or_empty y.name) (or_empty z.name))
            m.links))

module _ {C : Type 0} (p : Protowire) (r : IsReader p) (w : IsWriter p) (q : IsCodec p)
    (k : Cids C) where
  -- A message that can be encoded is encoded, and the builder of a PBNode that decodes the bytes
  -- builds the node of the message with its links in the stable order of their names.
  pub decode_bytes-append_encode :
      (m : Message C)
      → CanEncode p k m
      → (out : Bytes) × (append_encode p k [] (Node.typed (Typed.pb_node (node_of m))) ≡ ok out)
        × Yields (sorted m) (decode_bytes p k node_builder out Root.new_builder)
  decode_bytes-append_encode m c = (
    _,
    append_encode-image p w k m [] c,
    rw
        (decode_bytes-image p r q k node_builder (sorted m) Root.new_builder
          (CanEncode-sorted p w k m c))
        (Yields-replay (sorted m)),
  )

  -- The node that was decoded from the bytes of a message is encoded to the same bytes.
  pub append_encode-sorted :
      (m : Message C) (enc : Bytes)
      → CanEncode p k m
      → append_encode p k enc (Node.typed (Typed.pb_node (node_of (sorted m))))
        ≡ append_encode p k enc (Node.typed (Typed.pb_node (node_of m)))
  append_encode-sorted m enc c =
      append_encode-image p w k (sorted m) enc (CanEncode-sorted p w k m c)
      ∙ ap (λ m'. ok (enc ++ image p k m')) (sorted_idem m)
      ∙ sym (append_encode-image p w k m enc c)
