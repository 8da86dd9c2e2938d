-- ===== src/Transcode.antt =====
-- unmarshal.go and then marshal.go: a block is decoded into a builder of a PBNode, and the node that it
-- builds is encoded.
use go_codec_dagpb.Common.{◌≡◌, ap, ◌∙◌, sym, Bytes, []}
use go_codec_dagpb.Outcome.{Outcome, ok, ◌>>=◌, bind_assoc}
use go_codec_dagpb.Message.{Message}
use go_codec_dagpb.Node.{Node, Typed}
use go_codec_dagpb.Wire.{Protowire, IsReader, IsWriter, IsCodec, Cids}
use go_codec_dagpb.Assembler.Root
use go_codec_dagpb.Marshal.Image.{data_image, image, sorted, CanEncode}
use go_codec_dagpb.Marshal.Append.{append_encode}
use go_codec_dagpb.Marshal.Encoded.{CanEncode-sorted}
use go_codec_dagpb.Marshal.Encodable.{append_encode-image}
use go_codec_dagpb.Parser.Grammar.{IsBlock, links_then_data}
use go_codec_dagpb.Parser.Images.{links_image-IsLinks, data_image-IsData}
use go_codec_dagpb.RoundTrip.{sorted_idem}
use go_codec_dagpb.Unmarshal.Target.{node_builder}
use go_codec_dagpb.Unmarshal.Node.{decode_bytes}
use go_codec_dagpb.Unmarshal.Accepts.{decode_bytes-IsBlock}

module _ {C : Type 0} (p : Protowire) (k : Cids C) where
  abbrev pub transcode : Bytes → Outcome Bytes
  transcode src = do
    builder ← decode_bytes p k node_builder src Root.new_builder
    n ← Root.build builder
    append_encode p k [] (Node.typed (Typed.pb_node n))

module _ {C : Type 0} (p : Protowire) (r : IsReader p) (w : IsWriter p) (q : IsCodec p)
    (k : Cids C) where
  transcode-image :
      (src : Bytes) (m : Message C)
      → IsBlock p k src m
      → CanEncode p k m
      → transcode p k src ≡ ok (image p k (sorted m))
  transcode-image src m is c =
      sym (bind_assoc (decode_bytes p k node_builder src Root.new_builder) Root.build _)
      ∙ rw ((decode_bytes-IsBlock p r k src m).1 is) (append_encode-image p w k m [] c)

  sorted-IsBlock : (m : Message C) → CanEncode p k m → IsBlock p k (image p k (sorted m)) (sorted m)
  sorted-IsBlock m c =
      let fits = CanEncode-sorted p w k m c in
      links_then_data
        (links_image-IsLinks p q k (sorted m).links (data_image p k m.bytes) fits.links_fit)
        (data_image-IsData p q k m.bytes fits.data_fits)

  -- A block of the grammar for a message that can be encoded, in whatever form it was written, is
  -- decoded and encoded again as a block for that message with its links in the stable order of
  -- their names. To decode and encode that block again gives the same bytes.
  pub transcode-normal :
      (src : Bytes) (m : Message C)
      → IsBlock p k src m
      → CanEncode p k m
      → (out : Bytes) × (transcode p k src ≡ ok out)
        × IsBlock p k out (sorted m)
        × (transcode p k out ≡ ok out)
  transcode-normal src m is c = (
    image p k (sorted m),
    transcode-image src m is c,
    sorted-IsBlock m c,
    transcode-image (image p k (sorted m)) (sorted m) (sorted-IsBlock m c)
          (CanEncode-sorted p w k m c)
        ∙ ap (λ m'. ok (image p k m')) (sorted_idem m),
  )
