-- ===== src/Multicodec/Registered.antt =====
-- The codec as the registry of multicodec hands it out.
use go_codec_dagpb.Common.{◌≡◌, refl, ◌∙◌, Bytes, some, []}
use go_codec_dagpb.Outcome.{Outcome, ok}
use go_codec_dagpb.Message.{Message, node_of}
use go_codec_dagpb.Node.{Node, Typed}
use go_codec_dagpb.Wire.{Protowire, IsReader, IsWriter, IsCodec, Cids}
use go_codec_dagpb.Assembler.Root
use go_codec_dagpb.Assembler.Root.{RootAssembler}
use go_codec_dagpb.Marshal.Image.{CanEncode, image, sorted}
use go_codec_dagpb.Marshal.Append.{encode}
use go_codec_dagpb.Unmarshal.Target.{node_builder}
use go_codec_dagpb.Unmarshal.Node.{buffer, stream, decode_bytes, decode}
use go_codec_dagpb.Unmarshal.ReplayBuilder.{Yields, Yields-replay}
use go_codec_dagpb.Multicodec.{Decoder, Encoder, Registry, IsRegistry, init}
use go_codec_dagpb.Marshal.Encoded.{CanEncode-sorted}
use go_codec_dagpb.Marshal.Encodable.{append_encode-image}
use go_codec_dagpb.Unmarshal.NodeImage.{decode_bytes-image}

module _ {C R W : Type 0} (p : Protowire) (k : Cids C) where
  -- After init the registry has an encoder and a decoder under 0x70. For a message that can be
  -- encoded, the encoder leaves any writer in the state of one Write, of the bytes of the message with
  -- its links in the stable order of their names, and returns what that Write returns; the decoder
  -- reads from a buffer of these bytes, and from a stream of them, the node of that message into a new
  -- builder of a PBNode.
  pub init-registered :
      (r : IsReader p) (w : IsWriter p) (q : IsCodec p)
      (g : Registry (Decoder (RootAssembler C)) (Encoder W C) R) (lawful : IsRegistry g) (reg : R)
      (write : Bytes → W → W × Outcome (Unit {0})) (s : W) (m : Message C)
      → CanEncode p k m
      → (enc : Encoder W C) × (dec : Decoder (RootAssembler C)) × (g.lookup_encoder 0x70
            (init p k node_builder g reg)
          ≡ some enc)
        × (g.lookup_decoder 0x70 (init p k node_builder g reg) ≡ some dec)
        × (enc (Node.typed (Typed.pb_node (node_of m))) write s ≡ write (image p k (sorted m)) s)
        × Yields (sorted m) (dec (buffer (image p k (sorted m))) Root.new_builder)
        × Yields (sorted m) (dec (stream (ok (image p k (sorted m)))) Root.new_builder)
  unfolding init encode decode
  init-registered r w q g lawful reg write s m c =
      let decoded : Yields (sorted m)
          (decode_bytes p k node_builder (image p k (sorted m)) Root.new_builder) =
        rw
          (decode_bytes-image p r q k node_builder (sorted m) Root.new_builder
            (CanEncode-sorted p w k m c))
          (Yields-replay (sorted m)) in
      (
        encode p k,
        decode p k node_builder,
        lawful.encoder_found 0x70 _ _,
        lawful.decoder_kept 0x70 0x70 _ _ ∙ lawful.decoder_found 0x70 _ _,
        rw (append_encode-image p w k m [] c, encode) refl,
        decoded,
        decoded,
      )
