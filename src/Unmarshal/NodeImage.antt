-- ===== src/Unmarshal/NodeImage.antt =====
-- `DecodeBytes` on the bytes of a message, into any target.
use go_codec_dagpb.Common.{◌≡◌}
use go_codec_dagpb.Message.{Message}
use go_codec_dagpb.Wire.{Protowire, IsReader, IsCodec, Cids}
use go_codec_dagpb.Marshal.Image.{image, data_image, CanEncode}
use go_codec_dagpb.Parser.Grammar.{links_then_data}
use go_codec_dagpb.Parser.Images.{links_image-IsLinks, data_image-IsData}
use go_codec_dagpb.Unmarshal.Target.{Target}
use go_codec_dagpb.Unmarshal.Node.{decode_bytes}
use go_codec_dagpb.Unmarshal.NodeCalls.{decode_bytes-replay_block}
use go_codec_dagpb.Unmarshal.Replay.{replay}

module _ {C S : Type 0} (p : Protowire) (r : IsReader p) (q : IsCodec p) (k : Cids C)
    (t : Target C S) where
  -- The bytes of a message make the decoder replay the message.
  pub decode_bytes-image :
      (m : Message C) (s : S) → CanEncode p k m → decode_bytes p k t (image p k m) s ≡ replay t m s
  decode_bytes-image m s c = decode_bytes-replay_block p r k t (image p k m) m s (
      links_then_data (links_image-IsLinks p q k m.links (data_image p k m.bytes) c.links_fit)
        (data_image-IsData p q k m.bytes c.data_fits))
