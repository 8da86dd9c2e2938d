-- ===== src/Unmarshal/DataFirst.antt =====
-- `DecodeBytes` on blocks that have Data before Links, as older software wrote them.
use go_codec_dagpb.Common.{
  ◌<◌, ◌^◌, ◌≡◌, refl, Bytes, some, List, [], ◌∷◌, ◌++◌, length, append-nil, arith, All,
}
use go_codec_dagpb.Outcome.{Outcome, ok, err, panic, stuck, ◌>>=◌}
use go_codec_dagpb.Message.{LinkValue, Message, node_of}
use go_codec_dagpb.Wire.{Protowire, IsReader, IsCodec, Cids}
use go_codec_dagpb.Assembler.Root
use go_codec_dagpb.Assembler.Root.{RootAssembler}
use go_codec_dagpb.Marshal.Image.{delimited, links_image, IsEncodable}
use go_codec_dagpb.Parser.Grammar.{data_field, data_then_links}
use go_codec_dagpb.Parser.Images.{delimited-Field, links_image-IsLinks}
use go_codec_dagpb.Unmarshal.Target.{node_builder}
use go_codec_dagpb.Unmarshal.Node.{decode_bytes}
use go_codec_dagpb.Unmarshal.Accepts.{decode_bytes-IsBlock}
use go_codec_dagpb.Unmarshal.ReplayBuilder.{Yields}

module _ {C : Type 0} where
  -- What Build is given by.
  build-Yields :
      (m : Message C) (o : Outcome (RootAssembler C))
      → (do builder ← o; Root.build builder) ≡ ok (node_of m)
      → Yields m o
  build-Yields m (ok a) e = (a, refl, e)
  build-Yields m (err x) e = absurd (cc)
  build-Yields m (panic x) e = absurd (cc)
  build-Yields m stuck e = absurd (cc)

module _ {C : Type 0} (p : Protowire) (r : IsReader p) (q : IsCodec p) (k : Cids C) where
  -- Data may come before the links: for a Data field and links that can be encoded, at least one of
  -- them, DecodeBytes builds the same node from Data followed by the links as from the order that
  -- the encoder writes.
  pub decode_bytes-data_first :
      (b : Bytes) (l : LinkValue C) (ls : List (LinkValue C))
      → length b < 2 ^ 63
      → All (IsEncodable p k) (l ∷ ls)
      → Yields
          (record { links = l ∷ ls; bytes = some b })
          (decode_bytes p k node_builder
            (delimited p k 1 b ++ links_image p k (l ∷ ls))
            Root.new_builder)
  decode_bytes-data_first b l ls h es =
      let m : Message C = record { links = l ∷ ls; bytes = some b } in
      let (c, tag, value) =
        delimited-Field p q k 1 b (links_image p k (l ∷ ls)) (omega arith) (omega arith) h in
      let links = links_image-IsLinks p q k (l ∷ ls) [] es in
      build-Yields m _ (
        (decode_bytes-IsBlock p r k (delimited p k 1 b ++ links_image p k (l ∷ ls)) m).1
          (data_then_links (data_field tag value) (rw append-nil at links)))
