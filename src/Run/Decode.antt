-- ===== src/Run/Decode.antt =====
-- Runs of the decoder on the byte strings of compat_test.go.
use go_codec_dagpb.Common.{Bytes, ◌≡◌, refl, [], ◌∷◌, pos}
use go_codec_dagpb.Outcome.{Outcome, ok, err, missing_hash, ◌>>=◌}
use go_codec_dagpb.Schema.{PbNode, Maybe, cid_link}
use go_codec_dagpb.Assembler.Root
use go_codec_dagpb.Unmarshal.Target.{node_builder}
use go_codec_dagpb.Unmarshal.Node.{decode_bytes}
use go_codec_dagpb.Run.Wire.{wire}
use go_codec_dagpb.Run.Cid.{Cid, cids}

decoded : Bytes → Outcome (PbNode Cid)
unfolding decode_bytes wire cids node_builder Root.build Root.new_builder
decoded b = do a ← decode_bytes wire cids node_builder b Root.new_builder; Root.build a

-- "Links empty"
links_empty : decoded (0x12 ∷ 0x00 ∷ []) ≡ err missing_hash
unfolding decoded
links_empty = refl

-- "Links Hash some"
links_hash_some :
    decoded (0x12 ∷ 0x0b ∷ 0x0a ∷ 0x09 ∷ 1 ∷ 0x55 ∷ 0 ∷ 5 ∷ 0 ∷ 1 ∷ 2 ∷ 3 ∷ 4 ∷ [])
    ≡ ok (record {
      links = record {
        x =
            record {
              hash = cid_link (record { codec = 0x55; digest = 0 ∷ 1 ∷ 2 ∷ 3 ∷ 4 ∷ [] });
              name = record { m = Maybe.absent; v = [] };
              tsize = record { m = Maybe.absent; v = pos 0 };
            }
            ∷ [];
      };
      bytes = record { m = Maybe.absent; v = [] };
    })
unfolding decoded
links_hash_some = refl
