-- ===== src/Run/Blocks.antt =====
-- The theorems on all blocks and all typed nodes, at concrete ones.
use go_codec_dagpb.Common.{
  ◌≡◌, refl, ◌<◌, ◌^◌, ◌↔◌, negsuc, Bytes, none, some, [], ◌∷◌, ◌++◌, length, arith,
}
use go_codec_dagpb.Outcome.{ok, Returns, ◌>>=◌}
use go_codec_dagpb.Outcome.Follows.{Follows}
use go_codec_dagpb.Schema.{PbNode, cid_link}
use go_codec_dagpb.Message.{Message, LinkValue, link_of, node_of}
use go_codec_dagpb.Node.{Node, Typed}
use go_codec_dagpb.Assembler.Root
use go_codec_dagpb.Marshal.Append.{append_encode}
use go_codec_dagpb.Marshal.Image.{image, sorted, CanEncode}
use go_codec_dagpb.Transcode.{transcode, transcode-normal}
use go_codec_dagpb.Marshal.Encoded.{append_encode-message_of}
use go_codec_dagpb.Reference.MessageOf.{message_of, InGo}
use go_codec_dagpb.Unmarshal.Target.{node_builder}
use go_codec_dagpb.Unmarshal.Link.{unmarshal_link}
use go_codec_dagpb.Unmarshal.Node.{decode_bytes}
use go_codec_dagpb.Unmarshal.Row.{in_row, row_state}
use go_codec_dagpb.Unmarshal.LinkTotal.{Holds, unmarshal_link-parse_link}
use go_codec_dagpb.Unmarshal.NodeTotal.{decode_bytes-Returns, decode_bytes-parse_block}
use go_codec_dagpb.Unmarshal.Accepts.{decode_bytes-IsBlock}
use go_codec_dagpb.Parser.Link.{parse_link}
use go_codec_dagpb.Parser.Block.{parse_block}
use go_codec_dagpb.Parser.Grammar.{IsBlock, IsLink}
use go_codec_dagpb.Parser.LinkSound.{parse_link-IsLink}
use go_codec_dagpb.Parser.BlockSound.{parse_block-IsBlock}
use go_codec_dagpb.Unmarshal.Replay.{replay_block, replay_fields}
use go_codec_dagpb.Unmarshal.LinkCalls.{unmarshal_link-IsLink}
use go_codec_dagpb.Unmarshal.NodeCalls.{decode_bytes-replay_block}
use go_codec_dagpb.Outcome.AllOk.{AllOk-ok}
use go_codec_dagpb.Run.Wire.{wire, wire-IsReader, wire-IsWriter, wire-IsCodec}
use go_codec_dagpb.Run.Cid.{Cid, cids, cids-IsDefined}
use mathlib.Core.Path.{subst}

abbrev link : LinkValue Cid
link = record {
  hash = record { codec = 0x55; digest = 0 ∷ 1 ∷ [] };
  name = some (97 ∷ []);
  tsize = none;
}

-- Data in front of a link with a Hash and a Name.
abbrev block : Bytes
block = 0x0a ∷ 1 ∷ 9 ∷ 0x12 ∷ 11 ∷ 0x0a ∷ 6 ∷ 1 ∷ 0x55 ∷ 0 ∷ 2 ∷ 0 ∷ 1 ∷ 0x12 ∷ 1 ∷ 97 ∷ []

abbrev message : Message Cid
message = record { links = link ∷ []; bytes = some (9 ∷ []) }

decode_bytes-IsBlock_example :
    ((do builder ← decode_bytes wire cids node_builder block Root.new_builder; Root.build builder)
      ≡ ok (node_of message))
    ↔ IsBlock wire cids block message
decode_bytes-IsBlock_example = decode_bytes-IsBlock wire wire-IsReader cids block message

decode_bytes-parse_block_example :
    (do builder ← decode_bytes wire cids node_builder block Root.new_builder; Root.build builder)
    ≡ (do m ← parse_block wire cids block; ok (node_of m))
decode_bytes-parse_block_example = decode_bytes-parse_block wire wire-IsReader cids block

decode_bytes-Returns_example :
    Returns
      (λ a. (m : Message Cid) × (Root.build a ≡ ok (node_of m)))
      (decode_bytes wire cids node_builder (0x12 ∷ 0x02 ∷ 0x0a ∷ []) Root.new_builder)
decode_bytes-Returns_example =
    decode_bytes-Returns wire wire-IsReader cids (0x12 ∷ 0x02 ∷ 0x0a ∷ [])

unmarshal_link-parse_link_example :
    Follows
      (Holds wire wire-IsReader cids none [] 0)
      (unmarshal_link wire cids node_builder
        (0x12 ∷ [])
        (in_row none [] (row_state 0 none none none)))
      (parse_link wire cids (0x12 ∷ []))
unmarshal_link-parse_link_example =
    unmarshal_link-parse_link wire wire-IsReader cids none [] 0 (0x12 ∷ [])

-- What the theorem says of `block` is that it is accepted.
block_parsed : parse_block wire cids block ≡ ok message
unfolding parse_block wire cids
block_parsed = refl

-- A node with a negative Tsize.
abbrev refused : PbNode Cid
refused = node_of (record message { links = record link { tsize = some (negsuc 4) } ∷ [] })

cid_fits : (c : Cid) → cid_link link.hash ≡ cid_link c → length (cids.to_bytes c) < 2 ^ 63
unfolding cids
cid_fits c e =
    let same : link.hash ≡ c = cc in
    subst (λ c. length (cids.to_bytes c) < 2 ^ 63) same (omega arith)

refused-InGo : InGo cids (link_of (record link { tsize = some (negsuc 4) }))
refused-InGo = record { cid_fits = cid_fits; name_fits = omega arith; tsize_fits = omega arith }

append_encode-message_of_example :
    append_encode wire cids [] (Node.typed (Typed.pb_node refused))
    ≡ (do m ← message_of refused; ok ([] ++ image wire cids (sorted m)))
append_encode-message_of_example =
    append_encode-message_of wire wire-IsWriter cids refused [] (refused-InGo, tt)

block-IsBlock : IsBlock wire cids block message
block-IsBlock = AllOk-ok (parse_block-IsBlock wire cids block) block_parsed

decode_bytes-replay_block_example :
    decode_bytes wire cids node_builder block Root.new_builder
    ≡ replay_block node_builder wire cids block-IsBlock Root.new_builder
decode_bytes-replay_block_example =
    decode_bytes-replay_block wire wire-IsReader cids node_builder block message Root.new_builder
      block-IsBlock

-- The link of `block`.
abbrev link_bytes : Bytes
link_bytes = 0x0a ∷ 6 ∷ 1 ∷ 0x55 ∷ 0 ∷ 2 ∷ 0 ∷ 1 ∷ 0x12 ∷ 1 ∷ 97 ∷ []

link_parsed : parse_link wire cids link_bytes ≡ ok link
unfolding parse_link wire cids
link_parsed = refl

link-IsLink : IsLink wire cids link_bytes link
link-IsLink = AllOk-ok (parse_link-IsLink wire cids link_bytes) link_parsed

unmarshal_link-IsLink_example :
    unmarshal_link wire cids node_builder link_bytes (in_row none [] (row_state 0 none none none))
    ≡ replay_fields node_builder link (in_row none [] (row_state 0 none none none))
unmarshal_link-IsLink_example =
    unmarshal_link-IsLink wire wire-IsReader cids node_builder link_bytes link _ link-IsLink

message-CanEncode : CanEncode wire cids message
unfolding wire cids
message-CanEncode = record {
  links_fit = (
    record { defined = cids-IsDefined link.hash; tsize_fits = tt; length_fits = omega arith },
    tt,
  );
  data_fits = omega arith;
}

transcode-normal_example :
    (out : Bytes) × (transcode wire cids block ≡ ok out)
    × IsBlock wire cids out (sorted message)
    × (transcode wire cids out ≡ ok out)
transcode-normal_example =
    transcode-normal wire wire-IsReader wire-IsWriter wire-IsCodec cids block message block-IsBlock
      message-CanEncode
