-- ===== src/Parser/Block.antt =====
-- The message that the bytes of a block stand for, or the error of the first thing in them that is
-- wrong.
use go_codec_dagpb.Common.{
  ℕ, zero, suc, Bytes, Option, none, some, List, [], ◌∷◌, ◌++◌, length, ◌==◌, not, if◌then◌else◌,
}
use go_codec_dagpb.Outcome.{
  Outcome, ok, err, stuck, node_wire_type, duplicate_data, duplicate_links, node_field, reject_if,
  ◌>>=◌, ◌>>◌,
}
use go_codec_dagpb.Message.{LinkValue, Message}
use go_codec_dagpb.Wire.{Protowire, Cids}
use go_codec_dagpb.Unmarshal.Link.{consumed}
use go_codec_dagpb.Parser.Link.{parse_link}

-- What the block has had so far. In `in_links` and `data_last` the last link stands apart.
pub data Phase (C : Type 0) : Type 0 where
  fresh : Phase C
  data_first : Bytes → Phase C
  in_links : Option Bytes → List (LinkValue C) → LinkValue C → Phase C
  data_last : List (LinkValue C) → LinkValue C → Bytes → Phase C

module _ {C : Type 0} where
  abbrev pub row : LinkValue C → List (LinkValue C)
  row l = l ∷ []

  abbrev pub message_at : Phase C → Message C
  message_at fresh = record { links = []; bytes = none }
  message_at (data_first b) = record { links = []; bytes = some b }
  message_at (in_links d ls l) = record { links = ls ++ row l; bytes = d }
  message_at (data_last ls l b) = record { links = ls ++ row l; bytes = some b }

module _ {C : Type 0} (p : Protowire) (k : Cids C) where
  -- A field's value, from what follows its tag.
  abbrev pub data_part : Bytes → Phase C → Outcome (Bytes × Phase C)
  data_part b (data_first _) = err duplicate_data
  data_part b (data_last _ _ _) = err duplicate_data
  data_part b (in_links (some _) _ _) = err duplicate_data
  data_part b fresh = do
    rest ← consumed (p.consume_bytes b).1 b
    ok (rest, data_first (p.consume_bytes b).0)
  data_part b (in_links none ls l) = do
    rest ← consumed (p.consume_bytes b).1 b
    ok (rest, data_last ls l (p.consume_bytes b).0)

  abbrev pub link_part : Bytes → Phase C → Outcome (Bytes × Phase C)
  link_part b (data_last _ _ _) = do rest ← consumed (p.consume_bytes b).1 b; err duplicate_links
  link_part b fresh = do
    rest ← consumed (p.consume_bytes b).1 b
    l ← parse_link p k (p.consume_bytes b).0
    ok (rest, in_links none [] l)
  link_part b (data_first d) = do
    rest ← consumed (p.consume_bytes b).1 b
    l ← parse_link p k (p.consume_bytes b).0
    ok (rest, in_links (some d) [] l)
  link_part b (in_links d ls l') = do
    rest ← consumed (p.consume_bytes b).1 b
    l ← parse_link p k (p.consume_bytes b).0
    ok (rest, in_links d (ls ++ row l') l)

  unfoldable pub part : Bytes → Phase C → Outcome (Bytes × Phase C)
  part b ph = do
    rest ← consumed (p.consume_tag b).2 b
    reject_if (not ((p.consume_tag b).1 == 2)) (node_wire_type (p.consume_tag b).1)
    if (p.consume_tag b).0 == 1
        then data_part rest ph
        else if (p.consume_tag b).0 == 2
        then link_part rest ph
        else err (node_field (p.consume_tag b).0)

  unfoldable pub parse_rest : ℕ → Bytes → Phase C → Outcome (Message C)
  parse_rest fuel [] ph = ok (message_at ph)
  parse_rest zero (b ∷ bs) ph = stuck
  parse_rest (suc fuel) (b ∷ bs) ph = do (rest, ph') ← part (b ∷ bs) ph; parse_rest fuel rest ph'

  unfoldable pub parse_block : Bytes → Outcome (Message C)
  unfolding parse_rest part parse_link consumed
  parse_block b = parse_rest (length b) b fresh
