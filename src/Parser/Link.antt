-- ===== src/Parser/Link.antt =====
-- The link that the bytes of one message of the Links field stand for, or the error of the first
-- thing in them that is wrong.
use go_codec_dagpb.Common.{
  ℕ, zero, suc, ℤ, to_int64, Bytes, Option, none, some, [], ◌∷◌, length, ◌==◌, not, if◌then◌else◌,
}
use go_codec_dagpb.Outcome.{
  Outcome, ok, err, stuck, duplicate_hash, name_before_hash, tsize_before_hash, hash_wire_type,
  duplicate_name, tsize_before_name, name_wire_type, duplicate_tsize, tsize_wire_type, link_field,
  missing_hash, reject_if, ◌>>=◌, ◌>>◌,
}
use go_codec_dagpb.Message.{LinkValue}
use go_codec_dagpb.Wire.{Protowire, Cids}
use go_codec_dagpb.Unmarshal.Link.{consumed, read_cid}

-- The fields that were read.
pub record Parts (C : Type 0) : Type 0 where
  pub hash : Option C
  pub name : Option Bytes
  pub tsize : Option ℤ

abbrev pub parts : {C : Type 0} → Option C → Option Bytes → Option ℤ → Parts C
parts h n t = record { hash = h; name = n; tsize = t }

module _ {C : Type 0} (p : Protowire) (k : Cids C) where
  -- A field's value, from its wire type, what follows its tag, and the fields before it.
  abbrev pub hash_part : ℕ → Bytes → Option C → Option Bytes → Option ℤ → Outcome (Bytes × Parts C)
  hash_part typ b (some h) n t = err duplicate_hash
  hash_part typ b none (some n) t = err name_before_hash
  hash_part typ b none none (some t) = err tsize_before_hash
  hash_part typ b none none none = do
    reject_if (not (typ == 2)) (hash_wire_type typ)
    rest ← consumed (p.consume_bytes b).1 b
    c ← read_cid k (p.consume_bytes b).0
    ok (rest, parts (some c) none none)

  abbrev pub name_part : ℕ → Bytes → Option C → Option Bytes → Option ℤ → Outcome (Bytes × Parts C)
  name_part typ b h (some n) t = err duplicate_name
  name_part typ b h none (some t) = err tsize_before_name
  name_part typ b h none none = do
    reject_if (not (typ == 2)) (name_wire_type typ)
    rest ← consumed (p.consume_bytes b).1 b
    ok (rest, parts h (some (p.consume_bytes b).0) none)

  abbrev pub tsize_part : ℕ → Bytes → Option C → Option Bytes → Option ℤ → Outcome (Bytes × Parts C)
  tsize_part typ b h n (some t) = err duplicate_tsize
  tsize_part typ b h n none = do
    reject_if (not (typ == 0)) (tsize_wire_type typ)
    rest ← consumed (p.consume_varint b).1 b
    ok (rest, parts h n (some (to_int64 (p.consume_varint b).0)))

  unfoldable pub part : Bytes → Option C → Option Bytes → Option ℤ → Outcome (Bytes × Parts C)
  part b h n t = do
    rest ← consumed (p.consume_tag b).2 b
    if (p.consume_tag b).0 == 1
        then hash_part (p.consume_tag b).1 rest h n t
        else if (p.consume_tag b).0 == 2
        then name_part (p.consume_tag b).1 rest h n t
        else if (p.consume_tag b).0 == 3
        then tsize_part (p.consume_tag b).1 rest h n t
        else err (link_field (p.consume_tag b).0)

  -- A link has a Hash.
  abbrev pub whole : Option C → Option Bytes → Option ℤ → Outcome (LinkValue C)
  whole none n t = err missing_hash
  whole (some h) n t = ok (record { hash = h; name = n; tsize = t })

  unfoldable pub parse_rest : ℕ → Bytes → Option C → Option Bytes → Option ℤ → Outcome (LinkValue C)
  parse_rest fuel [] h n t = whole h n t
  parse_rest zero (b ∷ bs) h n t = stuck
  parse_rest (suc fuel) (b ∷ bs) h n t = do
    (rest, q) ← part (b ∷ bs) h n t
    parse_rest fuel rest q.hash q.name q.tsize

  unfoldable pub parse_link : Bytes → Outcome (LinkValue C)
  unfolding parse_rest part consumed read_cid
  parse_link b = parse_rest (length b) b none none none
