-- ===== src/Parser/Grammar.antt =====
-- The blocks that are in order, by the order of their fields: a block is Data and the links, or the
-- links and Data; a link is Hash, Name and Tsize in this order, the last two optional.
use go_codec_dagpb.Common.{
  ℕ, ℤ, pos, to_int64, Bytes, Option, none, some, List, [], ◌∷◌, drop, ◌≡◌, inr,
}
use go_codec_dagpb.Message.{LinkValue, Message}
use go_codec_dagpb.Wire.{Protowire, Cids}

module _ (p : Protowire) where
  -- `b` is a tag of field `num` and wire type `typ`, and then `rest`.
  abbrev pub IsTag : ℕ → ℕ → Bytes → Bytes → Type 0
  IsTag num typ b rest = (n : ℕ) × (p.consume_tag b ≡ (num, typ, pos n)) × (rest ≡ drop n b)

  -- `b` is a length-delimited value, and then `rest`.
  abbrev pub IsChunk : Bytes → Bytes → Bytes → Type 0
  IsChunk v b rest = (n : ℕ) × (p.consume_bytes b ≡ (v, pos n)) × (rest ≡ drop n b)

  -- `b` is a varint, and then `rest`.
  abbrev pub IsVarint : ℕ → Bytes → Bytes → Type 0
  IsVarint v b rest = (n : ℕ) × (p.consume_varint b ≡ (v, pos n)) × (rest ≡ drop n b)

  pub data IsTsize (b : Bytes) : Option ℤ → Type 0 where
    no_tsize : b ≡ [] → IsTsize b none
    tsize :
        {c e : Bytes} {v : ℕ}
        → IsTag 3 0 b c
        → IsVarint v c e
        → e ≡ []
        → IsTsize b (some (to_int64 v))

  pub data IsName (b : Bytes) (t : Option ℤ) : Option Bytes → Type 0 where
    no_name : IsTsize b t → IsName b t none
    name : {c e n : Bytes} → IsTag 2 2 b c → IsChunk n c e → IsTsize e t → IsName b t (some n)

  module _ {C : Type 0} (k : Cids C) where
    -- The Hash field's value begins with a CID.
    pub record IsLink (b : Bytes) (l : LinkValue C) : Type 0 where
      pub after_tag : Bytes
      pub after_hash : Bytes
      pub raw : Bytes
      pub read : ℕ
      pub tagged : IsTag 1 2 b after_tag
      pub valued : IsChunk raw after_tag after_hash
      pub hashed : k.from_bytes raw ≡ inr (read, l.hash)
      pub named : IsName after_hash l.tsize l.name

    -- `b` is the links `ls`, and then `rest`.
    pub data IsLinks (rest : Bytes) : Bytes → List (LinkValue C) → Type 0 where
      no_links : {b : Bytes} → b ≡ rest → IsLinks rest b []
      link :
          {b c e v : Bytes} {l : LinkValue C} {ls : List (LinkValue C)}
          → IsTag 2 2 b c
          → IsChunk v c e
          → IsLink v l
          → IsLinks rest e ls
          → IsLinks rest b (l ∷ ls)

  pub data IsData (rest : Bytes) (b : Bytes) : Option Bytes → Type 0 where
    no_data : b ≡ rest → IsData rest b none
    data_field : {c v : Bytes} → IsTag 1 2 b c → IsChunk v c rest → IsData rest b (some v)

  module _ {C : Type 0} (k : Cids C) where
    pub data IsBlock (b : Bytes) (m : Message C) : Type 0 where
      data_then_links : {c : Bytes} → IsData c b m.bytes → IsLinks k [] c m.links → IsBlock b m
      links_then_data : {c : Bytes} → IsLinks k c b m.links → IsData [] c m.bytes → IsBlock b m
