-- ===== src/Parser/Images.antt =====
-- The bytes of marshal.go, as Marshal/Image gives them, are of the grammar.
use go_codec_dagpb.Common.{
  ◌<◌, ◌^◌, refl, sym, pos, negsuc, ℕ, ℤ, to_int64, to_int64-pos, Bytes, Option, none, some, List,
  [], ◌∷◌, ◌++◌, length, drop-append, append-nil, append_assoc, arith, All,
}
use go_codec_dagpb.Message.{LinkValue}
use go_codec_dagpb.Wire.{Protowire, IsCodec, Cids, IsDefined}
use go_codec_dagpb.Marshal.Image.{
  delimited, name_image, tsize_image, link_image, links_image, data_image, or_empty, TsizeFits,
  IsEncodable, delimited-append, parts_fit,
}
use go_codec_dagpb.Parser.Grammar.{
  IsTag, IsChunk, IsVarint, IsTsize, no_tsize, tsize, IsName, no_name, name, IsLink, IsLinks,
  no_links, link, IsData, no_data, data_field,
}
use mathlib.Core.Path.{subst}

module _ (p : Protowire) (q : IsCodec p) where
  append_tag-IsTag :
      (num typ : ℕ) (rest : Bytes)
      → 0 < num
      → num < 16
      → typ < 6
      → IsTag p num typ (p.append_tag [] num typ ++ rest) rest
  append_tag-IsTag num typ rest lo hi ty =
      (_, q.tag_back num typ rest lo hi ty, sym (drop-append (p.append_tag [] num typ) rest))

  append_bytes-IsChunk :
      (v rest : Bytes)
      → length v < 2 ^ 63
      → IsChunk p v (p.append_varint [] (length v) ++ (v ++ rest)) rest
  append_bytes-IsChunk v rest h =
      let n = p.append_varint [] (length v) in
      (
        length (n ++ v),
        q.bytes_back v rest h,
        rw (← append_assoc n v rest) (sym (drop-append (n ++ v) rest)),
      )

  append_varint-IsVarint : (v : ℕ) → v < 2 ^ 64 → IsVarint p v (p.append_varint [] v) []
  append_varint-IsVarint v h =
      subst (λ b. IsVarint p v b []) (append-nil (p.append_varint [] v))
        (
          length (p.append_varint [] v),
          q.varint_back v [] h,
          sym (drop-append (p.append_varint [] v) []),
        )

  -- A Tsize, whatever its value.
  pub append_varint-IsTsize :
      (v : ℕ)
      → v < 2 ^ 64
      → IsTsize p (p.append_tag [] 3 0 ++ p.append_varint [] v) (some (to_int64 v))
  append_varint-IsTsize v h =
      tsize (append_tag-IsTag 3 0 (p.append_varint [] v) (omega arith) (omega arith) (omega arith))
        (append_varint-IsVarint v h) refl

module _ {C : Type 0} (p : Protowire) (q : IsCodec p) (k : Cids C) where
  -- A length-delimited field, and what follows it.
  module _ (num : ℕ) (v rest : Bytes) where
    abbrev pub Field : Type 0
    Field = (c : Bytes) × IsTag p num 2 (delimited p k num v ++ rest) c × IsChunk p v c rest

    pub delimited-Field : 0 < num → num < 16 → length v < 2 ^ 63 → Field
    delimited-Field lo hi h = (
      p.append_varint [] (length v) ++ (v ++ rest),
      rw (delimited-append p k num v rest) (
          append_tag-IsTag p q num 2 (p.append_varint [] (length v) ++ (v ++ rest)) lo hi
            (omega arith)),
      append_bytes-IsChunk p q v rest h,
    )

  tsize_image-IsTsize : (i : Option ℤ) → TsizeFits i → IsTsize p (tsize_image p k i) i
  tsize_image-IsTsize none h = no_tsize refl
  tsize_image-IsTsize (some (pos v)) h =
      rw (to_int64-pos v h) at (append_varint-IsTsize p q v (omega arith))
  tsize_image-IsTsize (some (negsuc v)) h = absurd h

  name_image-IsName :
      (i : Option Bytes) (t : Option ℤ)
      → length (or_empty i) < 2 ^ 63
      → TsizeFits t
      → IsName p (name_image p k i ++ tsize_image p k t) t i
  name_image-IsName none t h ht = no_name (tsize_image-IsTsize t ht)
  name_image-IsName (some v) t h ht =
      let (c, tag, value) = delimited-Field 2 v (tsize_image p k t) (omega arith) (omega arith) h in
      name tag value (tsize_image-IsTsize t ht)

  -- Hash, and then Name and Tsize.
  pub hash-IsLink :
      (l : LinkValue C) (rest : Bytes)
      → IsDefined k l.hash
      → length (k.to_bytes l.hash) < 2 ^ 63
      → IsName p rest l.tsize l.name
      → IsLink p k (delimited p k 1 (k.to_bytes l.hash) ++ rest) l
  hash-IsLink l rest d h named =
      let (c, tag, value) =
        delimited-Field 1 (k.to_bytes l.hash) rest (omega arith) (omega arith) h in
      record {
        after_tag = c;
        after_hash = rest;
        raw = k.to_bytes l.hash;
        read = length (k.to_bytes l.hash);
        tagged = tag;
        valued = value;
        hashed = d.back;
        named = named;
      }

  pub link_image-IsLink : (l : LinkValue C) → IsEncodable p k l → IsLink p k (link_image p k l) l
  link_image-IsLink l e =
      let (cid, named) = parts_fit p k l e in
      hash-IsLink l (name_image p k l.name ++ tsize_image p k l.tsize) e.defined cid
        (name_image-IsName l.name l.tsize named e.tsize_fits)

  pub links_image-IsLinks :
      (ls : List (LinkValue C)) (rest : Bytes)
      → All (IsEncodable p k) ls
      → IsLinks p k rest (links_image p k ls ++ rest) ls
  links_image-IsLinks [] rest es = no_links refl
  links_image-IsLinks (l ∷ ls) rest (e, es) =
      let (c, tag, value) =
        delimited-Field 2 (link_image p k l) (links_image p k ls ++ rest) (omega arith)
          (omega arith) e.length_fits in
      rw (append_assoc (delimited p k 2 (link_image p k l)) (links_image p k ls) rest)
        (link tag value (link_image-IsLink l e) (links_image-IsLinks ls rest es))

  pub data_image-IsData :
      (d : Option Bytes) → length (or_empty d) < 2 ^ 63 → IsData p [] (data_image p k d) d
  data_image-IsData none h = no_data refl
  data_image-IsData (some v) h =
      let (c, tag, value) = delimited-Field 1 v [] (omega arith) (omega arith) h in
      data_field (rw append-nil at tag) value
