-- ===== src/Marshal/Image.antt =====
-- The bytes of a message, in plain appends.
use go_codec_dagpb.Common.{
  ℕ, ◌<◌, ◌≤◌, ◌^◌, ◌≡◌, ℤ, pos, negsuc, Bytes, Bool, Option, none, some, List, [], ◌∷◌, ◌++◌,
  length, length-append, append_assoc, arith, All, less,
}
use go_codec_dagpb.Message.{LinkValue, Message}
use go_codec_dagpb.Wire.{Protowire, Cids, IsDefined}
use go_codec_dagpb.Marshal.Sort.{stable_sort}

-- A present name, and the empty one for an absent name.
abbrev pub or_empty : Option Bytes → Bytes
or_empty none = []
or_empty (some n) = n

module _ {C : Type 0} where
  abbrev pub name_less : LinkValue C → LinkValue C → Bool
  name_less a b = less (or_empty a.name) (or_empty b.name)

  -- The links in the order of their names.
  abbrev pub sorted : Message C → Message C
  sorted m = record m { links = stable_sort name_less m.links }

module _ {C : Type 0} (p : Protowire) (k : Cids C) where
  -- A length-delimited field.
  abbrev pub delimited : ℕ → Bytes → Bytes
  delimited num v = p.append_tag [] num 2 ++ (p.append_varint [] (length v) ++ v)

  abbrev pub name_image : Option Bytes → Bytes
  name_image none = []
  name_image (some n) = delimited 2 n

  abbrev pub tsize_image : Option ℤ → Bytes
  tsize_image none = []
  tsize_image (some (pos t)) = p.append_tag [] 3 0 ++ p.append_varint [] t
  tsize_image (some (negsuc t)) = []

  abbrev pub link_image : LinkValue C → Bytes
  link_image l = delimited 1 (k.to_bytes l.hash) ++ (name_image l.name ++ tsize_image l.tsize)

  abbrev pub links_image : List (LinkValue C) → Bytes
  links_image [] = []
  links_image (l ∷ ls) = delimited 2 (link_image l) ++ links_image ls

  abbrev pub data_image : Option Bytes → Bytes
  data_image none = []
  data_image (some b) = delimited 1 b

  abbrev pub image : Message C → Bytes
  image m = links_image m.links ++ data_image m.bytes

-- A Tsize that `AppendEncode` accepts: an int64 that is not negative.
abbrev pub TsizeFits : Option ℤ → Type 0
TsizeFits none = Unit
TsizeFits (some (pos t)) = t < 2 ^ 63
TsizeFits (some (negsuc t)) = ⊥

-- A link that can be written: its Tsize is in range, and Go's int holds the lengths of its CID and
-- its name.
pub record IsWritable {C : Type 0} (k : Cids C) (l : LinkValue C) : Type 0 where
  pub cid_fits : length (k.to_bytes l.hash) < 2 ^ 63
  pub name_fits : length (or_empty l.name) < 2 ^ 63
  pub tsize_fits : TsizeFits l.tsize

-- A link that can be written and read back: its CID is defined, its Tsize is in range, and its
-- message has a length that Go's int holds.
pub record IsEncodable {C : Type 0} (p : Protowire) (k : Cids C) (l : LinkValue C) : Type 0 where
  pub defined : IsDefined k l.hash
  pub tsize_fits : TsizeFits l.tsize
  pub length_fits : length (link_image p k l) < 2 ^ 63

-- A message of such links, with Data of a length that Go's int holds.
pub record CanEncode {C : Type 0} (p : Protowire) (k : Cids C) (m : Message C) : Type 0 where
  pub links_fit : All (IsEncodable p k) m.links
  pub data_fits : length (or_empty m.bytes) < 2 ^ 63

module _ {C : Type 0} (p : Protowire) (k : Cids C) where
  pub delimited-append :
      (num : ℕ) (v rest : Bytes)
      → delimited p k num v ++ rest
        ≡ p.append_tag [] num 2 ++ (p.append_varint [] (length v) ++ (v ++ rest))
  delimited-append num v rest = simp append_assoc

  pub length-le-delimited : (num : ℕ) (v : Bytes) → length v ≤ length (delimited p k num v)
  length-le-delimited num v = omega (
    arith,
    length-append (p.append_tag [] num 2) (p.append_varint [] (length v) ++ v),
    length-append (p.append_varint [] (length v)) v,
  )

  pub parts_fit :
      (l : LinkValue C)
      → IsEncodable p k l
      → (length (k.to_bytes l.hash) < 2 ^ 63) × (length (or_empty l.name) < 2 ^ 63)
  parts_fit l e =
      let named : length (or_empty l.name) ≤ length (name_image p k l.name) = name_le l.name in
      omega (
        arith,
        e.length_fits,
        length-append (delimited p k 1 (k.to_bytes l.hash))
            (name_image p k l.name ++ tsize_image p k l.tsize),
        length-append (name_image p k l.name) (tsize_image p k l.tsize),
        length-le-delimited 1 (k.to_bytes l.hash),
        named,
      )
    where
      name_le : (n : Option Bytes) → length (or_empty n) ≤ length (name_image p k n)
      name_le none = omega arith
      name_le (some n) = length-le-delimited 2 n

  pub writable : (l : LinkValue C) → IsEncodable p k l → IsWritable k l
  writable l e =
      let (cid, name) = parts_fit l e in
      record { cid_fits = cid; name_fits = name; tsize_fits = e.tsize_fits }

  pub writables : (ls : List (LinkValue C)) → All (IsEncodable p k) ls → All (IsWritable k) ls
  writables [] es = tt
  writables (l ∷ ls) (e, es) = (writable l e, writables ls es)
