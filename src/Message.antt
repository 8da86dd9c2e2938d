-- ===== src/Message.antt =====
-- The value that a DAG-PB block stands for: what the schema in the package's documentation says of a
-- PBNode, with no assembler's state in it.
use go_codec_dagpb.Common.{ℤ, pos, Bytes, Option, none, some, List, [], map}
use go_codec_dagpb.Schema.{Maybe, Field, PbLink, PbNode, cid_link}

-- type PBLink struct { Hash Link; Name optional String; Tsize optional Int }
pub record LinkValue (C : Type 0) : Type 0 where
  pub hash : C
  pub name : Option Bytes
  pub tsize : Option ℤ

-- type PBNode struct { Links [PBLink]; Data optional Bytes }
pub record Message (C : Type 0) : Type 0 where
  pub links : List (LinkValue C)
  pub bytes : Option Bytes

-- An optional field as the generated types hold it, over the zero value `z`.
abbrev pub field_of {ℓ} : {A : Type ℓ} → A → Option A → Field A
field_of z none = record { m = Maybe.absent; v = z }
field_of z (some a) = record { m = Maybe.value; v = a }

module _ {C : Type 0} where
  abbrev pub link_of : LinkValue C → PbLink C
  link_of l = record {
    hash = cid_link l.hash;
    name = field_of [] l.name;
    tsize = field_of (pos 0) l.tsize;
  }

  abbrev pub node_of : Message C → PbNode C
  node_of m = record { links = record { x = map link_of m.links }; bytes = field_of [] m.bytes }
