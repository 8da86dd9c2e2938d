-- ===== src/Schema.antt =====
-- ipldsch_types.go and ipldsch_minima.go: the values of the schema's types, and the states of their
-- assemblers. `C` stands for cid.Cid of github.com/ipfs/go-cid.
use go_codec_dagpb.Common.{ℕ, ℤ, pos, Bytes, codes, List, []}

-- schema.Maybe, with the two more values that ipldsch_minima.go adds.
pub data Maybe : Type 0 where
  absent null value mid_value allow_null : Maybe

pub data MaState : Type 0 where
  initial mid_key expect_value mid_value finished : MaState

pub data LaState : Type 0 where
  initial mid_value finished : LaState

-- An ipld.Link: the nil interface, a cidlink.Link, or a link of some other type.
pub data Link (C : Type 0) : Type 0 where
  nil : Link C
  cid_link : C → Link C
  other : ℕ → Link C

-- `_Bytes__Maybe`, `_Int__Maybe`, `_String__Maybe`.
pub record Field {ℓ} (A : Type ℓ) : Type ℓ where
  pub m : Maybe
  pub v : A

pub record PbLink (C : Type 0) : Type 0 where
  pub hash : Link C
  pub name : Field Bytes
  pub tsize : Field ℤ

pub record PbLinks (C : Type 0) : Type 0 where
  pub x : List (PbLink C)

pub record PbNode (C : Type 0) : Type 0 where
  pub links : PbLinks C
  pub bytes : Field Bytes

-- Go's zero values.
abbrev pub zero_link : {C : Type 0} → PbLink C
zero_link = record {
  hash = nil;
  name = record { m = absent; v = [] };
  tsize = record { m = absent; v = pos 0 };
}

abbrev pub zero_node : {C : Type 0} → PbNode C
zero_node = record { links = record { x = [] }; bytes = record { m = absent; v = [] } }

-- The names of the fields, as bytes: "Hash", "Name", "Tsize", "Links", "Data".
abbrev pub hash_key : Bytes
hash_key = codes "Hash"

abbrev pub name_key : Bytes
name_key = codes "Name"

abbrev pub tsize_key : Bytes
tsize_key = codes "Tsize"

abbrev pub links_key : Bytes
links_key = codes "Links"

abbrev pub data_key : Bytes
data_key = codes "Data"
