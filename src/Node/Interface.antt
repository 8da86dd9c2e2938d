-- ===== src/Node/Interface.antt =====
-- ipld.Node as the record of its methods, and what go-ipld-prime gives to those of this package.
use go_codec_dagpb.Common.{ℕ, ℤ, Bytes, Bool, Option}
use go_codec_dagpb.Outcome.{Outcome}
use go_codec_dagpb.Schema.{Link}
use go_codec_dagpb.Node.{Node, Items, Entries}

-- ipld.Kind
pub data Kind : Type 0 where
  map list bool int float string bytes link : Kind

-- An ipld.PathSegment by its methods String and Index.
pub record PathSegment : Type 0 where
  pub string : Bytes
  pub index : Outcome ℤ

-- A node's methods; `none` is a nil iterator, and an iterator is what it yields.
pub record Methods (C : Type 0) : Type 0 where
  pub kind : Kind
  pub lookup_by_string : Bytes → Outcome (Node C)
  pub lookup_by_node : Node C → Outcome (Node C)
  pub lookup_by_index : ℤ → Outcome (Node C)
  pub lookup_by_segment : PathSegment → Outcome (Node C)
  pub map_iterator : Option (Outcome (Entries C))
  pub list_iterator : Option (Outcome (Items C))
  pub length : ℤ
  pub is_absent : Bool
  pub is_null : Bool
  pub as_bool : Outcome Bool
  pub as_int : Outcome ℤ
  pub as_float : Outcome ℕ
  pub as_string : Outcome Bytes
  pub as_bytes : Outcome Bytes
  pub as_link : Outcome (Link C)

-- The methods of one type of the package mixins, which is not part of this repository: those that
-- this package calls, with the arguments that it calls them with.
pub record Mixin (C : Type 0) : Type 0 where
  pub lookup_by_string : Bytes → Outcome (Node C)
  pub lookup_by_node : Option (Node C) → Outcome (Node C)
  pub lookup_by_index : ℤ → Outcome (Node C)
  pub lookup_by_segment : PathSegment → Outcome (Node C)
  pub as_bool : Outcome Bool
  pub as_int : Outcome ℤ
  pub as_float : Outcome ℕ
  pub as_string : Outcome Bytes
  pub as_bytes : Outcome Bytes
  pub as_link : Outcome (Link C)

-- mixins.Map, mixins.List, mixins.Bytes and so on.
abbrev pub Mixins : Type 0 → Type 0
Mixins C = Kind → Mixin C
