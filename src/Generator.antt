-- ===== src/Generator.antt =====
-- gen.go: the schema that the package's node and assembler types were generated from.
pub mod Conformance
use go_codec_dagpb.Common.{Bytes, Bool, true, false, codes, List, [], ◌∷◌}

-- The calls of the package schema of go-ipld-prime by which `main` declares a type, with their
-- arguments. A struct has the map representation with no renamed fields.
pub record StructField : Type 0 where
  pub name : Bytes
  pub type : Bytes
  pub optional : Bool
  pub nullable : Bool

pub data TypeDecl : Type 0 where
  spawn_string spawn_int spawn_link spawn_bytes : Bytes → TypeDecl
  spawn_struct : Bytes → List StructField → TypeDecl
  spawn_list : Bytes → Bytes → Bool → TypeDecl

abbrev field : Bytes → Bytes → Bool → Bool → StructField
field name type optional nullable = record {
  name = name;
  type = type;
  optional = optional;
  nullable = nullable;
}

abbrev pub pb_link_fields : List StructField
pb_link_fields =
    field (codes "Hash") (codes "Link") false false
    ∷ field (codes "Name") (codes "String") true false
    ∷ field (codes "Tsize") (codes "Int") true false
    ∷ []

abbrev pub pb_node_fields : List StructField
pb_node_fields =
    field (codes "Links") (codes "PBLinks") false false
    ∷ field (codes "Data") (codes "Bytes") true false
    ∷ []

-- What `main` accumulates, in its order.
abbrev pub type_system : List TypeDecl
type_system =
    spawn_string (codes "String")
    ∷ spawn_int (codes "Int")
    ∷ spawn_link (codes "Link")
    ∷ spawn_bytes (codes "Bytes")
    ∷ spawn_struct (codes "PBLink") pb_link_fields
    ∷ spawn_list (codes "PBLinks") (codes "PBLink") false
    ∷ spawn_struct (codes "PBNode") pb_node_fields
    ∷ []
