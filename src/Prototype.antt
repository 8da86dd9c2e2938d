-- ===== src/Prototype.antt =====
-- ipldsch_types.go and ipldsch_satisfaction.go: the prototypes of this package, which `Type` holds, and
-- the builders that they make.
pub mod Builders
pub mod Settled
pub mod Rebuild
use go_codec_dagpb.Common.{Bytes, codes, List, [], ◌∷◌}
use go_codec_dagpb.Node.{Typed}

-- The types of this package that are an ipld.NodePrototype. The representation prototype of a scalar
-- is another name for that of the scalar.
pub data Prototype : Type 0 where
  bytes int link string : Prototype
  pb_link pb_link_repr pb_links pb_links_repr pb_node pb_node_repr : Prototype

-- The fields of `typeSlab`.
abbrev pub type_slab : List (Bytes × Prototype)
type_slab =
    (codes "Bytes", Prototype.bytes)
    ∷ (codes "Bytes__Repr", Prototype.bytes)
    ∷ (codes "Int", Prototype.int)
    ∷ (codes "Int__Repr", Prototype.int)
    ∷ (codes "Link", Prototype.link)
    ∷ (codes "Link__Repr", Prototype.link)
    ∷ (codes "PBLink", Prototype.pb_link)
    ∷ (codes "PBLink__Repr", Prototype.pb_link_repr)
    ∷ (codes "PBLinks", Prototype.pb_links)
    ∷ (codes "PBLinks__Repr", Prototype.pb_links_repr)
    ∷ (codes "PBNode", Prototype.pb_node)
    ∷ (codes "PBNode__Repr", Prototype.pb_node_repr)
    ∷ (codes "String", Prototype.string)
    ∷ (codes "String__Repr", Prototype.string)
    ∷ []

module _ {C : Type 0} where
  -- The method Prototype of a node.
  unfoldable pub prototype_of : Typed C → Prototype
  prototype_of (Typed.bytes b) = Prototype.bytes
  prototype_of (Typed.int i) = Prototype.int
  prototype_of (Typed.string s) = Prototype.string
  prototype_of (Typed.link l) = Prototype.link
  prototype_of (Typed.pb_link l) = Prototype.pb_link
  prototype_of (Typed.pb_links ls) = Prototype.pb_links
  prototype_of (Typed.pb_node n) = Prototype.pb_node
  prototype_of (Typed.pb_link_repr l) = Prototype.pb_link_repr
  prototype_of (Typed.pb_links_repr ls) = Prototype.pb_links_repr
  prototype_of (Typed.pb_node_repr n) = Prototype.pb_node_repr
