-- ===== src/Node.antt =====
-- The view of an ipld.Node that the assemblers and the encoder use. Nodes of other packages are
-- values of the IPLD data model; an iterator of such a node may also fail. Nodes of this package are
-- `typed`.
pub mod LinkView
pub mod LinksView
pub mod NodeView
pub mod Access
pub mod Iteration
pub mod Ends
pub mod Fields
pub mod Maybes
pub mod Native
pub mod Interface
pub mod ScalarMethods
pub mod MapMethods
pub mod ListMethods
pub mod Kinds
pub mod Agreement
pub mod MaybeMethods
use go_codec_dagpb.Common.{ℕ, ℤ, Bytes, Bool}
use go_codec_dagpb.Outcome.{Error}
use go_codec_dagpb.Schema.{Link, PbLink, PbLinks, PbNode}

-- The nodes of this package: the typed views and the representation views of the schema's types.
-- The two views of a scalar are one type.
pub data Typed (C : Type 0) : Type 0 where
  bytes : Bytes → Typed C
  int : ℤ → Typed C
  string : Bytes → Typed C
  link : Link C → Typed C
  pb_link : PbLink C → Typed C
  pb_links : PbLinks C → Typed C
  pb_node : PbNode C → Typed C
  pb_link_repr : PbLink C → Typed C
  pb_links_repr : PbLinks C → Typed C
  pb_node_repr : PbNode C → Typed C

mutual
  pub data Node (C : Type 0) : Type 0 where
    absent : Node C
    null : Node C
    bool : Bool → Node C
    int : ℤ → Node C
    float : ℕ → Node C
    string : Bytes → Node C
    bytes : Bytes → Node C
    link : Link C → Node C
    list : Items C → Node C
    map : Entries C → Node C
    typed : Typed C → Node C

  -- What a list iterator yields.
  pub data Items (C : Type 0) : Type 0 where
    last : Items C
    item : Node C → Items C → Items C
    item_fails : Error → Items C

  -- What a map iterator yields: keys are nodes too.
  pub data Entries (C : Type 0) : Type 0 where
    end : Entries C
    entry : Node C → Node C → Entries C → Entries C
    entry_fails : Error → Entries C
