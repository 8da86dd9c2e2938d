-- ===== src/Prototype/Rebuild.antt =====
-- A node and the builders of its own prototype.
use go_codec_dagpb.Common.{◌≡◌, refl, sym, ◌∙◌, ℤ, Bytes}
use go_codec_dagpb.Outcome.{Outcome, ok, ◌>>=◌, bind_assoc}
use go_codec_dagpb.Schema.{Field, Link as IpldLink}
use go_codec_dagpb.Node.{Node, Typed}
use go_codec_dagpb.Node.Access.{is_null}
use go_codec_dagpb.Assembler.Calls.{Call, AssemblerMixins}
use go_codec_dagpb.Assembler.Scalar.{
  assign_bytes_node, assign_int_node, assign_string_node, assign_link_node, build,
}
use go_codec_dagpb.Assembler.ScalarCalls.{bytes_call, int_call, link_call, string_call}
use go_codec_dagpb.Assembler.MapCalls.{
  pb_link_call, pb_link_repr_call, pb_links_call, pb_links_repr_call, pb_node_call,
  pb_node_repr_call,
}
use go_codec_dagpb.Assembler.Link
use go_codec_dagpb.Assembler.Link.{LinkAssembler}
use go_codec_dagpb.Assembler.LinkRepr
use go_codec_dagpb.Assembler.List as LinkList
use go_codec_dagpb.Assembler.List.{ListAssembler}
use go_codec_dagpb.Assembler.ListRepr
use go_codec_dagpb.Assembler.Root
use go_codec_dagpb.Assembler.Root.{RootAssembler}
use go_codec_dagpb.Assembler.RootRepr
use go_codec_dagpb.Lockstep.Built.{
  assign_node-link_from, assign_node-links_from, repr_assign_node-node_from,
}
use go_codec_dagpb.Prototype.{prototype_of}
use go_codec_dagpb.Prototype.Builders.{
  Builder, BuilderState, builder, bytes_reset, int_reset, string_reset, link_reset, pb_link_reset,
  pb_link_repr_reset, pb_links_reset, pb_links_repr_reset, pb_node_reset, pb_node_repr_reset,
  from_bytes, from_int, from_string, from_link, bytes_builder, int_builder, string_builder,
  link_builder,
}
use go_codec_dagpb.Prototype.Settled.{
  settled_link, settled_links, settled_node, link_from-repr, links_from-repr, node_from-repr,
}

module _ {C : Type 0} where
  -- The typed node that a node stands for.
  abbrev pub settled : Typed C → Typed C
  settled (Typed.pb_link_repr l) = Typed.pb_link (settled_link l)
  settled (Typed.pb_links_repr ls) = Typed.pb_links (settled_links ls)
  settled (Typed.pb_node_repr n) = Typed.pb_node (settled_node n)
  settled n = n

  built_as :
      {S A : Type 0} (m : Outcome S) (build : S → Outcome A) (g : A → Typed C) {a : A}
      → (m >>= build) ≡ ok a
      → (m >>= λ s. build s >>= λ x. ok (g x)) ≡ ok (g a)
  built_as m build g e = sym (bind_assoc m build (λ x. ok (g x))) ∙ rw e refl

  -- A builder is reset, takes a call, and builds.
  abbrev pub remake : {S : Type 0} → Builder C S → Call C → S → Outcome (Typed C)
  remake b c nb = do s ← b.call c (b.reset nb); b.build s

  module _ (mixins : AssemblerMixins C) where
    -- After Reset, whatever calls came before it, a builder of a node's own prototype takes the node
    -- by AssignNode and builds it again, for each of the ten node types; a representation builder
    -- builds the typed node, with an optional field absent where the representation has none.
    pub remake-settled :
        (n : Typed C) (nb : BuilderState C (prototype_of n))
        → remake (builder mixins (prototype_of n)) (Call.assign_node (Node.typed n)) nb
          ≡ ok (settled n)
    unfolding prototype_of bytes_reset int_reset string_reset link_reset pb_link_reset
        pb_link_repr_reset pb_links_reset pb_links_repr_reset pb_node_reset pb_node_repr_reset
        bytes_call int_call link_call string_call pb_link_call pb_link_repr_call pb_links_call
        pb_links_repr_call pb_node_call pb_node_repr_call assign_bytes_node assign_int_node
        assign_string_node assign_link_node build is_null Link.build LinkList.build Root.build
        Link.assign_node LinkList.assign_node Root.assign_node
    remake-settled (Typed.bytes b) nb = refl
    remake-settled (Typed.int i) nb = refl
    remake-settled (Typed.string s) nb = refl
    remake-settled (Typed.link l) nb = refl
    remake-settled (Typed.pb_link l) nb = refl
    remake-settled (Typed.pb_links ls) nb = refl
    remake-settled (Typed.pb_node n) nb = refl
    remake-settled (Typed.pb_link_repr l) nb =
        let v : Node C = Node.typed (Typed.pb_link_repr l) in
        built_as (LinkRepr.assign_node v LinkRepr.new_builder) LinkRepr.build Typed.pb_link
          ((assign_node-link_from v).1 ∙ link_from-repr l)
    remake-settled (Typed.pb_links_repr ls) nb =
        let v : Node C = Node.typed (Typed.pb_links_repr ls) in
        built_as (ListRepr.assign_node v ListRepr.new_builder) ListRepr.build Typed.pb_links
          ((assign_node-links_from v).1 ∙ rw (links_from-repr ls) refl)
    remake-settled (Typed.pb_node_repr n) nb =
        let v : Node C = Node.typed (Typed.pb_node_repr n) in
        built_as (RootRepr.assign_node v RootRepr.new_builder) RootRepr.build Typed.pb_node
          (repr_assign_node-node_from v ∙ node_from-repr n)

    -- The From functions of the scalar prototypes give what a builder builds, after Reset, from the
    -- Assign method of that kind.
    pub from-remake :
        (b : Bytes) (i : ℤ) (l : IpldLink C) (nb : Field Bytes) (ni : Field ℤ)
        (nl : Field (IpldLink C))
        → (remake (bytes_builder mixins) (Call.assign_bytes b) nb
            ≡ (do v ← from_bytes b; ok (Typed.bytes v)))
          × (remake (string_builder mixins) (Call.assign_string b) nb
              ≡ (do v ← from_string b; ok (Typed.string v)))
          × (remake (int_builder mixins) (Call.assign_int i) ni
              ≡ (do v ← from_int i; ok (Typed.int v)))
          × (remake (link_builder mixins) (Call.assign_link l) nl
              ≡ (do v ← from_link l; ok (Typed.link v)))
    unfolding bytes_reset int_reset string_reset link_reset bytes_call int_call link_call
        string_call build from_bytes from_int from_string from_link
    from-remake b i l nb ni nl = (refl, refl, refl, refl)
