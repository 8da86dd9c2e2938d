-- ===== src/Run/Refine.antt =====
-- The builders on a map of the data model with its fields out of order.
use go_codec_dagpb.Common.{◌≡◌, pos, some, none, [], ◌∷◌}
use go_codec_dagpb.Outcome.{ok, err, repeated_key, Returns, ◌>>=◌}
use go_codec_dagpb.Schema.{
  PbLink, PbLinks, PbNode, cid_link, hash_key, tsize_key, links_key, data_key,
}
use go_codec_dagpb.Message.{field_of, link_of}
use go_codec_dagpb.Node.{Node, Typed, Items, Entries}
use go_codec_dagpb.Node.Access
use go_codec_dagpb.Assembler.Link
use go_codec_dagpb.Assembler.LinkRepr
use go_codec_dagpb.Assembler.List as LinkList
use go_codec_dagpb.Assembler.ListRepr
use go_codec_dagpb.Assembler.Root
use go_codec_dagpb.Assembler.RootRepr
use go_codec_dagpb.Marshal.Append.{append_encode}
use go_codec_dagpb.Reference.LinkFields.{link_from}
use go_codec_dagpb.Reference.NodeFields.{links_from, node_from}
use go_codec_dagpb.Refines.Built.{
  assign_node-node_from, append_encode-node_from, append_encode-Returns,
}
use go_codec_dagpb.Refines.EntryKey.{link_entry-key, root_entry-key}
use go_codec_dagpb.Lockstep.Built.{
  assign_node-link_from, assign_node-links_from, repr_assign_node-node_from,
}
use go_codec_dagpb.Run.Wire.{wire}
use go_codec_dagpb.Run.Cid.{Cid, cids}
use go_codec_dagpb.Run.Examples.{cid_a, link_a}

-- Tsize before Hash, and a key that is a typed string.
abbrev pub plain_link : Node Cid
plain_link = Node.map (
    Entries.entry (Node.string tsize_key) (Node.int (pos 3))
      (Entries.entry (Node.typed (Typed.string hash_key)) (Node.link (cid_link cid_a)) Entries.end))

abbrev pub built_link : PbLink Cid
built_link = record {
  hash = cid_link cid_a;
  name = field_of [] none;
  tsize = field_of (pos 0) (some (pos 3));
}

abbrev pub plain_links : Node Cid
plain_links = Node.list (
    Items.item plain_link
      (Items.item (Node.typed (Typed.pb_link_repr (link_of link_a))) Items.last))

abbrev built_links : PbLinks Cid
built_links = record { x = built_link ∷ link_of link_a ∷ [] }

-- Data before Links.
abbrev plain_node : Node Cid
plain_node = Node.map (
    Entries.entry (Node.string data_key) (Node.bytes (5 ∷ 6 ∷ []))
      (Entries.entry (Node.string links_key) plain_links Entries.end))

abbrev built_node : PbNode Cid
built_node = record { links = built_links; bytes = field_of [] (some (5 ∷ 6 ∷ [])) }

-- Links comes twice.
abbrev twice : Node Cid
twice = Node.map (
    Entries.entry (Node.string links_key) plain_links
      (Entries.entry (Node.string links_key) plain_links Entries.end))

assign_node-node_from_example :
    (do a ← Root.assign_node plain_node Root.new_builder; Root.build a) ≡ ok built_node
unfolding node_from Access.map_iterator Access.as_string Access.as_bytes Access.list_iterator
    Access.as_int Access.as_link Link.child_of Root.child_of Access.link_entries_repr
assign_node-node_from_example = assign_node-node_from plain_node

append_encode-node_from_example :
    append_encode wire cids [] plain_node
    ≡ append_encode wire cids [] (Node.typed (Typed.pb_node built_node))
unfolding node_from Access.map_iterator Access.as_string Access.as_bytes Access.list_iterator
    Access.as_int Access.as_link Link.child_of Root.child_of Access.link_entries_repr
append_encode-node_from_example = append_encode-node_from wire cids [] plain_node

append_encode-Returns_example : Returns (λ out. Unit {0}) (append_encode wire cids [] twice)
append_encode-Returns_example = append_encode-Returns wire cids [] twice

assign_node-link_from_example :
    ((do a ← Link.assign_node plain_link Link.new_builder; Link.build a) ≡ ok built_link)
    × ((do a ← LinkRepr.assign_node plain_link LinkRepr.new_builder; LinkRepr.build a)
        ≡ ok built_link)
unfolding link_from Access.map_iterator Access.as_string Access.as_bytes Access.list_iterator
    Access.as_int Access.as_link Link.child_of Root.child_of Access.link_entries_repr
assign_node-link_from_example = assign_node-link_from plain_link

assign_node-links_from_example :
    ((do a ← LinkList.assign_node plain_links LinkList.new_builder; LinkList.build a)
      ≡ ok built_links)
    × ((do a ← ListRepr.assign_node plain_links ListRepr.new_builder; ListRepr.build a)
        ≡ ok built_links)
unfolding links_from Access.map_iterator Access.as_string Access.as_bytes Access.list_iterator
    Access.as_int Access.as_link Link.child_of Root.child_of Access.link_entries_repr
assign_node-links_from_example = assign_node-links_from plain_links

repr_assign_node-node_from_example :
    (do a ← RootRepr.assign_node twice RootRepr.new_builder; RootRepr.build a)
    ≡ err (repeated_key links_key)
unfolding node_from Access.map_iterator Access.as_string Access.as_bytes Access.list_iterator
    Access.as_int Access.as_link Link.child_of Root.child_of Access.link_entries_repr
repr_assign_node-node_from_example = repr_assign_node-node_from twice

link_entry-key_example :
    (Link.assemble_entry {C = Cid} tsize_key Link.new_builder ≡ (do
      a₁ ← Link.assemble_key Link.new_builder
      a₂ ← Link.assign_key tsize_key a₁
      Link.assemble_value a₂))
    × (LinkRepr.assemble_entry {C = Cid} tsize_key Link.new_builder ≡ (do
      a₁ ← LinkRepr.assemble_key Link.new_builder
      a₂ ← LinkRepr.assign_key tsize_key a₁
      LinkRepr.assemble_value a₂))
link_entry-key_example = link_entry-key tsize_key Link.new_builder

root_entry-key_example :
    (Root.assemble_entry {C = Cid} data_key Root.new_builder ≡ (do
      a₁ ← Root.assemble_key Root.new_builder
      a₂ ← Root.assign_key data_key a₁
      Root.assemble_value a₂))
    × (RootRepr.assemble_entry {C = Cid} data_key Root.new_builder ≡ (do
      a₁ ← RootRepr.assemble_key Root.new_builder
      a₂ ← RootRepr.assign_key data_key a₁
      RootRepr.assemble_value a₂))
root_entry-key_example = root_entry-key data_key Root.new_builder
