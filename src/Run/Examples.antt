-- ===== src/Run/Examples.antt =====
-- The theorems at concrete messages, with the wire library and the CIDs of Run/Wire and Run/Cid.
use go_codec_dagpb.Common.{
  inr, ◌-◌, ◌<◌, ◌^◌, ◌≡◌, ◌↔◌, refl, pos, negsuc, Bytes, none, some, [], ◌∷◌, ◌++◌, filter, same,
  less, length, arith,
}
use go_codec_dagpb.Outcome.{duplicate_links, panic, no_such_index, out_of_range, ok, err, ◌>>=◌}
use go_codec_dagpb.Schema.{name_key, tsize_key, data_key, PbLinks}
use go_codec_dagpb.Message.{LinkValue, Message, link_of, node_of}
use go_codec_dagpb.Node.{Node, Typed}
use go_codec_dagpb.Node.Access.{link_items, link_items_repr}
use go_codec_dagpb.Node.Iteration.{items_of, link_iterators_all}
use go_codec_dagpb.Assembler.Root
use go_codec_dagpb.Marshal.Sort.{sort_links}
use go_codec_dagpb.Marshal.Order.{IsOrdered}
use go_codec_dagpb.Marshal.LinkOrder.{sort_links-IsOrdered, filter-sort_links}
use go_codec_dagpb.Marshal.Append.{link_size, append_encode}
use go_codec_dagpb.Marshal.Image.{
  IsEncodable, CanEncode, writable, delimited, link_image, links_image, sorted,
}
use go_codec_dagpb.Marshal.Links.{pb_of}
use go_codec_dagpb.Marshal.Encoded.{link_size-image}
use go_codec_dagpb.Unmarshal.Target.{node_builder, put_hash, put_tsize}
use go_codec_dagpb.Unmarshal.Link.{unmarshal_link}
use go_codec_dagpb.Unmarshal.Node.{decode_bytes}
use go_codec_dagpb.Unmarshal.Row.{in_row, row_state}
use go_codec_dagpb.Unmarshal.LinkImage.{unmarshal_link-wraps}
use go_codec_dagpb.Unmarshal.ReplayBuilder.{Yields}
use go_codec_dagpb.Canonical.{SameByName, append_encode-SameByName}
use go_codec_dagpb.RoundTrip.{decode_bytes-append_encode}
use go_codec_dagpb.Copy.Nodes.{
  Accepts, typed_node, repr_node, plain_node, assign_node-forms, append_encode-forms,
}
use go_codec_dagpb.Node.LinksView.{lookup_by_index}
use go_codec_dagpb.Node.Fields.{LinkEntries, NodeEntries, map_entries_all, lookup_by_index-cases}
use go_codec_dagpb.Node.Maybes.{
  link_lookup_by_node, node_lookup_by_node, as_node, field_name, field_tsize, field_data,
  field_lookups-as_node,
}
use go_codec_dagpb.Node.Native.{lookup, lookup_maybe, node_or_missing, maybe_of, lookups-agree}
use go_codec_dagpb.Unmarshal.Duplicates.{decode_bytes-split_links}
use go_codec_dagpb.Run.Wire.{wire, wire-IsReader, wire-IsWriter, wire-IsCodec}
use go_codec_dagpb.Run.Cid.{Cid, cids, cids-IsDefined}

abbrev pub cid_a : Cid
cid_a = record { codec = 0x70; digest = 1 ∷ 2 ∷ [] }

abbrev pub cid_b : Cid
cid_b = record { codec = 0x55; digest = 7 ∷ [] }

abbrev pub link_a : LinkValue Cid
link_a = record { hash = cid_a; name = some (98 ∷ []); tsize = some (pos 300) }

abbrev link_b : LinkValue Cid
link_b = record { hash = cid_b; name = none; tsize = none }

-- Two links, not in the order of their names, and Data.
abbrev pub sample : Message Cid
sample = record { links = link_a ∷ link_b ∷ []; bytes = some (5 ∷ 6 ∷ []) }

link_a-IsEncodable : IsEncodable wire cids link_a
unfolding wire cids
link_a-IsEncodable = record {
  defined = cids-IsDefined cid_a;
  tsize_fits = omega arith;
  length_fits = omega arith;
}

link_b-IsEncodable : IsEncodable wire cids link_b
unfolding wire cids
link_b-IsEncodable = record {
  defined = cids-IsDefined cid_b;
  tsize_fits = tt;
  length_fits = omega arith;
}

pub sample-CanEncode : CanEncode wire cids sample
sample-CanEncode = record {
  links_fit = (link_a-IsEncodable, (link_b-IsEncodable, tt));
  data_fits = omega arith;
}

decode_bytes-append_encode_example :
    (out : Bytes) × (append_encode wire cids [] (Node.typed (Typed.pb_node (node_of sample)))
      ≡ ok out)
    × Yields (sorted sample) (decode_bytes wire cids node_builder out Root.new_builder)
decode_bytes-append_encode_example =
    decode_bytes-append_encode wire wire-IsReader wire-IsWriter wire-IsCodec cids sample
      sample-CanEncode

-- The same links, the other way round.
abbrev swapped : Message Cid
swapped = record sample { links = link_b ∷ link_a ∷ [] }

swapped-CanEncode : CanEncode wire cids swapped
swapped-CanEncode = record {
  links_fit = (link_b-IsEncodable, (link_a-IsEncodable, tt));
  data_fits = omega arith;
}

append_encode-SameByName_example :
    (append_encode wire cids [] (Node.typed (Typed.pb_node (node_of sample)))
      ≡ append_encode wire cids [] (Node.typed (Typed.pb_node (node_of swapped))))
    ↔ SameByName sample swapped
append_encode-SameByName_example =
    append_encode-SameByName wire wire-IsReader wire-IsWriter wire-IsCodec cids sample swapped
      sample-CanEncode swapped-CanEncode

link_size-image_example : link_size wire cids (pb_of link_a) ≡ length (link_image wire cids link_a)
link_size-image_example =
    link_size-image wire wire-IsWriter cids link_a (writable wire cids link_a link_a-IsEncodable)

sort_links-IsOrdered_example :
    IsOrdered (λ a b. less a.name b.name) (sort_links (pb_of link_a ∷ pb_of link_b ∷ []))
sort_links-IsOrdered_example = sort_links-IsOrdered (pb_of link_a ∷ pb_of link_b ∷ [])

filter-sort_links_example :
    filter (λ l. same l.name []) (sort_links (pb_of link_a ∷ pb_of link_b ∷ []))
    ≡ filter (λ l. same l.name []) (pb_of link_a ∷ pb_of link_b ∷ [])
filter-sort_links_example = filter-sort_links [] (pb_of link_a ∷ pb_of link_b ∷ [])

cid_a_fits : length (cids.to_bytes cid_a) < 2 ^ 63
unfolding cids
cid_a_fits = omega arith

unmarshal_link-wraps_example :
    unmarshal_link wire cids node_builder
      (delimited wire cids 1 (cids.to_bytes cid_a)
        ++ (wire.append_tag [] 3 0 ++ wire.append_varint [] (2 ^ 63)))
      (in_row none [] (row_state 0 none none none))
    ≡ (put_hash node_builder cid_a (in_row none [] (row_state 0 none none none)) >>= λ s.
        put_tsize node_builder (negsuc (2 ^ 64 - 2 ^ 63 - 1)) s)
unmarshal_link-wraps_example =
    unmarshal_link-wraps wire wire-IsReader wire-IsCodec cids node_builder cid_a (2 ^ 63) _
      (cids-IsDefined cid_a) cid_a_fits (omega arith) (omega arith)

link_iterators_all_example :
    (link_items (record { x = link_of link_a ∷ [] })
      ≡ ok (items_of Typed.pb_link (link_of link_a ∷ [])))
    × (link_items_repr (record { x = link_of link_a ∷ [] })
        ≡ ok (items_of Typed.pb_link_repr (link_of link_a ∷ [])))
link_iterators_all_example = link_iterators_all (record { x = link_of link_a ∷ [] })

assign_node-forms_example :
    Accepts (typed_node sample) sample
    × Accepts (repr_node sample) sample
    × Accepts (plain_node sample) sample
assign_node-forms_example = assign_node-forms sample

append_encode-forms_example :
    (append_encode wire cids [] (repr_node sample) ≡ append_encode wire cids [] (typed_node sample))
    × (append_encode wire cids [] (plain_node sample)
        ≡ append_encode wire cids [] (typed_node sample))
append_encode-forms_example = append_encode-forms wire cids sample []

map_entries_all_example : LinkEntries link_b × NodeEntries sample
map_entries_all_example = map_entries_all link_b sample

lookup_by_index-cases_example :
    let links : PbLinks Cid = record { x = link_of link_a ∷ [] } in
    (lookup_by_index links (pos 0) ≡ ok (Node.typed (Typed.pb_link (link_of link_a))))
    × (lookup_by_index links (pos 1) ≡ err (no_such_index (pos 1)))
    × (lookup_by_index links (negsuc 0) ≡ panic out_of_range)
lookup_by_index-cases_example = lookup_by_index-cases [] (link_of link_a) [] 1 0 (omega arith)

field_lookups-as_node_example :
    (link_lookup_by_node (link_of link_a) (Node.string name_key)
      ≡ as_node Typed.string (field_name (link_of link_a)))
    × (link_lookup_by_node (link_of link_a) (Node.string tsize_key)
        ≡ as_node Typed.int (field_tsize (link_of link_a)))
    × (node_lookup_by_node (node_of sample) (Node.string data_key)
        ≡ as_node Typed.bytes (field_data (node_of sample)))
field_lookups-as_node_example =
    field_lookups-as_node (link_of link_a) (node_of sample) (inr refl) (inr refl) (inr refl)

lookups-agree_example :
    let links : PbLinks Cid = record { x = link_of link_a ∷ [] } in
    (lookup_by_index links (pos 0) ≡ (lookup links (pos 0) >>= node_or_missing (pos 0)))
    × (lookup_maybe links (pos 0) ≡ (lookup links (pos 0) >>= λ o. ok (maybe_of o)))
lookups-agree_example = lookups-agree (record { x = link_of link_a ∷ [] }) (pos 0)

decode_bytes-split_links_example :
    decode_bytes wire cids node_builder
      (links_image wire cids (link_a ∷ [])
        ++ (delimited wire cids 1 (5 ∷ []) ++ (delimited wire cids 2 [] ++ (0 ∷ []))))
      Root.new_builder
    ≡ err duplicate_links
decode_bytes-split_links_example =
    decode_bytes-split_links wire wire-IsReader wire-IsCodec cids link_a [] (5 ∷ []) [] (0 ∷ [])
      (link_a-IsEncodable, tt) (omega arith) (omega arith)
