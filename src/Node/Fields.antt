-- ===== src/Node/Fields.antt =====
-- ipldsch_satisfaction.go: the fields that a PBLink and a PBNode show, and lookups by index.
use go_codec_dagpb.Common.{
  ℕ, ◌≡◌, refl, pos, negsuc, Bytes, ℤ, Option, none, some, List, [], ◌∷◌, ◌++◌, map, length,
  length-append, lt→leb, le→leb, ◌≤◌, arith,
}
use go_codec_dagpb.Outcome.{ok, err, panic, no_such_index, out_of_range}
use go_codec_dagpb.Schema.{
  PbLink, PbLinks, cid_link, hash_key, name_key, tsize_key, links_key, data_key,
}
use go_codec_dagpb.Message.{LinkValue, Message, link_of, node_of}
use go_codec_dagpb.Node.{Node, Typed, Entries}
use go_codec_dagpb.Node.LinkView
use go_codec_dagpb.Node.LinkView.{key_node}
use go_codec_dagpb.Node.LinksView.{index, lookup_by_index}
use go_codec_dagpb.Node.NodeView
use go_codec_dagpb.Node.Access.{
  link_entries, link_entries_repr, node_entries, node_entries_repr, count_entries,
}

module _ {C : Type 0} where
  -- An entry for an optional field: in the typed view it is there in any case.
  abbrev typed_entry {ℓ} : {A : Type ℓ} → Bytes → (A → Typed C) → Option A → Entries C → Entries C
  typed_entry k view none es = Entries.entry (key_node k) Node.absent es
  typed_entry k view (some a) es = Entries.entry (key_node k) (Node.typed (view a)) es

  -- In the representation it is left out if it is absent.
  abbrev repr_entry {ℓ} : {A : Type ℓ} → Bytes → (A → Typed C) → Option A → Entries C → Entries C
  repr_entry k view none es = es
  repr_entry k view (some a) es = Entries.entry (key_node k) (Node.typed (view a)) es

  abbrev hash_entry : LinkValue C → Entries C → Entries C
  hash_entry l es = Entries.entry (key_node hash_key) (Node.typed (Typed.link (cid_link l.hash))) es

  abbrev pub link_fields : LinkValue C → Entries C
  link_fields l = hash_entry l (
      typed_entry name_key Typed.string l.name
        (typed_entry tsize_key Typed.int l.tsize Entries.end))

  abbrev pub link_fields_repr : LinkValue C → Entries C
  link_fields_repr l =
      hash_entry l (
        repr_entry name_key Typed.string l.name
          (repr_entry tsize_key Typed.int l.tsize Entries.end))

  -- What the map iterators of a link yield, and the Length of its representation.
  abbrev pub LinkEntries : LinkValue C → Type 0
  LinkEntries l =
      (link_entries (link_of l) ≡ ok (link_fields l))
      × (link_entries_repr (link_of l) ≡ ok (link_fields_repr l))
      × (LinkView.repr_length (link_of l) ≡ count_entries (link_fields_repr l))

  link_of-LinkEntries : (l : LinkValue C) → LinkEntries l
  unfolding link_entries link_entries_repr LinkView.repr_length count_entries
  link_of-LinkEntries l = go l.hash l.name l.tsize
    where
      go :
          (c : C) (n : Option Bytes) (t : Option ℤ)
          → let l : LinkValue C = record { hash = c; name = n; tsize = t } in LinkEntries l
      go c none none = (refl, refl, refl)
      go c none (some t) = (refl, refl, refl)
      go c (some n) none = (refl, refl, refl)
      go c (some n) (some t) = (refl, refl, refl)

  abbrev pub node_fields : Message C → Entries C
  node_fields m =
      Entries.entry (key_node links_key)
        (Node.typed (Typed.pb_links (record { x = map link_of m.links })))
        (typed_entry data_key Typed.bytes m.bytes Entries.end)

  abbrev pub node_fields_repr : Message C → Entries C
  node_fields_repr m =
      Entries.entry (key_node links_key)
        (Node.typed (Typed.pb_links_repr (record { x = map link_of m.links })))
        (repr_entry data_key Typed.bytes m.bytes Entries.end)

  -- The same of a node.
  abbrev pub NodeEntries : Message C → Type 0
  NodeEntries m =
      (node_entries (node_of m) ≡ ok (node_fields m))
      × (node_entries_repr (node_of m) ≡ ok (node_fields_repr m))
      × (NodeView.repr_length (node_of m) ≡ count_entries (node_fields_repr m))

  node_of-NodeEntries : (m : Message C) → NodeEntries m
  unfolding node_entries node_entries_repr NodeView.repr_length count_entries
  node_of-NodeEntries m = go m.links m.bytes
    where
      go :
          (ls : List (LinkValue C)) (d : Option Bytes)
          → let m : Message C = record { links = ls; bytes = d } in NodeEntries m
      go ls none = (refl, refl, refl)
      go ls (some b) = (refl, refl, refl)

  -- The map iterators of a link yield Hash, Name and Tsize, and those of a node Links and Data, in
  -- this order: the typed one with Absent for an absent field, that of the representation without it.
  -- The representation's Length is the number of entries that its iterator yields.
  pub map_entries_all : (l : LinkValue C) (m : Message C) → LinkEntries l × NodeEntries m
  map_entries_all l m = (link_of-LinkEntries l, node_of-NodeEntries m)

  index-append :
      (xs : List (PbLink C)) (l : PbLink C) (ys : List (PbLink C))
      → index (xs ++ l ∷ ys) (length xs) ≡ ok l
  unfolding index
  index-append [] l ys = refl
  index-append (x ∷ xs) l ys = index-append xs l ys

  -- LookupByIndex, on a list of links, gives the link at an index within it and an error for an index
  -- from the length on; for a negative index it panics.
  pub lookup_by_index-cases :
      (xs : List (PbLink C)) (l : PbLink C) (ys : List (PbLink C)) (i n : ℕ)
      → length (xs ++ l ∷ ys) ≤ i
      → let links : PbLinks C = record { x = xs ++ l ∷ ys } in
        (lookup_by_index links (pos (length xs)) ≡ ok (Node.typed (Typed.pb_link l)))
        × (lookup_by_index links (pos i) ≡ err (no_such_index (pos i)))
        × (lookup_by_index links (negsuc n) ≡ panic out_of_range)
  unfolding lookup_by_index
  lookup_by_index-cases xs l ys i n h = (
    rw (lt→leb (length xs) (length (xs ++ l ∷ ys)) (omega (arith, length-append xs (l ∷ ys))))
        (rw (index-append xs l ys) refl),
    rw (le→leb (length (xs ++ l ∷ ys)) i h) refl,
    refl,
  )
