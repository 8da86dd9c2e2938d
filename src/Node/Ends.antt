-- ===== src/Node/Ends.antt =====
-- The map iterators of this package's nodes come to their end, with no panic on the way.
use go_codec_dagpb.Common.{◌≡◌, refl}
use go_codec_dagpb.Outcome.{Outcome, ok}
use go_codec_dagpb.Schema.{Maybe, PbLink, PbNode}
use go_codec_dagpb.Node.{Entries}
use go_codec_dagpb.Node.Access.{link_entries, link_entries_repr, node_entries, node_entries_repr}

module _ {C : Type 0} where
  -- The loop over an iterator ends, and has these entries.
  abbrev pub Ends : Outcome (Entries C) → Type 0
  Ends it = (es : Entries C) × (it ≡ ok es)

  pub link_entries-Ends : (n : PbLink C) → Ends (link_entries n)
  unfolding link_entries
  link_entries-Ends n = go n.name.m n.tsize.m
    where
      go :
          (m m' : Maybe)
          → Ends (
              link_entries (record n {
                name = record { m = m; v = n.name.v };
                tsize = record { m = m'; v = n.tsize.v };
              }))
      go Maybe.absent Maybe.absent = (_, refl)
      go Maybe.absent _ = (_, refl)
      go _ Maybe.absent = (_, refl)
      go _ _ = (_, refl)

  pub link_entries_repr-Ends : (n : PbLink C) → Ends (link_entries_repr n)
  unfolding link_entries_repr
  link_entries_repr-Ends n = go n.name.m n.tsize.m
    where
      go :
          (m m' : Maybe)
          → Ends (
              link_entries_repr (record n {
                name = record { m = m; v = n.name.v };
                tsize = record { m = m'; v = n.tsize.v };
              }))
      go Maybe.absent Maybe.absent = (_, refl)
      go Maybe.absent _ = (_, refl)
      go _ Maybe.absent = (_, refl)
      go _ _ = (_, refl)

  pub node_entries-Ends : (n : PbNode C) → Ends (node_entries n)
  unfolding node_entries
  node_entries-Ends n = go n.bytes.m
    where
      go : (m : Maybe) → Ends (node_entries (record n { bytes = record { m = m; v = n.bytes.v } }))
      go Maybe.absent = (_, refl)
      go _ = (_, refl)

  pub node_entries_repr-Ends : (n : PbNode C) → Ends (node_entries_repr n)
  unfolding node_entries_repr
  node_entries_repr-Ends n = go n.bytes.m
    where
      go :
          (m : Maybe)
          → Ends (node_entries_repr (record n { bytes = record { m = m; v = n.bytes.v } }))
      go Maybe.absent = (_, refl)
      go _ = (_, refl)
