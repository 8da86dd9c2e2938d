-- ===== src/Marshal/Collect.antt =====
-- marshal.go: the loop of `AppendEncode` that collects the links of a typed node into a slice.
use go_codec_dagpb.Common.{
  ℕ, ℤ, pos, negsuc, Bytes, Bool, true, false, List, [], ◌∷◌, if◌then◌else◌,
}
use go_codec_dagpb.Outcome.{Outcome, ok, err, link_without_hash, negative_tsize, ◌>>=◌}
use go_codec_dagpb.Schema.{Link, cid_link, hash_key, name_key, tsize_key}
use go_codec_dagpb.Node.{Node, Items}
use go_codec_dagpb.Node.Access.{is_absent, as_string, as_int, as_link, lookup_by_string}
use go_codec_dagpb.Marshal.Sort.{PbLinkRow}

-- `if tsize < 0 { return … }; utsize := uint64(tsize)`
to_uint : ℤ → Outcome ℕ
to_uint (pos n) = ok n
to_uint (negsuc n) = err (negative_tsize n)

module _ {C : Type 0} where
  -- `l.(cidlink.Link)`
  cid_of : Link C → Outcome C
  cid_of (cid_link c) = ok c
  cid_of _ = err link_without_hash

  -- Name (optional): the name and whether it is there.
  optional_name : Node C → Outcome (Bytes × Bool)
  unfolding is_absent as_string
  optional_name v = if is_absent v then ok ([], false) else (do name ← as_string v; ok (name, true))

  -- Tsize (optional)
  optional_tsize : Node C → Outcome (ℕ × Bool)
  unfolding is_absent as_int to_uint
  optional_tsize v =
      if is_absent v then ok (0, false) else (do i ← as_int v; tsize ← to_uint i; ok (tsize, true))

  -- The body of the loop.
  unfoldable pub collect_link : Node C → Outcome (PbLinkRow C)
  unfolding lookup_by_string as_link cid_of optional_name optional_tsize
  collect_link v = do
    d ← lookup_by_string v hash_key
    l ← as_link d
    hash ← cid_of l
    n ← lookup_by_string v name_key
    (name, has_name) ← optional_name n
    t ← lookup_by_string v tsize_key
    (tsize, has_tsize) ← optional_tsize t
    ok (record {
      hash = hash;
      name = name;
      has_name = has_name;
      tsize = tsize;
      has_tsize = has_tsize;
    })

  -- The loop, over what the list iterator yields.
  unfoldable pub collect : Items C → Outcome (List (PbLinkRow C))
  unfolding collect_link
  collect Items.last = ok []
  collect (Items.item_fails e) = err e
  collect (Items.item v xs) = do l ← collect_link v; ls ← collect xs; ok (l ∷ ls)
