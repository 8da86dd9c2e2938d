-- ===== src/Marshal/Append.antt =====
-- marshal.go: `AppendEncode` and `Encode`.
use go_codec_dagpb.Common.{
  ℕ, ◌+◌, ℤ, pos, negsuc, Bytes, Bool, false, List, [], ◌∷◌, length, ltb, none, some, if◌then◌else◌,
}
use go_codec_dagpb.Outcome.{Outcome, ok, panic, nil_pointer, ◌>>=◌, err, stuck}
use go_codec_dagpb.Schema.{links_key, data_key}
use go_codec_dagpb.Node.{Node, Typed}
use go_codec_dagpb.Node.Access.{is_absent, as_bytes, lookup_by_string, list_iterator, length_of}
use go_codec_dagpb.Wire.{Protowire, Cids}
use go_codec_dagpb.Marshal.Sort.{PbLinkRow, sort_links}
use go_codec_dagpb.Marshal.Collect.{collect}
use go_codec_dagpb.Assembler.Root

-- `n > 0`
abbrev pub is_positive : ℤ → Bool
is_positive (pos n) = ltb 0 n
is_positive (negsuc n) = false

module _ {C : Type 0} (p : Protowire) (k : Cids C) where
  -- The length of a link's message, from the Size functions.
  unfoldable pub link_size : PbLinkRow C → ℕ
  link_size link =
      p.size_tag 2
      + p.size_bytes (length (k.to_bytes link.hash))
      + (if link.has_name then p.size_tag 2 + p.size_bytes (length link.name) else 0)
      + (if link.has_tsize then p.size_tag 3 + p.size_varint link.tsize else 0)

  unfoldable pub append_name : PbLinkRow C → Bytes → Bytes
  append_name link enc =
      if link.has_name then p.append_bytes (p.append_tag enc 2 2) link.name else enc

  unfoldable pub append_tsize : PbLinkRow C → Bytes → Bytes
  append_tsize link enc =
      if link.has_tsize then p.append_varint (p.append_tag enc 3 0) link.tsize else enc

  -- The body of the loop over the sorted links.
  unfoldable pub append_link : Bytes → PbLinkRow C → Bytes
  unfolding link_size append_name append_tsize
  append_link enc link =
      let e₁ = p.append_tag enc 2 2 in
      let e₂ = p.append_varint e₁ (link_size link) in
      let e₃ = p.append_tag e₂ 1 2 in
      let e₄ = p.append_bytes e₃ (k.to_bytes link.hash) in append_tsize link (append_name link e₄)

  unfoldable pub append_links : Bytes → List (PbLinkRow C) → Bytes
  unfolding append_link
  append_links enc [] = enc
  append_links enc (link ∷ rest) = append_links (append_link enc link) rest

  -- Data (optional)
  unfoldable pub append_data : Bytes → Node C → Outcome Bytes
  unfolding is_absent as_bytes
  append_data enc v =
      if is_absent v
      then ok enc
      else (do byts ← as_bytes v; ok (p.append_bytes (p.append_tag enc 1 2) byts))

  -- `if links.Length() > 0 { … }`: collect, sort, append.
  unfoldable pub append_list : Bytes → Node C → Outcome Bytes
  unfolding collect sort_links append_links list_iterator length_of
  append_list enc v =
      if is_positive (length_of v)
      then elim (list_iterator v) [
        | none ↦ panic nil_pointer
        | some it ↦ do xs ← it; ls ← collect xs; ok (append_links enc (sort_links ls))
      ]
      else ok enc

  unfoldable pub append_encode : Bytes → Node C → Outcome Bytes
  unfolding append_list append_data lookup_by_string Root.assign_node Root.build Root.new_builder
  append_encode enc in_node = do
    builder ← Root.assign_node in_node Root.new_builder
    n ← Root.build builder
    links ← lookup_by_string (Node.typed (Typed.pb_node n)) links_key
    enc₁ ← append_list enc links
    byts ← lookup_by_string (Node.typed (Typed.pb_node n)) data_key
    append_data enc₁ byts

  -- `w.Write(enc)` is the argument `write`, on the state `W` of the writer: the state behind the Write,
  -- and what it returns.
  unfoldable pub encode :
      {W : Type 0} → Node C → (Bytes → W → W × Outcome (Unit {0})) → W → W × Outcome (Unit {0})
  unfolding append_encode
  encode node write w = elim (append_encode [] node) [
    | ok enc ↦ write enc w
    | err e ↦ (w, err e)
    | panic p ↦ (w, panic p)
    | stuck ↦ (w, stuck)
  ]
