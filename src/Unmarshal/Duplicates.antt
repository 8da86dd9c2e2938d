-- ===== src/Unmarshal/Duplicates.antt =====
-- `DecodeBytes` on blocks whose links are not in one run.
use go_codec_dagpb.Common.{
  zero, suc, ◌<◌, ◌^◌, ◌≡◌, refl, ◌∙◌, Bytes, false, none, List, [], ◌∷◌, ◌++◌, length, map, arith,
  All,
}
use go_codec_dagpb.Outcome.{Outcome, err, duplicate_links, ◌>>=◌, bind_assoc, bind_same}
use go_codec_dagpb.Message.{LinkValue, link_of}
use go_codec_dagpb.Wire.{Protowire, IsReader, IsCodec, Cids}
use go_codec_dagpb.Assembler.Root
use go_codec_dagpb.Marshal.Image.{delimited, links_image, IsEncodable}
use go_codec_dagpb.Parser.Grammar.{IsTag, IsChunk, IsLinks, link}
use go_codec_dagpb.Parser.Images.{delimited-Field, links_image-IsLinks}
use go_codec_dagpb.Parser.LinkComplete.{read_tag, read_chunk}
use go_codec_dagpb.Unmarshal.Target.{Target, node_builder, put_data, begin_links}
use go_codec_dagpb.Unmarshal.Node.{Flags, no_flags, node_round, node_loop, decode_bytes}
use go_codec_dagpb.Unmarshal.NodeCalls.{
  Closes, Closes-data_last, Closes-links_first, in_links, links_closed,
}
use go_codec_dagpb.Unmarshal.Replay.{replay_links}
use go_codec_dagpb.Unmarshal.ReplayBuilder.{last_from, replay_links-opened}
use go_codec_dagpb.Unmarshal.Phase.{
  opened, last_of, begin_map-new, begin_links-start, put_data-closed,
}

module _ {C S : Type 0} (p : Protowire) (r : IsReader p) (k : Cids C) (t : Target C S) where
  -- A round that fails ends the loop.
  Closes-err :
      (b : Bytes) (fl : Flags) (s : S) (e : _)
      → 0 < length b
      → node_round p k t b fl s ≡ err e
      → Closes p r k t b fl s (err e)
  unfolding node_loop
  Closes-err [] fl s e lt h fuel le = absurd (omega arith)
  Closes-err (c ∷ cs) fl s e lt h zero le = absurd (omega arith)
  Closes-err (c ∷ cs) fl s e lt h (suc fuel) le = rw h refl

  links_again :
      (b c v rest : Bytes) (s : S)
      → IsTag p 2 2 b c
      → IsChunk p v c rest
      → Closes p r k t b links_closed s (err duplicate_links)
  unfolding node_round
  links_again b c v rest s tag value =
      let (lt, e, e₁, e₂) = read_tag p r 2 2 b c tag in
      let (lt', e', _) = read_chunk p r v c rest value in
      Closes-err b links_closed s duplicate_links (omega arith) (rw (e, e₁, e₂, e') refl)

  split : Bytes → S → Outcome S
  split d s = (t.list_finish s >>= put_data t d) >>= λ _. err duplicate_links

  -- Data, and a link behind it.
  Closes-split :
      (b c d e f v rest : Bytes) (s : S)
      → IsTag p 1 2 b c × IsChunk p d c e
      → IsTag p 2 2 e f × IsChunk p v f rest
      → Closes p r k t b (in_links false) s (split d s)
  unfolding split
  Closes-split b c d e f v rest s data_field (tag, value) =
      Closes-data_last p r k t b c e d s (λ _. err duplicate_links) data_field
        λ s'. links_again e f v rest s' tag value

  broken : LinkValue C → List (LinkValue C) → Bytes → S → Outcome S
  unfolding split
  broken l ls d s = (begin_links t s >>= replay_links t (l ∷ ls)) >>= split d

  Closes-broken :
      (a b c d e f v rest : Bytes) (l : LinkValue C) (ls : List (LinkValue C)) (s : S)
      → IsLinks p k b a (l ∷ ls)
      → IsTag p 1 2 b c × IsChunk p d c e
      → IsTag p 2 2 e f × IsChunk p v f rest
      → Closes p r k t a no_flags s (broken l ls d s)
  unfolding broken
  Closes-broken a b c d e f v rest l ls s (link {c = a'} {e = next} {v = w} tag value is links)
        data_field again =
      Closes-links_first p r k t b a a' next w false l ls (split d) s tag value is links
        λ s'. Closes-split b c d e f v rest s' data_field again

module _ {C : Type 0} (p : Protowire) (r : IsReader p) (q : IsCodec p) (k : Cids C) where
  broken-builder :
      (l : LinkValue C) (ls : List (LinkValue C)) (d : Bytes)
      → (node_builder.begin_map Root.new_builder >>= broken p r k node_builder l ls d)
        ≡ err duplicate_links
  unfolding broken split
  broken-builder l ls d = rw begin_map-new (
      rw begin_links-start (
        rw regroup (
          rw (replay_links-opened none l ls)
            (rw (put_data-closed (map link_of (l ∷ ls)) (last_of (last_from l ls)) d) refl))))
    where
      regroup :
          (replay_links node_builder (l ∷ ls) (opened none) >>= split p r k node_builder d) ≡ (
            ((replay_links node_builder (l ∷ ls) (opened none) >>= node_builder.list_finish)
              >>= put_data node_builder d)
            >>= λ _. err duplicate_links)
      regroup = simp (bind_assoc, split)

  -- Links that go on behind Data are refused: a block that has links that can be encoded, then Data,
  -- then a field with the number of Links, whatever it holds and whatever follows, is the duplicate
  -- Links error. Data and that field have lengths that Go's int holds.
  pub decode_bytes-split_links :
      (l : LinkValue C) (ls : List (LinkValue C)) (b v rest : Bytes)
      → All (IsEncodable p k) (l ∷ ls)
      → length b < 2 ^ 63
      → length v < 2 ^ 63
      → decode_bytes p k node_builder
          (links_image p k (l ∷ ls) ++ (delimited p k 1 b ++ (delimited p k 2 v ++ rest)))
          Root.new_builder
        ≡ err duplicate_links
  unfolding decode_bytes
  decode_bytes-split_links l ls b v rest es hb hv =
      let tail = delimited p k 2 v ++ rest in
      let (c, tag, value) = delimited-Field p q k 1 b tail (omega arith) (omega arith) hb in
      let (f, tag', value') = delimited-Field p q k 2 v rest (omega arith) (omega arith) hv in
      let links = links_image-IsLinks p q k (l ∷ ls) (delimited p k 1 b ++ tail) es in
      let src = links_image p k (l ∷ ls) ++ (delimited p k 1 b ++ tail) in
      bind_same (node_builder.begin_map Root.new_builder) _ (broken p r k node_builder l ls b)
        (λ s₀.
          Closes-broken p r k node_builder src (delimited p k 1 b ++ tail) c b tail f v rest l ls s₀
            links (tag, value) (tag', value') (length src) (omega arith))
      ∙ broken-builder l ls b
