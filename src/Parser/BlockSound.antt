-- ===== src/Parser/BlockSound.antt =====
-- What the parser reads as a message is a block of the grammar.
use go_codec_dagpb.Common.{
  ℕ, zero, suc, ◌≡◌, refl, sym, ◌∙◌, Bytes, none, some, List, [], ◌∷◌, ◌++◌, append-nil,
  append_assoc, length,
}
use go_codec_dagpb.Outcome.AllOk.{
  AllOk, gives, fails, runs_on, AllOk-bind, AllOk-map, AllOk-reject_unless, AllOk-if_eq,
}
use go_codec_dagpb.Message.{LinkValue, Message}
use go_codec_dagpb.Wire.{Protowire, Cids}
use go_codec_dagpb.Parser.Block.{
  Phase, fresh, data_first, in_links, data_last, row, data_part, link_part, part, parse_rest,
  parse_block,
}
use go_codec_dagpb.Parser.Grammar.{
  IsTag, IsLinks, no_links, link, IsData, no_data, data_field, IsBlock, data_then_links,
  links_then_data,
}
use go_codec_dagpb.Parser.LinkSound.{AllOk-consumed, parse_link-IsLink}

module _ {C : Type 0} (p : Protowire) (k : Cids C) where
  -- `b` goes on to the message `m` where the phase was `ph` before it.
  abbrev GoesOn : Bytes → Phase C → Message C → Type 0
  GoesOn b fresh m = IsBlock p k b m
  GoesOn b (data_first d) m = (m.bytes ≡ some d) × IsLinks p k [] b m.links
  GoesOn b (in_links none ls l) m =
      (tail : List (LinkValue C)) × (c : Bytes) × (m.links ≡ (ls ++ row l) ++ tail)
      × IsLinks p k c b tail
      × IsData p [] c m.bytes
  GoesOn b (in_links (some d) ls l) m =
      (tail : List (LinkValue C)) × (m.links ≡ (ls ++ row l) ++ tail)
      × (m.bytes ≡ some d)
      × IsLinks p k [] b tail
  GoesOn b (data_last ls l d) m = (m ≡ record { links = ls ++ row l; bytes = some d }) × (b ≡ [])

  abbrev Back : Bytes → Phase C → Bytes × Phase C → Type 0
  Back b ph (rest, ph') = (m : Message C) → GoesOn rest ph' m → GoesOn b ph m

  module _ (b c : Bytes) where
    data_part-Back : (ph : Phase C) → IsTag p 1 2 b c → AllOk (Back b ph) (data_part p k c ph)
    data_part-Back (data_first _) g = fails
    data_part-Back (data_last _ _ _) g = fails
    data_part-Back (in_links (some _) _ _) g = fails
    data_part-Back fresh g = AllOk-bind (AllOk-consumed _ c) λ rest (n, e, e').
        gives λ m (same, links).
          data_then_links (rw same (data_field g (n, (λ i. ((p.consume_bytes c).0, e i)), e')))
            links
    data_part-Back (in_links none ls l) g = AllOk-bind (AllOk-consumed _ c) λ rest (n, e, e').
        gives λ m (same, ended). rw same (
          [],
          b,
          sym (append-nil (ls ++ row l)),
          no_links refl,
          rw (← ended) (data_field g (n, (λ i. ((p.consume_bytes c).0, e i)), e')),
        )

    link_part-Back : (ph : Phase C) → IsTag p 2 2 b c → AllOk (Back b ph) (link_part p k c ph)
    link_part-Back (data_last _ _ _) g = AllOk-bind (AllOk-consumed _ c) λ rest read. fails
    link_part-Back fresh g = AllOk-bind (AllOk-consumed _ c) λ rest (n, e, e').
        AllOk-bind (parse_link-IsLink p k _) λ l is. gives λ m (tail, d, same, links, then_data).
          links_then_data (rw same (link g (n, (λ i. ((p.consume_bytes c).0, e i)), e') is links))
            then_data
    link_part-Back (data_first d) g = AllOk-bind (AllOk-consumed _ c) λ rest (n, e, e').
        AllOk-bind (parse_link-IsLink p k _) λ l is. gives λ m (tail, same, same', links).
          (same', rw same (link g (n, (λ i. ((p.consume_bytes c).0, e i)), e') is links))
    link_part-Back (in_links none ls l') g = AllOk-bind (AllOk-consumed _ c) λ rest (n, e, e').
        AllOk-bind (parse_link-IsLink p k _) λ l is. gives λ m (tail, d, same, links, then_data). (
          l ∷ tail,
          d,
          same ∙ append_assoc (ls ++ row l') (row l) tail,
          link g (n, (λ i. ((p.consume_bytes c).0, e i)), e') is links,
          then_data,
        )
    link_part-Back (in_links (some d) ls l') g = AllOk-bind (AllOk-consumed _ c) λ rest (n, e, e').
        AllOk-bind (parse_link-IsLink p k _) λ l is. gives λ m (tail, same, same', links). (
          l ∷ tail,
          same ∙ append_assoc (ls ++ row l') (row l) tail,
          same',
          link g (n, (λ i. ((p.consume_bytes c).0, e i)), e') is links,
        )

  part-Back : (b : Bytes) (ph : Phase C) → AllOk (Back b ph) (part p k b ph)
  unfolding part
  part-Back b ph = AllOk-bind (AllOk-consumed _ b) λ c (n, e, e').
      let num = (p.consume_tag b).0 in
      AllOk-reject_unless (p.consume_tag b).1 2 _ λ two.
        AllOk-if_eq num 1 (λ is. data_part-Back b c ph (n, (λ i. (is i, two i, e i)), e'))
          (AllOk-if_eq num 2 (λ is. link_part-Back b c ph (n, (λ i. (is i, two i, e i)), e')) fails)

  parse_rest-GoesOn :
      (fuel : ℕ) (b : Bytes) (ph : Phase C) → AllOk (GoesOn b ph) (parse_rest p k fuel b ph)
  unfolding parse_rest
  parse_rest-GoesOn fuel [] fresh = gives (data_then_links (no_data refl) (no_links refl))
  parse_rest-GoesOn fuel [] (data_first d) = gives (refl, no_links refl)
  parse_rest-GoesOn fuel [] (in_links none ls l) =
      gives ([], [], sym (append-nil (ls ++ row l)), no_links refl, no_data refl)
  parse_rest-GoesOn fuel [] (in_links (some d) ls l) =
      gives ([], sym (append-nil (ls ++ row l)), refl, no_links refl)
  parse_rest-GoesOn fuel [] (data_last ls l d) = gives (refl, refl)
  parse_rest-GoesOn zero (c ∷ cs) ph = runs_on
  parse_rest-GoesOn (suc fuel) (c ∷ cs) ph =
      AllOk-bind (part-Back (c ∷ cs) ph)
        λ (rest, ph') back. AllOk-map (parse_rest-GoesOn fuel rest ph') back

  -- What the parser reads as a message is a block of the grammar.
  pub parse_block-IsBlock : (b : Bytes) → AllOk (IsBlock p k b) (parse_block p k b)
  unfolding parse_block
  parse_block-IsBlock b = parse_rest-GoesOn (length b) b fresh
