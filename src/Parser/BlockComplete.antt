-- ===== src/Parser/BlockComplete.antt =====
-- The parser reads every block of the grammar.
use go_codec_dagpb.Common.{
  ℕ, zero, suc, ◌<◌, ◌≤◌, ◌≡◌, refl, Bytes, Option, none, some, List, [], ◌∷◌, ◌++◌, append-nil,
  append_assoc, length, arith,
}
use go_codec_dagpb.Outcome.{ok}
use go_codec_dagpb.Message.{LinkValue, Message}
use go_codec_dagpb.Wire.{Protowire, IsReader, Cids}
use go_codec_dagpb.Parser.Block.{
  Phase, fresh, data_first, in_links, data_last, row, part, parse_rest, parse_block,
}
use go_codec_dagpb.Parser.Grammar.{
  IsTag, IsChunk, IsLink, IsLinks, no_links, link, IsData, no_data, data_field, IsBlock,
  data_then_links, links_then_data,
}
use go_codec_dagpb.Parser.LinkComplete.{read_tag, read_chunk, parse_link_complete}

module _ {C : Type 0} (p : Protowire) (r : IsReader p) (k : Cids C) where
  -- From the phase `ph` on, the bytes `b` are read as the message `m`.
  abbrev Reads : Bytes → Phase C → Message C → Type 0
  Reads b ph m = (fuel : ℕ) → length b ≤ fuel → parse_rest p k fuel b ph ≡ ok m

  -- One field, and then the rest of the block.
  step :
      (b : Bytes) (ph : Phase C) (rest : Bytes) (ph' : Phase C) (m : Message C)
      → length rest < length b
      → part p k b ph ≡ ok (rest, ph')
      → Reads rest ph' m
      → Reads b ph m
  unfolding parse_rest
  step [] ph rest ph' m lt e ih fuel le = absurd (omega arith)
  step (c ∷ cs) ph rest ph' m lt e ih zero le = absurd (omega arith)
  step (c ∷ cs) ph rest ph' m lt e ih (suc fuel) le = rw e (ih fuel (omega arith))

  module _ (b c rest v : Bytes) where
    -- A field of the grammar, with its number.
    abbrev Field : ℕ → Type 0
    Field num = IsTag p num 2 b c × IsChunk p v c rest

    field_shorter : (num : ℕ) → Field num → length rest < length b
    field_shorter num (tag, value) =
        omega (arith, (read_tag p r num 2 b c tag).0, (read_chunk p r v c rest value).0)

    data_fresh : Field 1 → part p k b fresh ≡ ok (rest, data_first v)
    unfolding part
    data_fresh (tag, value) =
        let (lt, e, e₁, e₂) = read_tag p r 1 2 b c tag in
        let (lt', e', e₃) = read_chunk p r v c rest value in rw (e, e₁, e₂, e', e₃) refl

    data_in_links :
        (ls : List (LinkValue C)) (l : LinkValue C)
        → Field 1
        → part p k b (in_links none ls l) ≡ ok (rest, data_last ls l v)
    unfolding part
    data_in_links ls l (tag, value) =
        let (lt, e, e₁, e₂) = read_tag p r 1 2 b c tag in
        let (lt', e', e₃) = read_chunk p r v c rest value in rw (e, e₁, e₂, e', e₃) refl

    module _ (l : LinkValue C) (f : Field 2) (is : IsLink p k v l) where
      link_fresh : part p k b fresh ≡ ok (rest, in_links none [] l)
      unfolding part
      link_fresh =
          let (lt, e, e₁, e₂) = read_tag p r 2 2 b c f.0 in
          let (lt', e', e₃) = read_chunk p r v c rest f.1 in
          rw (e, e₁, e₂, e', e₃, parse_link_complete p r k v l is) refl

      link_data_first : (d : Bytes) → part p k b (data_first d) ≡ ok (rest, in_links (some d) [] l)
      unfolding part
      link_data_first d =
          let (lt, e, e₁, e₂) = read_tag p r 2 2 b c f.0 in
          let (lt', e', e₃) = read_chunk p r v c rest f.1 in
          rw (e, e₁, e₂, e', e₃, parse_link_complete p r k v l is) refl

      link_in_links :
          (d : Option Bytes) (ls : List (LinkValue C)) (l' : LinkValue C)
          → part p k b (in_links d ls l') ≡ ok (rest, in_links d (ls ++ row l') l)
      unfolding part
      link_in_links d ls l' =
          let (lt, e, e₁, e₂) = read_tag p r 2 2 b c f.0 in
          let (lt', e', e₃) = read_chunk p r v c rest f.1 in
          rw (e, e₁, e₂, e', e₃, parse_link_complete p r k v l is) refl

  abbrev message : List (LinkValue C) → Option Bytes → Message C
  message ls d = record { links = ls; bytes = d }

  -- More links, and then what `c` is read as.
  more_links :
      (d d' : Option Bytes) (c b : Bytes) (tail ls : List (LinkValue C)) (l : LinkValue C)
      → IsLinks p k c b tail
      → ((ls : List (LinkValue C)) (l : LinkValue C)
          → Reads c (in_links d ls l) (message (ls ++ row l) d'))
      → Reads b (in_links d ls l) (message ((ls ++ row l) ++ tail) d')
  more_links d d' c b _ ls l (no_links e) end = rw (e, append-nil) (end ls l)
  more_links d d' c b _ ls l (link {c = a} {e = rest} {v} {l = l'} {ls = tail} tag value is links)
        end =
      step b (in_links d ls l) rest (in_links d (ls ++ row l) l') _
        (field_shorter b a rest v 2 (tag, value))
        (link_in_links b a rest v l' (tag, value) is d ls l)
        (rw (← append_assoc (ls ++ row l) (row l') tail)
          (more_links d d' c rest tail (ls ++ row l) l' links end))

  -- Links behind Data.
  links_last :
      (d b : Bytes) (ls : List (LinkValue C))
      → IsLinks p k [] b ls
      → Reads b (data_first d) (message ls (some d))
  unfolding parse_rest
  links_last d b _ (no_links e) = λ fuel le. rw e refl
  links_last d b _ (link {c = a} {e = rest} {v} {l} {ls} tag value is links) =
      step b (data_first d) rest (in_links (some d) [] l) _
        (field_shorter b a rest v 2 (tag, value)) (link_data_first b a rest v l (tag, value) is d)
        (more_links (some d) (some d) [] rest ls [] l links λ ls l fuel le. refl)

  -- Data, if there is any, at the end.
  data_end :
      (c : Bytes) (d : Option Bytes) (ls : List (LinkValue C)) (l : LinkValue C)
      → IsData p [] c d
      → Reads c (in_links none ls l) (message (ls ++ row l) d)
  unfolding parse_rest
  data_end c _ ls l (no_data e) = λ fuel le. rw e refl
  data_end c _ ls l (data_field {c = a} {v} tag value) =
      step c (in_links none ls l) [] (data_last ls l v) _ (field_shorter c a [] v 1 (tag, value))
        (data_in_links c a [] v ls l (tag, value)) λ fuel le. refl

  -- Data, if there is any, in front of the links.
  data_then_links-Reads :
      (c b : Bytes) (d : Option Bytes) (ls : List (LinkValue C))
      → IsData p c b d
      → IsLinks p k [] c ls
      → Reads b fresh (message ls d)
  unfolding parse_rest
  data_then_links-Reads c b _ _ (no_data e) (no_links e') = λ fuel le. rw (e, e') refl
  data_then_links-Reads c b _ _ (no_data e)
        (link {c = a} {e = rest} {v} {l} {ls} tag value is links) =
      rw e (
        step c fresh rest (in_links none [] l) _ (field_shorter c a rest v 2 (tag, value))
          (link_fresh c a rest v l (tag, value) is)
          (more_links none none [] rest ls [] l links λ ls l fuel le. refl))
  data_then_links-Reads c b _ ls (data_field {c = a} {v} tag value) links =
      step b fresh c (data_first v) _ (field_shorter b a c v 1 (tag, value))
        (data_fresh b a c v (tag, value)) (links_last v c ls links)

  -- Data, if there is any, behind the links.
  links_then_data-Reads :
      (c b : Bytes) (d : Option Bytes) (ls : List (LinkValue C))
      → IsLinks p k c b ls
      → IsData p [] c d
      → Reads b fresh (message ls d)
  unfolding parse_rest
  links_then_data-Reads c b d _ (no_links e) then_data =
      rw e (data_then_links-Reads [] c d [] then_data (no_links refl))
  links_then_data-Reads c b d _ (link {c = a} {e = rest} {v} {l} {ls} tag value is links)
        then_data =
      step b fresh rest (in_links none [] l) _ (field_shorter b a rest v 2 (tag, value))
        (link_fresh b a rest v l (tag, value) is)
        (more_links none d c rest ls [] l links λ ls l. data_end c d ls l then_data)

  -- The parser reads every block of the grammar.
  pub parse_block_complete :
      (b : Bytes) (m : Message C) → IsBlock p k b m → parse_block p k b ≡ ok m
  unfolding parse_block
  parse_block_complete b m (data_then_links {c} then_data links) =
      data_then_links-Reads c b m.bytes m.links then_data links (length b) (omega arith)
  parse_block_complete b m (links_then_data {c} links then_data) =
      links_then_data-Reads c b m.bytes m.links links then_data (length b) (omega arith)
