-- ===== src/Unmarshal/ReplayBuilder.antt =====
-- The builder of a PBNode under the calls that the decoder makes for a message.
use go_codec_dagpb.Common.{
  ℕ, ◌≡◌, refl, sym, ap, ◌∙◌, Bytes, Option, none, some, List, [], ◌∷◌, ◌++◌, map, append_assoc,
}
use go_codec_dagpb.Outcome.{Outcome, ok, ◌>>=◌, bind_assoc}
use go_codec_dagpb.Schema.{PbLink}
use go_codec_dagpb.Message.{LinkValue, Message, link_of, node_of}
use go_codec_dagpb.Assembler.Root
use go_codec_dagpb.Assembler.Root.{RootAssembler}
use go_codec_dagpb.Unmarshal.Target.{node_builder}
use go_codec_dagpb.Unmarshal.Row.{
  row_state, finished_row, in_row, put_hash-row, put_name-row, put_tsize-row, finish_row,
}
use go_codec_dagpb.Unmarshal.Phase.{
  start, opened, closed, last_of, begin_map-new, put_data-start, begin_links-start,
  begin_links-data_only, row-opened, row-in_row, list_finish-in_row, list_finish-opened,
  put_data-closed, finish-closed, finish-data_after,
}
use go_codec_dagpb.Unmarshal.Replay.{
  replay_name, replay_tsize, replay_data, replay_fields, replay_link, replay_links, replay_body,
  replay,
}

module _ {C : Type 0} where
  replay_name-row :
      (d : Option Bytes) (x : List (PbLink C)) (f : ℕ) (h : C) (n : Option Bytes)
      → replay_name node_builder n (in_row d x (row_state f (some h) none none))
        ≡ ok (in_row d x (row_state f (some h) n none))
  replay_name-row d x f h none = refl
  replay_name-row d x f h (some n) = put_name-row d x f (some h) n

  replay_fields-row :
      (d : Option Bytes) (x : List (PbLink C)) (f : ℕ) (l : LinkValue C)
      → replay_fields node_builder l (in_row d x (row_state f none none none))
        ≡ ok (in_row d x (row_state f (some l.hash) l.name l.tsize))
  replay_fields-row d x f l =
      rw (put_hash-row d x f l.hash) (rw (replay_name-row d x f l.hash l.name) (tsized l.tsize))
    where
      tsized :
          (i : _)
          → replay_tsize node_builder i (in_row d x (row_state f (some l.hash) l.name none))
            ≡ ok (in_row d x (row_state f (some l.hash) l.name i))
      tsized none = refl
      tsized (some i) = put_tsize-row d x f (some l.hash) l.name i

  replay_link-opened :
      (d : Option Bytes) (l : LinkValue C)
      → replay_link node_builder l (opened d) ≡ ok (in_row d [] (finished_row l))
  replay_link-opened d l = rw (row-opened d) (rw (replay_fields-row d [] 0 l) (finish_row d [] 0 l))

  replay_link-in_row :
      (d : Option Bytes) (x : List (PbLink C)) (l₀ l : LinkValue C)
      → replay_link node_builder l (in_row d x (finished_row l₀))
        ≡ ok (in_row d (x ++ link_of l₀ ∷ []) (finished_row l))
  replay_link-in_row d x l₀ l =
      rw (row-in_row d x l₀)
        (rw (replay_fields-row d _ (last_of l₀) l) (finish_row d _ (last_of l₀) l))

  -- The row that was last at work.
  abbrev pub last_from : LinkValue C → List (LinkValue C) → LinkValue C
  last_from l [] = l
  last_from l (l' ∷ ls) = last_from l' ls

  replay_links-in_row :
      (d : Option Bytes) (x : List (PbLink C)) (l₀ : LinkValue C) (ls : List (LinkValue C))
      → (replay_links node_builder ls (in_row d x (finished_row l₀)) >>= node_builder.list_finish)
        ≡ ok (closed d (x ++ map link_of (l₀ ∷ ls)) (last_of (last_from l₀ ls)))
  replay_links-in_row d x l₀ [] = list_finish-in_row d x l₀
  replay_links-in_row d x l₀ (l ∷ ls) = rw (replay_link-in_row d x l₀ l) (
      replay_links-in_row d (x ++ link_of l₀ ∷ []) l ls
      ∙ ap (λ y. ok (closed d y (last_of (last_from l ls)))) (append_assoc x _ _))

  -- The outcome is a builder state from which Build gives the message.
  abbrev pub Yields : Message C → Outcome (RootAssembler C) → Type 0
  Yields m out = (a : RootAssembler C) × (out ≡ ok a) × (Root.build a ≡ ok (node_of m))

  pub replay_links-opened :
      (d : Option Bytes) (l : LinkValue C) (ls : List (LinkValue C))
      → (replay_links node_builder (l ∷ ls) (opened d) >>= node_builder.list_finish)
        ≡ ok (closed d (map link_of (l ∷ ls)) (last_of (last_from l ls)))
  replay_links-opened d l ls = rw (replay_link-opened d l) (replay_links-in_row d [] l ls)

  body-links :
      (l : LinkValue C) (ls : List (LinkValue C)) (d : Option Bytes)
      → replay_body node_builder (l ∷ ls) d start
        ≡ replay_data node_builder d (closed none (map link_of (l ∷ ls)) (last_of (last_from l ls)))
  body-links l ls d = rw begin_links-start (
      sym (bind_assoc (replay_links node_builder (l ∷ ls) (opened none)) node_builder.list_finish _)
      ∙ rw (replay_links-opened none l ls) refl)

  Yields-body :
      (ls : List (LinkValue C)) (d : Option Bytes)
      → Yields
          (record { links = ls; bytes = d })
          (replay_body node_builder ls d start >>= node_builder.finish)
  Yields-body [] none =
      rw begin_links-start (rw (list_finish-opened none) (finish-closed none [] 0))
  Yields-body [] (some b) = rw (put_data-start b) (
      rw (begin_links-data_only b) (rw (list_finish-opened (some b)) (finish-closed (some b) [] 0)))
  Yields-body (l ∷ ls) none = rw (body-links l ls none) (finish-closed none (l ∷ ls) _)
  Yields-body (l ∷ ls) (some b) =
      rw (body-links l ls (some b))
        (rw (put_data-closed (map link_of (l ∷ ls)) _ b) (finish-data_after (l ∷ ls) _ b))

  pub Yields-replay : (m : Message C) → Yields m (replay node_builder m Root.new_builder)
  Yields-replay m = rw begin_map-new (Yields-body m.links m.bytes)
