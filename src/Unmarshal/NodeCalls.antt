-- ===== src/Unmarshal/NodeCalls.antt =====
-- The calls that `DecodeBytes` makes on any target for a block of the grammar of Parser/Grammar.
use go_codec_dagpb.Common.{
  ℕ, zero, suc, ◌<◌, ◌≤◌, ◌≡◌, refl, sym, Bytes, Bool, true, false, Option, List, [], ◌∷◌, length,
  arith,
}
use go_codec_dagpb.Outcome.{Outcome, ok, ◌>>=◌, bind_dressed_then, bind_assoc, bind_same}
use go_codec_dagpb.Message.{LinkValue, Message}
use go_codec_dagpb.Wire.{Protowire, IsReader, Cids}
use go_codec_dagpb.Parser.Grammar.{
  IsTag, IsChunk, IsLink, IsLinks, no_links, link, IsData, no_data, data_field, IsBlock,
  data_then_links, links_then_data,
}
use go_codec_dagpb.Parser.LinkComplete.{read_tag, read_chunk}
use go_codec_dagpb.Unmarshal.Target.{Target, put_data, begin_links}
use go_codec_dagpb.Unmarshal.Node.{Flags, no_flags, node_round, node_loop, close, decode_bytes}
use go_codec_dagpb.Unmarshal.LinkCalls.{unmarshal_link-IsLink}
use go_codec_dagpb.Unmarshal.Replay.{
  replay_data, replay_link, replay_links, replay_body, replay_block,
}
use mathlib.Core.Path.{subst}

-- Links have not begun; or they are open.
abbrev pub before_links : Bool → Flags
before_links d = record { have_data = d; have_links = false; links_open = false }

abbrev pub in_links : Bool → Flags
in_links d = record { have_data = d; have_links = true; links_open = true }

-- Data was read behind the links.
abbrev pub links_closed : Flags
links_closed = record { have_data = true; have_links = true; links_open = false }

module _ {C S : Type 0} (p : Protowire) (r : IsReader p) (k : Cids C) (t : Target C S) where
  -- From `b`, with any fuel that the input allows, the loop and what follows it come to `out`.
  abbrev pub Closes : Bytes → Flags → S → Outcome S → Type 0
  Closes b fl s out =
      (fuel : ℕ)
      → length b ≤ fuel
      → (do (fl', s') ← node_loop p k t fuel b fl s; close p k t fl' s') ≡ out

  Closes-end : (fl : Flags) (s : S) → Closes [] fl s (close p k t fl s)
  unfolding node_loop
  Closes-end fl s zero h = refl
  Closes-end fl s (suc fuel) h = refl

  Closes-step :
      (b rest : Bytes) (fl fl' : Flags) (s : S) (op : Outcome S) (out : S → Outcome S)
      → length rest < length b
      → node_round p k t b fl s ≡ (op >>= λ s'. ok (rest, fl', s'))
      → ((s' : S) → Closes rest fl' s' (out s'))
      → Closes b fl s (op >>= out)
  unfolding node_loop
  Closes-step [] rest fl fl' s op out lt e later fuel h = absurd (omega arith)
  Closes-step (c ∷ cs) rest fl fl' s op out lt e later zero h = absurd (omega arith)
  Closes-step (c ∷ cs) rest fl fl' s op out lt e later (suc fuel) h =
      rw e (bind_dressed_then op _ _ _ _ (λ s'. later s' fuel (omega arith)))

  -- One field of the grammar, and then the rest of the block.
  module _ (b c rest v : Bytes) (s : S) (out : S → Outcome S) where
    abbrev pub Field : ℕ → Type 0
    Field num = IsTag p num 2 b c × IsChunk p v c rest

    field_shorter : (num : ℕ) → Field num → length rest < length b
    field_shorter num (tag, value) =
        omega (arith, (read_tag p r num 2 b c tag).0, (read_chunk p r v c rest value).0)

    -- From the flags `fl` on, the rest comes to `out`.
    abbrev pub Later : Flags → Type 0
    Later fl = (s' : S) → Closes rest fl s' (out s')

    Closes-data_first :
        Field 1 → Later (before_links true) → Closes b no_flags s (put_data t v s >>= out)
    unfolding node_round
    Closes-data_first f =
        let (lt, e, e₁, e₂) = read_tag p r 1 2 b c f.0 in
        let (lt', e', e₃) = read_chunk p r v c rest f.1 in
        Closes-step b rest no_flags (before_links true) s (put_data t v s) out (field_shorter 1 f)
          (rw (e, e₁, e₂, e', e₃) refl)

    pub Closes-data_last :
        Field 1
        → Later links_closed
        → Closes b (in_links false) s ((t.list_finish s >>= put_data t v) >>= out)
    unfolding node_round
    Closes-data_last f =
        let (lt, e, e₁, e₂) = read_tag p r 1 2 b c f.0 in
        let (lt', e', e₃) = read_chunk p r v c rest f.1 in
        Closes-step b rest (in_links false) links_closed s (t.list_finish s >>= put_data t v) out
          (field_shorter 1 f) (rw (e, e₁, e₂, e', e₃) (simp bind_assoc))

    module _ (d : Bool) (l : LinkValue C) (f : Field 2) (is : IsLink p k v l) where
      Closes-link_first :
          Later (in_links d)
          → Closes b (before_links d) s ((begin_links t s >>= replay_link t l) >>= out)
      unfolding node_round
      Closes-link_first =
          let (lt, e, e₁, e₂) = read_tag p r 2 2 b c f.0 in
          let (lt', e', e₃) = read_chunk p r v c rest f.1 in
          Closes-step b rest (before_links d) (in_links d) s (begin_links t s >>= replay_link t l)
            out (field_shorter 2 f)
            (rw (e, e₁, e₂, e', e₃) (simp (bind_assoc, unmarshal_link-IsLink p r k t v l _ is)))

      Closes-link : Later (in_links d) → Closes b (in_links d) s (replay_link t l s >>= out)
      unfolding node_round
      Closes-link =
          let (lt, e, e₁, e₂) = read_tag p r 2 2 b c f.0 in
          let (lt', e', e₃) = read_chunk p r v c rest f.1 in
          Closes-step b rest (in_links d) (in_links d) s (replay_link t l s) out (field_shorter 2 f)
            (rw (e, e₁, e₂, e', e₃) (simp (bind_assoc, unmarshal_link-IsLink p r k t v l _ is)))

  -- Links, and then `c`.
  Closes-links :
      (c b : Bytes) (d : Bool) (ls : List (LinkValue C)) (out : S → Outcome S) (s : S)
      → IsLinks p k c b ls
      → ((s' : S) → Closes c (in_links d) s' (out s'))
      → Closes b (in_links d) s (replay_links t ls s >>= out)
  Closes-links c b d _ out s (no_links e) later = rw e (later s)
  Closes-links c b d _ out s (link {c = a} {e = rest} {v} {l} {ls} tag value is links) later =
      subst (Closes b (in_links d) s) (sym (bind_assoc (replay_link t l s) _ _)) (
        Closes-link b a rest v s (λ s'. replay_links t ls s' >>= out) d l (tag, value) is
          λ s'. Closes-links c rest d ls out s' links later)

  -- The links of a block that begin with this one, and then `c`.
  pub Closes-links_first :
      (c b a rest v : Bytes) (d : Bool) (l : LinkValue C) (ls : List (LinkValue C))
      (out : S → Outcome S) (s : S)
      → IsTag p 2 2 b a
      → IsChunk p v a rest
      → IsLink p k v l
      → IsLinks p k c rest ls
      → ((s' : S) → Closes c (in_links d) s' (out s'))
      → Closes b (before_links d) s ((begin_links t s >>= replay_links t (l ∷ ls)) >>= out)
  Closes-links_first c b a rest v d l ls out s tag value is links later =
      subst (Closes b (before_links d) s) (simp bind_assoc) (
        Closes-link_first b a rest v s (λ s'. replay_links t ls s' >>= out) d l (tag, value) is
          λ s'. Closes-links c rest d ls out s' links later)

  -- The list of links, and nothing behind it.
  list : List (LinkValue C) → S → Outcome S
  list ls s = do s₁ ← begin_links t s; s₂ ← replay_links t ls s₁; s₃ ← t.list_finish s₂; t.finish s₃

  Closes-list :
      (b : Bytes) (d : Bool) (ls : List (LinkValue C)) (s : S)
      → IsLinks p k [] b ls
      → Closes b (before_links d) s (list ls s)
  unfolding list close
  Closes-list b d _ s (no_links e) = rw e (
      subst (Closes [] (before_links d) s) (bind_assoc (begin_links t s) _ _)
        (Closes-end (before_links d) s))
  Closes-list b d _ s (link {c = a} {e = rest} {v} {l} {ls} tag value is links) =
      subst (Closes b (before_links d) s) (bind_assoc (begin_links t s) _ _) (
        Closes-links_first [] b a rest v d l ls _ s tag value is links
          λ s'. Closes-end (in_links d) s')

  -- Data, if there is any, and then the list of links.
  data_and_list : Option Bytes → List (LinkValue C) → S → Outcome S
  unfolding list
  data_and_list d ls s = replay_data t d s >>= list ls

  Closes-data_and_list :
      (c b : Bytes) (d : Option Bytes) (ls : List (LinkValue C)) (s : S)
      → IsData p c b d
      → IsLinks p k [] c ls
      → Closes b no_flags s (data_and_list d ls s)
  unfolding data_and_list
  Closes-data_and_list c b _ ls s (no_data e) links = rw e (Closes-list c false ls s links)
  Closes-data_and_list c b _ ls s (data_field {c = a} {v} tag value) links =
      Closes-data_first b a c v s (list ls) (tag, value) λ s'. Closes-list c true ls s' links

  -- The end of the links, and then Data, if there is any.
  end_and_data : Option Bytes → S → Outcome S
  end_and_data d s = do s₁ ← t.list_finish s; s₂ ← replay_data t d s₁; t.finish s₂

  Closes-end_and_data :
      (b : Bytes) (d : Option Bytes) (s : S)
      → IsData p [] b d
      → Closes b (in_links false) s (end_and_data d s)
  unfolding end_and_data close
  Closes-end_and_data b _ s (no_data e) = rw e (Closes-end (in_links false) s)
  Closes-end_and_data b _ s (data_field {c = a} {v} tag value) =
      subst (Closes b (in_links false) s) (bind_assoc (t.list_finish s) _ _)
        (Closes-data_last b a [] v s t.finish (tag, value) λ s'. Closes-end links_closed s')

  body : Message C → S → Outcome S
  body m s = do s₁ ← replay_body t m.links m.bytes s; t.finish s₁

  Closes-body :
      (c b : Bytes) (ls : List (LinkValue C)) (d : Option Bytes) (s : S)
      → IsLinks p k c b ls
      → IsData p [] c d
      → Closes b no_flags s (body (record { links = ls; bytes = d }) s)
  unfolding body end_and_data data_and_list list
  Closes-body c b _ d s (no_links e) is = rw e (
      subst (Closes c no_flags s) (simp bind_assoc)
        (Closes-data_and_list [] c d [] s is (no_links refl)))
  Closes-body c b _ d s (link {c = a} {e = rest} {v} {l} {ls} tag value is links) data_is =
      subst (Closes b no_flags s) (simp bind_assoc) (
        Closes-links_first c b a rest v false l ls (end_and_data d) s tag value is links
          λ s'. Closes-end_and_data c d s' data_is)

  -- For any target and any bytes that are a block of the grammar, DecodeBytes makes the calls that
  -- the block asks for, and no other: BeginMap; Data and the list of the links, in the order in which
  -- the block has them, an empty list last; Finish.
  pub decode_bytes-replay_block :
      (b : Bytes) (m : Message C) (s : S) (g : IsBlock p k b m)
      → decode_bytes p k t b s ≡ replay_block t p k g s
  unfolding decode_bytes body data_and_list list
  decode_bytes-replay_block b m s (data_then_links {c} is links) =
      bind_same (t.begin_map s) _ _
        λ s₀. Closes-data_and_list c b m.bytes m.links s₀ is links (length b) (omega arith)
  decode_bytes-replay_block b m s (links_then_data {c} links is) =
      bind_same (t.begin_map s) _ _
        λ s₀. Closes-body c b m.links m.bytes s₀ links is (length b) (omega arith)
