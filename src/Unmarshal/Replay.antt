-- ===== src/Unmarshal/Replay.antt =====
-- The calls that the decoder makes on its target for the bytes of a message.
use go_codec_dagpb.Common.{ℤ, Bytes, Option, none, some, List, [], ◌∷◌}
use go_codec_dagpb.Outcome.{Outcome, ok, ◌>>=◌}
use go_codec_dagpb.Message.{LinkValue, Message}
use go_codec_dagpb.Wire.{Protowire, Cids}
use go_codec_dagpb.Parser.Grammar.{IsBlock, data_then_links, links_then_data}
use go_codec_dagpb.Unmarshal.Target.{Target, put_hash, put_name, put_tsize, put_data, begin_links}

module _ {C S : Type 0} (t : Target C S) where
  abbrev pub replay_name : Option Bytes → S → Outcome S
  replay_name none s = ok s
  replay_name (some n) s = put_name t n s

  abbrev pub replay_tsize : Option ℤ → S → Outcome S
  replay_tsize none s = ok s
  replay_tsize (some i) s = put_tsize t i s

  abbrev pub replay_data : Option Bytes → S → Outcome S
  replay_data none s = ok s
  replay_data (some b) s = put_data t b s

  -- One link: its Hash, then its Name and its Tsize if it has them.
  abbrev pub replay_fields : LinkValue C → S → Outcome S
  replay_fields l s = do
    s₁ ← put_hash t l.hash s
    s₂ ← replay_name l.name s₁
    replay_tsize l.tsize s₂

  abbrev pub replay_link : LinkValue C → S → Outcome S
  replay_link l s = do s₁ ← t.row s; s₂ ← replay_fields l s₁; t.row_finish s₂

  abbrev pub replay_links : List (LinkValue C) → S → Outcome S
  replay_links [] s = ok s
  replay_links (l ∷ ls) s = do s₁ ← replay_link l s; replay_links ls s₁

  -- The links come before Data, but an empty list of links is added behind it.
  abbrev pub replay_body : List (LinkValue C) → Option Bytes → S → Outcome S
  replay_body [] d s = do s₁ ← replay_data d s; s₂ ← begin_links t s₁; t.list_finish s₂
  replay_body (l ∷ ls) d s = do
    s₁ ← begin_links t s
    s₂ ← replay_links (l ∷ ls) s₁
    s₃ ← t.list_finish s₂
    replay_data d s₃

  abbrev pub replay : Message C → S → Outcome S
  replay m s = do s₁ ← t.begin_map s; s₂ ← replay_body m.links m.bytes s₁; t.finish s₂

  -- Data, if there is any, comes before the links.
  abbrev pub replay_data_first : Message C → S → Outcome S
  replay_data_first m s = do
    s₁ ← t.begin_map s
    s₂ ← replay_data m.bytes s₁
    s₃ ← begin_links t s₂
    s₄ ← replay_links m.links s₃
    s₅ ← t.list_finish s₄
    t.finish s₅

  -- The calls for a block of the grammar, in the order of its fields.
  abbrev pub replay_block :
      (p : Protowire) (k : Cids C) {b : Bytes} {m : Message C} → IsBlock p k b m → S → Outcome S
  replay_block p k {m} (data_then_links _ _) s = replay_data_first m s
  replay_block p k {m} (links_then_data _ _) s = replay m s
