-- ===== src/Unmarshal/Node.antt =====
-- unmarshal.go: `DecodeBytes` and `Decode`.
use go_codec_dagpb.Common.{
  ℕ, zero, suc, Bytes, Bool, true, false, [], ◌∷◌, length, ◌==◌, not, if◌then◌else◌,
}
use go_codec_dagpb.Outcome.{
  Outcome, ok, err, stuck, node_wire_type, duplicate_data, duplicate_links, node_field, reject_if,
  ◌>>=◌, ◌>>◌,
}
use go_codec_dagpb.Wire.{Protowire, Cids}
use go_codec_dagpb.Unmarshal.Target.{Target, put_data, begin_links}
use go_codec_dagpb.Unmarshal.Link.{consumed, unmarshal_link}

-- `links_open` is `links != nil`.
pub record Flags : Type 0 where
  pub have_data : Bool
  pub have_links : Bool
  pub links_open : Bool

abbrev pub no_flags : Flags
no_flags = record { have_data = false; have_links = false; links_open = false }

module _ {C S : Type 0} (p : Protowire) (k : Cids C) (t : Target C S) where
  -- `case 1`, from what follows the tag.
  unfoldable pub data_field : Bytes → Flags → S → Outcome (Bytes × Flags × S)
  unfolding consumed put_data
  data_field remaining fl s = do
    reject_if fl.have_data duplicate_data
    let chunk = p.consume_bytes remaining
    rest ← consumed chunk.1 remaining
    s₁ ← if fl.links_open then t.list_finish s else ok s
    s₂ ← put_data t chunk.0 s₁
    ok (rest, record fl { have_data = true; links_open = false }, s₂)

  -- The repeated "Links" part begins.
  open_links : Flags → S → Outcome S
  open_links fl s = do reject_if fl.have_links duplicate_links; begin_links t s

  -- `case 2`
  unfoldable pub links_field : Bytes → Flags → S → Outcome (Bytes × Flags × S)
  unfolding consumed open_links begin_links
  links_field remaining fl s = do
    let chunk = p.consume_bytes remaining
    rest ← consumed chunk.1 remaining
    s₁ ← if fl.links_open then ok s else open_links fl s
    s₂ ← t.row s₁
    s₃ ← unmarshal_link p k t chunk.0 s₂
    s₄ ← t.row_finish s₃
    ok (rest, record fl { have_links = true; links_open = true }, s₄)

  -- One round of the loop.
  unfoldable pub node_round : Bytes → Flags → S → Outcome (Bytes × Flags × S)
  unfolding data_field links_field consumed
  node_round remaining fl s = do
    let tag = p.consume_tag remaining
    rest ← consumed tag.2 remaining
    reject_if (not (tag.1 == 2)) (node_wire_type tag.1)
    if tag.0 == 1
        then data_field rest fl s
        else if tag.0 == 2
        then links_field rest fl s
        else err (node_field tag.0)

  unfoldable pub node_loop : ℕ → Bytes → Flags → S → Outcome (Flags × S)
  node_loop fuel [] fl s = ok (fl, s)
  node_loop zero (b ∷ bs) fl s = stuck
  node_loop (suc fuel) (b ∷ bs) fl s = do
    (rest, fl', s') ← node_round (b ∷ bs) fl s
    node_loop fuel rest fl' s'

  -- What follows the loop: the Links are finished, or an empty list is added.
  unfoldable pub close : Flags → S → Outcome S
  unfolding begin_links
  close fl s = do
    s₁ ←
        if fl.links_open
        then t.list_finish s
        else if not fl.have_links
        then (do s₁ ← begin_links t s; t.list_finish s₁)
        else ok s
    t.finish s₁

  unfoldable pub decode_bytes : Bytes → S → Outcome S
  unfolding node_loop node_round close unmarshal_link
  decode_bytes src s = do
    s₀ ← t.begin_map s
    (fl, s₁) ← node_loop (length src) src no_flags s₀
    close fl s₁

-- An io.Reader: one with a Bytes method, or one that io.ReadAll reads.
pub data Reader : Type 0 where
  buffer : Bytes → Reader
  stream : Outcome Bytes → Reader

read_all : Reader → Outcome Bytes
read_all (buffer b) = ok b
read_all (stream r) = r

module _ {C S : Type 0} (p : Protowire) (k : Cids C) (t : Target C S) where
  unfoldable pub decode : Reader → S → Outcome S
  unfolding read_all decode_bytes
  decode r s = do src ← read_all r; decode_bytes p k t src s
