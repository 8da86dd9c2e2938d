-- ===== src/Unmarshal/Link.antt =====
-- unmarshal.go: `unmarshalLink`, one message of the Links field.
use go_codec_dagpb.Common.{
  ℕ, zero, suc, ℤ, pos, negsuc, to_int64, Bytes, Bool, true, false, [], ◌∷◌, length, drop, leb,
  ◌==◌, not, if◌then◌else◌, inl, inr,
}
use go_codec_dagpb.Outcome.{
  Outcome, ok, err, panic, stuck, parse_error, out_of_range, duplicate_hash, name_before_hash,
  tsize_before_hash, hash_wire_type, invalid_hash, duplicate_name, tsize_before_name,
  name_wire_type, duplicate_tsize, tsize_wire_type, link_field, missing_hash, reject_if, ◌>>=◌,
  ◌>>◌,
}
use go_codec_dagpb.Wire.{Protowire, Cids}
use go_codec_dagpb.Unmarshal.Target.{Target, put_hash, put_name, put_tsize}

-- `remaining[n:]`
unfoldable pub slice_from : Bytes → ℕ → Outcome Bytes
slice_from b n = if leb n (length b) then ok (drop n b) else panic out_of_range

-- `if n < 0 { return protowire.ParseError(n) }; remaining = remaining[n:]`
unfoldable pub consumed : ℤ → Bytes → Outcome Bytes
unfolding slice_from
consumed (pos n) remaining = slice_from remaining n
consumed (negsuc k) remaining = err (parse_error k)

pub record LinkFlags : Type 0 where
  pub have_hash : Bool
  pub have_name : Bool
  pub have_tsize : Bool

abbrev pub no_fields : LinkFlags
no_fields = record { have_hash = false; have_name = false; have_tsize = false }

-- `_, c, err := cid.CidFromBytes(chunk)`: how much of the chunk was read is not looked at.
unfoldable pub read_cid : {C : Type 0} → Cids C → Bytes → Outcome C
read_cid k chunk = elim (k.from_bytes chunk) [ inl e ↦ err (invalid_hash e) | inr (_, c) ↦ ok c ]

module _ {C S : Type 0} (p : Protowire) (k : Cids C) (t : Target C S) where
  -- The three cases of the `switch fieldNum`, from the wire type and what follows the tag.
  unfoldable pub hash_field : ℕ → Bytes → LinkFlags → S → Outcome (Bytes × LinkFlags × S)
  unfolding read_cid consumed put_hash
  hash_field typ remaining fl s = do
    reject_if fl.have_hash duplicate_hash
    reject_if fl.have_name name_before_hash
    reject_if fl.have_tsize tsize_before_hash
    reject_if (not (typ == 2)) (hash_wire_type typ)
    let chunk = p.consume_bytes remaining
    rest ← consumed chunk.1 remaining
    c ← read_cid k chunk.0
    s₁ ← put_hash t c s
    ok (rest, record fl { have_hash = true }, s₁)

  unfoldable pub name_field : ℕ → Bytes → LinkFlags → S → Outcome (Bytes × LinkFlags × S)
  unfolding consumed put_name
  name_field typ remaining fl s = do
    reject_if fl.have_name duplicate_name
    reject_if fl.have_tsize tsize_before_name
    reject_if (not (typ == 2)) (name_wire_type typ)
    let chunk = p.consume_bytes remaining
    rest ← consumed chunk.1 remaining
    s₁ ← put_name t chunk.0 s
    ok (rest, record fl { have_name = true }, s₁)

  unfoldable pub tsize_field : ℕ → Bytes → LinkFlags → S → Outcome (Bytes × LinkFlags × S)
  unfolding consumed put_tsize
  tsize_field typ remaining fl s = do
    reject_if fl.have_tsize duplicate_tsize
    reject_if (not (typ == 0)) (tsize_wire_type typ)
    let v = p.consume_varint remaining
    rest ← consumed v.1 remaining
    s₁ ← put_tsize t (to_int64 v.0) s
    ok (rest, record fl { have_tsize = true }, s₁)

  -- One round of the loop.
  unfoldable pub link_round : Bytes → LinkFlags → S → Outcome (Bytes × LinkFlags × S)
  unfolding hash_field name_field tsize_field consumed
  link_round remaining fl s = do
    let tag = p.consume_tag remaining
    rest ← consumed tag.2 remaining
    if tag.0 == 1
        then hash_field tag.1 rest fl s
        else if tag.0 == 2
        then name_field tag.1 rest fl s
        else if tag.0 == 3
        then tsize_field tag.1 rest fl s
        else err (link_field tag.0)

  -- The loop: each round takes a byte at least.
  unfoldable pub link_loop : ℕ → Bytes → LinkFlags → S → Outcome (LinkFlags × S)
  link_loop fuel [] fl s = ok (fl, s)
  link_loop zero (b ∷ bs) fl s = stuck
  link_loop (suc fuel) (b ∷ bs) fl s = do
    (rest, fl', s') ← link_round (b ∷ bs) fl s
    link_loop fuel rest fl' s'

  unfoldable pub unmarshal_link : Bytes → S → Outcome S
  unfolding link_loop link_round
  unmarshal_link remaining s = do
    (fl, s') ← link_loop (length remaining) remaining no_fields s
    reject_if (not fl.have_hash) missing_hash
    ok s'
