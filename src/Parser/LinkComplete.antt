-- ===== src/Parser/LinkComplete.antt =====
-- The parser reads every link of the grammar.
use go_codec_dagpb.Common.{
  ℕ, zero, suc, ◌<◌, ◌≤◌, ◌≡◌, refl, ℤ, pos, to_int64, Bytes, Option, none, some, [], ◌∷◌, drop,
  length, length-drop, le→leb, inr, arith,
}
use go_codec_dagpb.Outcome.{ok}
use go_codec_dagpb.Message.{LinkValue}
use go_codec_dagpb.Wire.{Protowire, IsReader, Cids}
use go_codec_dagpb.Unmarshal.Link.{consumed, read_cid}
use go_codec_dagpb.Parser.Link.{Parts, parts, part, parse_rest, parse_link}
use go_codec_dagpb.Parser.Grammar.{
  IsTag, IsChunk, IsVarint, IsTsize, no_tsize, tsize, IsName, no_name, name, IsLink,
}

consumed-drop : (n : ℕ) (b : Bytes) → n ≤ length b → consumed (pos n) b ≡ ok (drop n b)
unfolding consumed
consumed-drop n b h = rw (le→leb n (length b) h) refl

shorter_drop : (n : ℕ) (b : Bytes) → 0 < n → n ≤ length b → length (drop n b) < length b
shorter_drop n b lo hi = omega (arith, length-drop n b)

-- What a field of the grammar gives, and what it leaves is shorter.
module _ (p : Protowire) (r : IsReader p) where
  pub read_tag :
      (num typ : ℕ) (b c : Bytes)
      → IsTag p num typ b c
      → (length c < length b)
        × (consumed (p.consume_tag b).2 b ≡ ok c)
        × ((p.consume_tag b).0 ≡ num)
        × ((p.consume_tag b).1 ≡ typ)
  read_tag num typ b c (n, e, e') =
      let (lo, hi) = r.tag_taken b num typ n e in
      rw (e, e') (shorter_drop n b lo hi, consumed-drop n b hi, refl, refl)

  pub read_chunk :
      (v b c : Bytes)
      → IsChunk p v b c
      → (length c < length b)
        × (consumed (p.consume_bytes b).1 b ≡ ok c)
        × ((p.consume_bytes b).0 ≡ v)
  read_chunk v b c (n, e, e') =
      let (lo, hi) = r.bytes_taken b v n e in
      rw (e, e') (shorter_drop n b lo hi, consumed-drop n b hi, refl)

  pub read_varint :
      (v : ℕ) (b c : Bytes)
      → IsVarint p v b c
      → (length c < length b)
        × (consumed (p.consume_varint b).1 b ≡ ok c)
        × ((p.consume_varint b).0 ≡ v)
  read_varint v b c (n, e, e') =
      let (lo, hi, _) = r.varint_taken b v n e in
      rw (e, e') (shorter_drop n b lo hi, consumed-drop n b hi, refl)

module _ {C : Type 0} (p : Protowire) (r : IsReader p) (k : Cids C) where
  -- One field, and then the rest of the link.
  step :
      (fuel : ℕ) (b : Bytes) (h : Option C) (n : Option Bytes) (t : Option ℤ) (rest : Bytes)
      (q : Parts C) (l : LinkValue C)
      → length b ≤ fuel
      → length rest < length b
      → part p k b h n t ≡ ok (rest, q)
      → ((f : ℕ) → length rest ≤ f → parse_rest p k f rest q.hash q.name q.tsize ≡ ok l)
      → parse_rest p k fuel b h n t ≡ ok l
  unfolding parse_rest
  step fuel [] h n t rest q l le lt e ih = absurd (omega arith)
  step zero (c ∷ cs) h n t rest q l le lt e ih = absurd (omega arith)
  step (suc fuel) (c ∷ cs) h n t rest q l le lt e ih = rw e (ih fuel (omega arith))

  parse_rest-IsTsize :
      (fuel : ℕ) (b : Bytes) (h : C) (n : Option Bytes) (t : Option ℤ)
      → length b ≤ fuel
      → IsTsize p b t
      → parse_rest p k fuel b (some h) n none ≡ ok (record { hash = h; name = n; tsize = t })
  unfolding parse_rest part
  parse_rest-IsTsize fuel b h n none le (no_tsize e) = rw e refl
  parse_rest-IsTsize fuel b h n _ le (tsize {c} {e = rest} {v} tag value ended) =
      let (lt, e, e₁, e₂) = read_tag p r 3 0 b c tag in
      let (lt', e', e₃) = read_varint p r v c rest value in
      step fuel b (some h) n none rest (parts (some h) n (some (to_int64 v))) _ le (omega arith)
        (rw (e, e₁, e₂, e', e₃) refl) λ f le'. rw ended refl

  parse_rest-IsName :
      (fuel : ℕ) (b : Bytes) (h : C) (n : Option Bytes) (t : Option ℤ)
      → length b ≤ fuel
      → IsName p b t n
      → parse_rest p k fuel b (some h) none none ≡ ok (record { hash = h; name = n; tsize = t })
  unfolding part
  parse_rest-IsName fuel b h none t le (no_name ts) = parse_rest-IsTsize fuel b h none t le ts
  parse_rest-IsName fuel b h _ t le (name {c} {e = rest} {n} tag value ts) =
      let (lt, e, e₁, e₂) = read_tag p r 2 2 b c tag in
      let (lt', e', e₃) = read_chunk p r n c rest value in
      step fuel b (some h) none none rest (parts (some h) (some n) none) _ le (omega arith)
        (rw (e, e₁, e₂, e', e₃) refl) λ f le'. parse_rest-IsTsize f rest h (some n) t le' ts

  pub read_cid-from_bytes :
      (raw : Bytes) (c : C) (n : ℕ) → k.from_bytes raw ≡ inr (n, c) → read_cid k raw ≡ ok c
  unfolding read_cid
  read_cid-from_bytes raw c n e = rw (e, read_cid) refl

  -- The parser reads every link of the grammar.
  pub parse_link_complete : (b : Bytes) (l : LinkValue C) → IsLink p k b l → parse_link p k b ≡ ok l
  unfolding parse_link part
  parse_link_complete b l g =
      let (lt, e, e₁, e₂) = read_tag p r 1 2 b g.after_tag g.tagged in
      let (lt', e', e₃) = read_chunk p r g.raw g.after_tag g.after_hash g.valued in
      step (length b) b none none none g.after_hash (parts (some l.hash) none none) l (omega arith)
        (omega arith)
        (rw (e, e₁, e₂, e', e₃, read_cid-from_bytes g.raw l.hash g.read g.hashed) refl)
        λ f le'. parse_rest-IsName f g.after_hash l.hash l.name l.tsize le' g.named
