-- ===== src/Unmarshal/LinkTotal.antt =====
-- `unmarshalLink` on the builder of a PBNode, for every byte string.
use go_codec_dagpb.Common.{
  ℕ, zero, suc, ◌<◌, ◌≤◌, ◌≡◌, refl, ℤ, pos, negsuc, Bytes, Bool, true, false, Option, none, some,
  List, [], ◌∷◌, length, length-drop, arith, le→leb, ◌==◌, not, inl, inr, ◌⊎◌, to_int64,
}
use go_codec_dagpb.Outcome.{
  Outcome, ok, err, Returns, value, error, reject_if, ◌>>◌, ◌>>=◌, bind_assoc, missing_hash,
  hash_wire_type, invalid_hash, name_wire_type, tsize_wire_type,
}
use go_codec_dagpb.Outcome.Follows.{
  Follows, values, errors, Follows-bind, Follows-same, Follows-reject_if, Follows-if,
  Follows-Returns,
}
use go_codec_dagpb.Schema.{PbLink}
use go_codec_dagpb.Message.{LinkValue}
use go_codec_dagpb.Wire.{Protowire, IsReader, Cids}
use go_codec_dagpb.Assembler.Root.{RootAssembler}
use go_codec_dagpb.Unmarshal.Target.{node_builder}
use go_codec_dagpb.Unmarshal.Link.{
  LinkFlags, read_cid, consumed, hash_field, name_field, tsize_field, link_round, link_loop,
  unmarshal_link,
}
use go_codec_dagpb.Parser.Link.{
  Parts, hash_part, name_part, tsize_part, part, whole, parse_rest, parse_link,
}
use go_codec_dagpb.Unmarshal.Row.{row_state, in_row, put_hash-row, put_name-row, put_tsize-row}

-- The count of a consumed value.
abbrev InInput : ℤ → Bytes → Type 0
InInput n b = (m : ℕ) → n ≡ pos m → (0 < m) × (m ≤ length b)

pub consumed-Returns :
    (n : ℤ) (b : Bytes) → InInput n b → Returns (λ rest. length rest < length b) (consumed n b)
unfolding consumed
consumed-Returns (pos m) b h =
    let (lo, hi) = h m refl in rw (le→leb m (length b) hi) (value (omega (arith, length-drop m b)))
consumed-Returns (negsuc m) b h = error

module _ (p : Protowire) (r : IsReader p) (b : Bytes) where
  pub varint_InInput : InInput (p.consume_varint b).1 b
  varint_InInput m e =
      let (lo, hi, _) =
        r.varint_taken b (p.consume_varint b).0 m (λ i. ((p.consume_varint b).0, e i)) in
      (lo, hi)

  pub tag_InInput : InInput (p.consume_tag b).2 b
  tag_InInput m e =
      r.tag_taken b (p.consume_tag b).0 (p.consume_tag b).1 m
        (λ i. ((p.consume_tag b).0, (p.consume_tag b).1, e i))

  pub bytes_InInput : InInput (p.consume_bytes b).1 b
  bytes_InInput m e = r.bytes_taken b (p.consume_bytes b).0 m (λ i. ((p.consume_bytes b).0, e i))

abbrev is_some {ℓ} : {A : Type ℓ} → Option A → Bool
is_some none = false
is_some (some a) = true

read_cid-Returns : {C : Type 0} (k : Cids C) (b : Bytes) → Returns (λ c. Unit {0}) (read_cid k b)
unfolding read_cid
read_cid-Returns {C} k b = go (k.from_bytes b)
  where
    go :
        (e : ℕ ⊎ (ℕ × C))
        → Returns (λ c. Unit {0}) (elim e [ inl e ↦ err (invalid_hash e) | inr (_, c) ↦ ok c ])
    go (inl e) = error
    go (inr (n, c)) = value tt

module _ {C : Type 0} where
  abbrev flags_of : Option C → Option Bytes → Option ℤ → LinkFlags
  flags_of h n t = record { have_hash = is_some h; have_name = is_some n; have_tsize = is_some t }

  module _ (p : Protowire) (r : IsReader p) (k : Cids C) (d : Option Bytes) (x : List (PbLink C))
      (f : ℕ) where
    -- The flags and the builder have the fields that the parser has.
    abbrev Agrees : LinkFlags × RootAssembler C → Parts C → Type 0
    Agrees (fl, s) q =
        (fl ≡ flags_of q.hash q.name q.tsize) × (s ≡ in_row d x (row_state f q.hash q.name q.tsize))

    abbrev Round : Bytes → Bytes × LinkFlags × RootAssembler C → Bytes × Parts C → Type 0
    Round b (rest, fl, s) (rest', q) = (length rest < length b) × (rest ≡ rest') × Agrees (fl, s) q

    shorter :
        (b c : Bytes) {m : Outcome (Bytes × LinkFlags × RootAssembler C)}
        {n : Outcome (Bytes × Parts C)}
        → length c < length b
        → Follows (Round c) m n
        → Follows (Round b) m n
    shorter b c lt (values (g, e, a)) = values (omega arith, e, a)
    shorter b c lt errors = errors

    hash_field-part :
        (typ : ℕ) (b : Bytes) (h : Option C) (n : Option Bytes) (t : Option ℤ)
        → Follows
            (Round b)
            (hash_field p k node_builder typ b (flags_of h n t) (in_row d x (row_state f h n t)))
            (hash_part p k typ b h n t)
    unfolding hash_field
    hash_field-part typ b none none none = Follows-reject_if (not (typ == 2)) (hash_wire_type typ) (
        Follows-same (consumed-Returns _ b (bytes_InInput p r b)) λ rest h.
          Follows-same (read_cid-Returns k _)
            λ c _. rw (put_hash-row d x f c) (values (h, refl, (refl, refl))))
    hash_field-part typ b (some h) n t = errors
    hash_field-part typ b none (some n) t = errors
    hash_field-part typ b none none (some t) = errors

    name_field-part :
        (typ : ℕ) (b : Bytes) (h : Option C) (n : Option Bytes) (t : Option ℤ)
        → Follows
            (Round b)
            (name_field p k node_builder typ b (flags_of h n t) (in_row d x (row_state f h n t)))
            (name_part p k typ b h n t)
    unfolding name_field
    name_field-part typ b h none none = Follows-reject_if (not (typ == 2)) (name_wire_type typ) (
        Follows-same (consumed-Returns _ b (bytes_InInput p r b)) λ rest g.
          rw (put_name-row d x f h (p.consume_bytes b).0) (values (g, refl, (refl, refl))))
    name_field-part typ b h (some n) t = errors
    name_field-part typ b h none (some t) = errors

    tsize_field-part :
        (typ : ℕ) (b : Bytes) (h : Option C) (n : Option Bytes) (t : Option ℤ)
        → Follows
            (Round b)
            (tsize_field p k node_builder typ b (flags_of h n t) (in_row d x (row_state f h n t)))
            (tsize_part p k typ b h n t)
    unfolding tsize_field
    tsize_field-part typ b h n none = Follows-reject_if (not (typ == 0)) (tsize_wire_type typ) (
        Follows-same (consumed-Returns _ b (varint_InInput p r b)) λ rest g.
          rw (put_tsize-row d x f h n (to_int64 (p.consume_varint b).0))
            (values (g, refl, (refl, refl))))
    tsize_field-part typ b h n (some t) = errors

    link_round-part :
        (b : Bytes) (h : Option C) (n : Option Bytes) (t : Option ℤ)
        → Follows
            (Round b)
            (link_round p k node_builder b (flags_of h n t) (in_row d x (row_state f h n t)))
            (part p k b h n t)
    unfolding link_round part
    link_round-part b h n t = Follows-same (consumed-Returns _ b (tag_InInput p r b)) λ rest g.
        let num = (p.consume_tag b).0 in
        let typ = (p.consume_tag b).1 in
        Follows-if (num == 1) (shorter b rest g (hash_field-part typ rest h n t)) (
          Follows-if (num == 2) (shorter b rest g (name_field-part typ rest h n t))
            (Follows-if (num == 3) (shorter b rest g (tsize_field-part typ rest h n t)) errors))

    -- The builder is in the row of the link that was parsed.
    abbrev pub Holds : RootAssembler C → LinkValue C → Type 0
    Holds s l = s ≡ in_row d x (row_state f (some l.hash) l.name l.tsize)

    finish_parts :
        (h : Option C) (n : Option Bytes) (t : Option ℤ)
        → Follows Holds
            (reject_if (not (is_some h)) missing_hash >> ok (in_row d x (row_state f h n t)))
            (whole p k h n t)
    finish_parts none n t = errors
    finish_parts (some h) n t = values refl

    link_loop-parse_rest :
        (fuel : ℕ) (b : Bytes) (h : Option C) (n : Option Bytes) (t : Option ℤ)
        → length b ≤ fuel
        → Follows Holds
            (link_loop p k node_builder fuel b (flags_of h n t) (in_row d x (row_state f h n t))
              >>= λ (fl, s). reject_if (not fl.have_hash) missing_hash >> ok s)
            (parse_rest p k fuel b h n t)
    unfolding link_loop parse_rest
    link_loop-parse_rest fuel [] h n t le = finish_parts h n t
    link_loop-parse_rest zero (c ∷ cs) h n t le = absurd (omega arith)
    link_loop-parse_rest (suc fuel) (c ∷ cs) h n t le = rw bind_assoc (
        Follows-bind (link_round-part (c ∷ cs) h n t) λ (rest, fl, s) (rest', q) (lt, e, (g, e')).
          rw (g, e', ← e) (link_loop-parse_rest fuel rest q.hash q.name q.tsize (omega arith)))

    -- In a row of the builder that has just begun, `unmarshalLink` gives the error that the parser
    -- gives for the bytes, or leaves the row with the fields of the link that it gives.
    pub unmarshal_link-parse_link :
        (b : Bytes)
        → Follows Holds
            (unmarshal_link p k node_builder b (in_row d x (row_state f none none none)))
            (parse_link p k b)
    unfolding unmarshal_link parse_link
    unmarshal_link-parse_link b = link_loop-parse_rest (length b) b none none none (omega arith)

    abbrev pub RowDone : RootAssembler C → Type 0
    RowDone s = (l : LinkValue C) × (s ≡ in_row d x (row_state f (some l.hash) l.name l.tsize))

    -- In a row of the builder that has just begun, `unmarshalLink` returns on every byte string, with
    -- an error or in the state of a row that was assigned the fields of a link, its Hash among them.
    pub unmarshal_link-Returns :
        (b : Bytes)
        → Returns RowDone
            (unmarshal_link p k node_builder b (in_row d x (row_state f none none none)))
    unmarshal_link-Returns b = Follows-Returns (unmarshal_link-parse_link b) λ s l e. (l, e)
