-- ===== src/Parser/LinkSound.antt =====
-- What the parser reads as a link is a link of the grammar.
use go_codec_dagpb.Common.{
  ℕ, zero, suc, ◌≡◌, refl, ℤ, pos, negsuc, Bytes, Bool, true, false, Option, none, some, [], ◌∷◌,
  drop, length, leb, if◌then◌else◌, inl, inr, ◌⊎◌,
}
use go_codec_dagpb.Outcome.{ok, err, panic, out_of_range, invalid_hash}
use go_codec_dagpb.Outcome.AllOk.{
  AllOk, gives, fails, panics, runs_on, AllOk-bind, AllOk-map, AllOk-reject_unless, AllOk-if_eq,
}
use go_codec_dagpb.Message.{LinkValue}
use go_codec_dagpb.Wire.{Protowire, Cids}
use go_codec_dagpb.Unmarshal.Link.{consumed, read_cid}
use go_codec_dagpb.Parser.Link.{
  Parts, hash_part, name_part, tsize_part, part, parse_rest, parse_link,
}
use go_codec_dagpb.Parser.Grammar.{IsTag, IsTsize, no_tsize, tsize, IsName, no_name, name, IsLink}

-- Where `consumed` gives something, the count was not negative.
pub AllOk-consumed :
    (n : ℤ) (b : Bytes) → AllOk (λ rest. (m : ℕ) × (n ≡ pos m) × (rest ≡ drop m b)) (consumed n b)
unfolding consumed
AllOk-consumed (pos m) b = go (leb m (length b))
  where
    go :
        (t : Bool)
        → AllOk
            (λ rest. (j : ℕ) × (pos m ≡ pos j) × (rest ≡ drop j b))
            (if t then ok (drop m b) else panic out_of_range)
    go true = gives (m, refl, refl)
    go false = panics
AllOk-consumed (negsuc k) b = fails

module _ {C : Type 0} (p : Protowire) (k : Cids C) where
  read_cid-found : (b : Bytes) → AllOk (λ c. (n : ℕ) × (k.from_bytes b ≡ inr (n, c))) (read_cid k b)
  unfolding read_cid
  read_cid-found b = go (k.from_bytes b)
    where
      go :
          (e : ℕ ⊎ (ℕ × C))
          → AllOk
              (λ c. (n : ℕ) × (e ≡ inr (n, c)))
              (elim e [ inl e ↦ err (invalid_hash e) | inr (_, c) ↦ ok c ])
      go (inl e) = fails
      go (inr (n, c)) = gives (n, refl)

  -- `b` goes on to the link `l` where the fields `h`, `n` and `t` were read before it.
  abbrev GoesOn : Bytes → Option C → Option Bytes → Option ℤ → LinkValue C → Type 0
  GoesOn b none none none l = IsLink p k b l
  GoesOn b none none (some t) l = ⊥
  GoesOn b none (some n) t l = ⊥
  GoesOn b (some h) none none l = (l.hash ≡ h) × IsName p b l.tsize l.name
  GoesOn b (some h) (some n) none l = (l.hash ≡ h) × (l.name ≡ some n) × IsTsize p b l.tsize
  GoesOn b (some h) n (some t) l = (l ≡ record { hash = h; name = n; tsize = some t }) × (b ≡ [])

  abbrev Back : Bytes → Option C → Option Bytes → Option ℤ → Bytes × Parts C → Type 0
  Back b h n t (rest, q) =
      (l : LinkValue C) → GoesOn rest q.hash q.name q.tsize l → GoesOn b h n t l

  module _ (b c : Bytes) where
    hash_part-Back :
        (typ : ℕ) (h : Option C) (n : Option Bytes) (t : Option ℤ)
        → IsTag p 1 typ b c
        → AllOk (Back b h n t) (hash_part p k typ c h n t)
    hash_part-Back typ (some h) n t g = fails
    hash_part-Back typ none (some n) t g = fails
    hash_part-Back typ none none (some t) g = fails
    hash_part-Back typ none none none g = AllOk-reject_unless typ 2 _ λ two.
        AllOk-bind (AllOk-consumed _ c) λ rest (m, e, e').
          AllOk-bind (read_cid-found _) λ cid (j, found). gives λ l (same, named). record {
            after_tag = c;
            after_hash = rest;
            raw = (p.consume_bytes c).0;
            read = j;
            tagged = rw two at g;
            valued = (m, (λ i. ((p.consume_bytes c).0, e i)), e');
            hashed = rw same found;
            named = named;
          }

    name_part-Back :
        (typ : ℕ) (h : Option C) (n : Option Bytes) (t : Option ℤ)
        → IsTag p 2 typ b c
        → AllOk (Back b h n t) (name_part p k typ c h n t)
    name_part-Back typ h (some n) t g = fails
    name_part-Back typ h none (some t) g = fails
    name_part-Back typ none none none g =
        AllOk-reject_unless typ 2 _
          λ two. AllOk-bind (AllOk-consumed _ c) λ rest read. gives λ l x. absurd x
    name_part-Back typ (some h) none none g = AllOk-reject_unless typ 2 _ λ two.
        AllOk-bind (AllOk-consumed _ c) λ rest (m, e, e'). gives λ l (same, named, then_tsize). (
          same,
          rw named (name (rw two at g) (m, (λ i. ((p.consume_bytes c).0, e i)), e') then_tsize),
        )

    tsize_part-Back :
        (typ : ℕ) (h : Option C) (n : Option Bytes) (t : Option ℤ)
        → IsTag p 3 typ b c
        → AllOk (Back b h n t) (tsize_part p k typ c h n t)
    tsize_part-Back typ h n (some t) g = fails
    tsize_part-Back typ none none none g =
        AllOk-reject_unless typ 0 _
          λ zer. AllOk-bind (AllOk-consumed _ c) λ rest read. gives λ l x. absurd x
    tsize_part-Back typ none (some n) none g =
        AllOk-reject_unless typ 0 _
          λ zer. AllOk-bind (AllOk-consumed _ c) λ rest read. gives λ l x. absurd x
    tsize_part-Back typ (some h) none none g = AllOk-reject_unless typ 0 _ λ zer.
        AllOk-bind (AllOk-consumed _ c) λ rest (m, e, e'). gives λ l (same, ended).
          rw same (
            refl,
            no_name (tsize (rw zer at g) (m, (λ i. ((p.consume_varint c).0, e i)), e') ended),
          )
    tsize_part-Back typ (some h) (some n) none g = AllOk-reject_unless typ 0 _ λ zer.
        AllOk-bind (AllOk-consumed _ c) λ rest (m, e, e'). gives λ l (same, ended).
          rw same
            (refl, refl, tsize (rw zer at g) (m, (λ i. ((p.consume_varint c).0, e i)), e') ended)

  part-Back :
      (b : Bytes) (h : Option C) (n : Option Bytes) (t : Option ℤ)
      → AllOk (Back b h n t) (part p k b h n t)
  unfolding part
  part-Back b h n t = AllOk-bind (AllOk-consumed _ b) λ c (m, e, e').
      let typ = (p.consume_tag b).1 in
      let num = (p.consume_tag b).0 in
      AllOk-if_eq num 1 (λ is. hash_part-Back b c typ h n t (m, (λ i. (is i, typ, e i)), e'))
        (AllOk-if_eq num 2 (λ is. name_part-Back b c typ h n t (m, (λ i. (is i, typ, e i)), e'))
          (AllOk-if_eq num 3 (λ is. tsize_part-Back b c typ h n t (m, (λ i. (is i, typ, e i)), e'))
            fails))

  parse_rest-GoesOn :
      (fuel : ℕ) (b : Bytes) (h : Option C) (n : Option Bytes) (t : Option ℤ)
      → AllOk (GoesOn b h n t) (parse_rest p k fuel b h n t)
  unfolding parse_rest
  parse_rest-GoesOn fuel [] none n t = fails
  parse_rest-GoesOn fuel [] (some h) none none = gives (refl, no_name (no_tsize refl))
  parse_rest-GoesOn fuel [] (some h) (some n) none = gives (refl, refl, no_tsize refl)
  parse_rest-GoesOn fuel [] (some h) none (some t) = gives (refl, refl)
  parse_rest-GoesOn fuel [] (some h) (some n) (some t) = gives (refl, refl)
  parse_rest-GoesOn zero (c ∷ cs) h n t = runs_on
  parse_rest-GoesOn (suc fuel) (c ∷ cs) h n t =
      AllOk-bind (part-Back (c ∷ cs) h n t)
        λ (rest, q) back. AllOk-map (parse_rest-GoesOn fuel rest q.hash q.name q.tsize) back

  -- What the parser reads as a link is a link of the grammar.
  pub parse_link-IsLink : (b : Bytes) → AllOk (IsLink p k b) (parse_link p k b)
  unfolding parse_link
  parse_link-IsLink b = parse_rest-GoesOn (length b) b none none none
