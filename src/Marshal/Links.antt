-- ===== src/Marshal/Links.antt =====
-- The collected and sorted links of a typed node that holds a message.
use go_codec_dagpb.Common.{
  ℕ, ◌≡◌, refl, ℤ, pos, negsuc, Bool, true, false, Option, none, some, List, [], ◌∷◌, map, All,
  length, ◌<◌, ◌^◌, arith, if◌then◌else◌,
}
use go_codec_dagpb.Outcome.{Outcome, ok, err, panic, stuck, ◌>>=◌}
use go_codec_dagpb.Outcome.AllOk.{AllOk, gives, fails, AllOk-bind}
use go_codec_dagpb.Schema.{Maybe, Link, PbLink, nil, cid_link, other}
use go_codec_dagpb.Wire.{Cids}
use go_codec_dagpb.Reference.MessageOf.{value_in, optional, link_value, links_of, IsInt64, InGo}
use go_codec_dagpb.Message.{LinkValue}
use go_codec_dagpb.Node.{Node, Typed}
use go_codec_dagpb.Node.Iteration.{items_of}
use go_codec_dagpb.Marshal.Sort.{PbLinkRow, insert, stable_sort, pb_link_less, sort_links}
use go_codec_dagpb.Marshal.Collect.{collect_link, collect}
use go_codec_dagpb.Marshal.Image.{or_empty, IsWritable, name_less}

abbrev pub has {ℓ} : {A : Type ℓ} → Option A → Bool
has none = false
has (some a) = true

abbrev pub size_of : Option ℤ → ℕ
size_of (some (pos t)) = t
size_of _ = 0

map-if {ℓ κ} :
    {A : Type ℓ} {B : Type κ} (f : A → B) (b : Bool) (xs ys : List A)
    → (if b then map f xs else map f ys) ≡ map f (if b then xs else ys)
map-if f true xs ys = refl
map-if f false xs ys = refl

module _ {C : Type 0} where
  -- The `pbLink` of a link.
  abbrev pub pb_of : LinkValue C → PbLinkRow C
  pb_of l = record {
    hash = l.hash;
    name = or_empty l.name;
    has_name = has l.name;
    tsize = size_of l.tsize;
    has_tsize = has l.tsize;
  }

  pub collect_link-link_value :
      (l : PbLink C)
      → collect_link (Node.typed (Typed.pb_link l))
        ≡ (do v ← link_value l.hash (optional l.name) (optional l.tsize); ok (pb_of v))
  unfolding collect_link
  collect_link-link_value l = go l.hash l.name.m l.tsize.m l.tsize.v
    where
      go :
          (h : Link C) (m m' : Maybe) (t : ℤ)
          → collect_link (
              Node.typed (
                Typed.pb_link (record {
                  hash = h;
                  name = record { m = m; v = l.name.v };
                  tsize = record { m = m'; v = t };
                })))
            ≡ (do v ← link_value h (value_in m l.name.v) (value_in m' t); ok (pb_of v))
      go nil m m' t = refl
      go (other x) m m' t = refl
      go (cid_link c) Maybe.absent Maybe.absent t = refl
      go (cid_link c) Maybe.absent _ (pos t) = refl
      go (cid_link c) Maybe.absent _ (negsuc t) = refl
      go (cid_link c) _ Maybe.absent t = refl
      go (cid_link c) _ _ (pos t) = refl
      go (cid_link c) _ _ (negsuc t) = refl

  pub collect-links_of :
      (ls : List (PbLink C))
      → collect (items_of Typed.pb_link ls) ≡ (do vs ← links_of ls; ok (map pb_of vs))
  unfolding collect
  collect-links_of [] = refl
  collect-links_of (l ∷ ls) =
      rw (collect_link-link_value l, collect-links_of ls)
        (go (link_value l.hash (optional l.name) (optional l.tsize)) (links_of ls))
    where
      go :
          (r : Outcome (LinkValue C)) (rs : Outcome (List (LinkValue C)))
          → (do
            row ← (do v ← r; ok (pb_of v))
            rows ← (do vs ← rs; ok (map pb_of vs))
            ok (row ∷ rows))
            ≡ (do vs ← (do v ← r; vs ← rs; ok (v ∷ vs)); ok (map pb_of vs))
      go (ok v) (ok vs) = refl
      go (ok v) (err e) = refl
      go (ok v) (panic x) = refl
      go (ok v) stuck = refl
      go (err e) rs = refl
      go (panic x) rs = refl
      go stuck rs = refl

  -- What is collected from links as Go holds them can be written.
  link_value-IsWritable :
      (k : Cids C) (l : PbLink C)
      → InGo k l
      → AllOk (IsWritable k) (link_value l.hash (optional l.name) (optional l.tsize))
  link_value-IsWritable k l g = go l.hash l.name.m l.tsize.m l.tsize.v g.cid_fits g.tsize_fits
    where
      named : (m : Maybe) → length (or_empty (value_in m l.name.v)) < 2 ^ 63
      named Maybe.absent = omega arith
      named _ = g.name_fits

      go :
          (h : Link C) (m m' : Maybe) (t : ℤ)
          → ((c : C) → h ≡ cid_link c → length (k.to_bytes c) < 2 ^ 63)
          → IsInt64 t
          → AllOk (IsWritable k) (link_value h (value_in m l.name.v) (value_in m' t))
      go nil m m' t f i = fails
      go (other x) m m' t f i = fails
      go (cid_link c) m Maybe.absent t f i =
          gives (record { cid_fits = f c refl; name_fits = named m; tsize_fits = tt })
      go (cid_link c) m _ (pos t) f i =
          gives (record { cid_fits = f c refl; name_fits = named m; tsize_fits = i })
      go (cid_link c) m _ (negsuc t) f i = fails

  pub links_of-IsWritable :
      (k : Cids C) (ls : List (PbLink C))
      → All (InGo k) ls
      → AllOk (All (IsWritable k)) (links_of ls)
  links_of-IsWritable k [] g = gives tt
  links_of-IsWritable k (l ∷ ls) (g, gs) =
      AllOk-bind (link_value-IsWritable k l g)
        λ v h. AllOk-bind (links_of-IsWritable k ls gs) λ vs hs. gives (h, hs)

  insert-pb_of :
      (l : LinkValue C) (ls : List (LinkValue C))
      → insert pb_link_less (pb_of l) (map pb_of ls) ≡ map pb_of (insert name_less l ls)
  unfolding insert pb_link_less
  insert-pb_of l [] = refl
  insert-pb_of l (l' ∷ ls) = rw (insert-pb_of l ls) (map-if pb_of (name_less l' l) _ _)

  pub sort_links-pb_of :
      (ls : List (LinkValue C)) → sort_links (map pb_of ls) ≡ map pb_of (stable_sort name_less ls)
  unfolding sort_links stable_sort
  sort_links-pb_of [] = refl
  sort_links-pb_of (l ∷ ls) = rw (sort_links-pb_of ls) (insert-pb_of l _)
