-- ===== src/Marshal/Rejects.antt =====
-- marshal.go: the nodes that `AppendEncode` refuses.
use go_codec_dagpb.Common.{
  ℕ, ◌<◌, ◌≡◌, ◌≢◌, refl, ℤ, negsuc, Bytes, Option, none, some, List, [], ◌∷◌, ◌++◌, map, length,
  length-append, arith, All,
}
use go_codec_dagpb.Outcome.{err, negative_tsize, link_without_hash}
use go_codec_dagpb.Schema.{Link, Field, PbLink, PbNode, cid_link}
use go_codec_dagpb.Message.{LinkValue, field_of, link_of}
use go_codec_dagpb.Node.{Node, Typed}
use go_codec_dagpb.Node.Access.{lookup_by_string}
use go_codec_dagpb.Node.Iteration.{items_of, link_items-all}
use go_codec_dagpb.Wire.{Protowire, Cids}
use go_codec_dagpb.Marshal.Collect.{collect_link, collect}
use go_codec_dagpb.Marshal.Append.{append_list, append_encode}
use go_codec_dagpb.Marshal.Image.{TsizeFits}
use go_codec_dagpb.Marshal.Links.{collect_link-link_value}
use go_codec_dagpb.Marshal.Encodable.{link_value-link_of}
use go_codec_dagpb.Marshal.Encoded.{positive}

module _ {C : Type 0} where
  -- The first link that is refused ends the loop.
  collect-stops :
      (ls : List (LinkValue C)) (bad : PbLink C) (rest : List (PbLink C)) (e : _)
      → All (λ l. TsizeFits l.tsize) ls
      → collect_link (Node.typed (Typed.pb_link bad)) ≡ err e
      → collect (items_of Typed.pb_link (map link_of ls ++ bad ∷ rest)) ≡ err e
  unfolding collect
  collect-stops [] bad rest e hs h = rw h refl
  collect-stops (l ∷ ls) bad rest e (h₀, hs) h =
      rw (collect_link-link_value (link_of l), link_value-link_of l h₀)
        (rw (collect-stops ls bad rest e hs h) refl)

  collect_link-negative :
      (l : LinkValue C) (t : ℕ)
      → l.tsize ≡ some (negsuc t)
      → collect_link (Node.typed (Typed.pb_link (link_of l))) ≡ err (negative_tsize t)
  unfolding collect_link
  collect_link-negative l t h = rw (h, field_of) (go l.name)
    where
      go :
          (n : Option Bytes)
          → collect_link (
              Node.typed (Typed.pb_link (link_of (record l { name = n; tsize = some (negsuc t) }))))
            ≡ err (negative_tsize t)
      go none = refl
      go (some n) = refl

  collect_link-no_cid :
      (h : Link C) (n : Field Bytes) (t : Field ℤ)
      → ((c : C) → h ≢ cid_link c)
      → collect_link (Node.typed (Typed.pb_link (record { hash = h; name = n; tsize = t })))
        ≡ err link_without_hash
  unfolding collect_link
  collect_link-no_cid Link.nil n t f = refl
  collect_link-no_cid (Link.cid_link c) n t f = absurd (f c refl)
  collect_link-no_cid (Link.other x) n t f = refl

  module _ (p : Protowire) (k : Cids C) where
    append_encode-stops :
        (n : PbNode C) (enc : Bytes) (e : _)
        → 0 < length n.links.x
        → collect (items_of Typed.pb_link n.links.x) ≡ err e
        → append_encode p k enc (Node.typed (Typed.pb_node n)) ≡ err e
    unfolding append_encode append_list lookup_by_string
    append_encode-stops n enc e h c =
        rw (positive (length n.links.x) h) (rw (link_items-all n.links) (rw c refl))

    some_links :
        (ls : List (LinkValue C)) (bad : PbLink C) (rest : List (PbLink C))
        → 0 < length (map link_of ls ++ bad ∷ rest)
    some_links ls bad rest = omega (arith, length-append (map link_of ls) (bad ∷ rest))

    -- A node is refused for the first of its links whose Tsize is negative, if the links before it
    -- have CIDs and no negative Tsize.
    pub append_encode-negative :
        (ls : List (LinkValue C)) (l : LinkValue C) (t : ℕ) (rest : List (PbLink C))
        (d : Field Bytes) (enc : Bytes)
        → All (λ l. TsizeFits l.tsize) ls
        → l.tsize ≡ some (negsuc t)
        → append_encode p k enc (
            Node.typed (
              Typed.pb_node
                (record { links = record { x = map link_of ls ++ link_of l ∷ rest }; bytes = d })))
          ≡ err (negative_tsize t)
    append_encode-negative ls l t rest d enc hs h =
        append_encode-stops _ enc _ (some_links ls (link_of l) rest)
          (collect-stops ls (link_of l) rest _ hs (collect_link-negative l t h))

    -- A node is refused for the first of its links whose Hash is no CID link, if the links before it
    -- have CIDs and no negative Tsize.
    pub append_encode-no_cid :
        (ls : List (LinkValue C)) (bad : PbLink C) (rest : List (PbLink C)) (d : Field Bytes)
        (enc : Bytes)
        → All (λ l. TsizeFits l.tsize) ls
        → ((c : C) → bad.hash ≢ cid_link c)
        → append_encode p k enc (
            Node.typed (
              Typed.pb_node
                (record { links = record { x = map link_of ls ++ bad ∷ rest }; bytes = d })))
          ≡ err link_without_hash
    append_encode-no_cid ls bad rest d enc hs h =
        append_encode-stops _ enc _ (some_links ls bad rest)
          (collect-stops ls bad rest _ hs (collect_link-no_cid bad.hash bad.name bad.tsize h))
