-- ===== src/Marshal/Encodable.antt =====
-- `AppendEncode` of messages that can be written and read back.
use go_codec_dagpb.Common.{
  ◌<◌, ◌^◌, ◌≡◌, refl, ℤ, pos, negsuc, Bytes, Option, none, some, List, [], ◌∷◌, ◌++◌, map, length,
  arith, All,
}
use go_codec_dagpb.Outcome.{ok}
use go_codec_dagpb.Schema.{cid_link}
use go_codec_dagpb.Message.{LinkValue, Message, field_of, link_of, node_of}
use go_codec_dagpb.Node.{Node, Typed}
use go_codec_dagpb.Wire.{Protowire, IsWriter, Cids}
use go_codec_dagpb.Reference.MessageOf.{optional, link_value, links_of, message_of, IsInt64, InGo}
use go_codec_dagpb.Marshal.Append.{append_encode}
use go_codec_dagpb.Marshal.Image.{
  or_empty, image, TsizeFits, IsWritable, CanEncode, sorted, writables,
}
use go_codec_dagpb.Marshal.Encoded.{append_encode-message_of}
use mathlib.Core.Path.{subst}

optional-field_of {ℓ} : {A : Type ℓ} (z : A) (o : Option A) → optional (field_of z o) ≡ o
optional-field_of z none = refl
optional-field_of z (some a) = refl

module _ {C : Type 0} where
  pub link_value-link_of :
      (l : LinkValue C)
      → TsizeFits l.tsize
      → link_value
          (cid_link l.hash)
          (optional (field_of [] l.name))
          (optional (field_of (pos 0) l.tsize))
        ≡ ok l
  link_value-link_of l h =
      rw (optional-field_of {A = Bytes}, optional-field_of {A = ℤ}) (go l.tsize h)
    where
      go :
          (t : Option ℤ)
          → TsizeFits t
          → link_value (cid_link l.hash) l.name t
            ≡ ok (record { hash = l.hash; name = l.name; tsize = t })
      go none h = refl
      go (some (pos t)) h = refl
      go (some (negsuc t)) h = absurd h

  links_of-link_of :
      (k : Cids C) (ls : List (LinkValue C))
      → All (IsWritable k) ls
      → links_of (map link_of ls) ≡ ok ls
  links_of-link_of k [] w = refl
  links_of-link_of k (l ∷ ls) (w, ws) =
      rw (link_value-link_of l w.tsize_fits, links_of-link_of k ls ws) refl

  pub InGo-link_of : (k : Cids C) (l : LinkValue C) → IsWritable k l → InGo k (link_of l)
  InGo-link_of k l w = record {
    cid_fits = λ c e.
        let same : l.hash ≡ c = cc in subst (λ c. length (k.to_bytes c) < 2 ^ 63) same w.cid_fits;
    name_fits = named l.name w.name_fits;
    tsize_fits = sized l.tsize w.tsize_fits;
  }
    where
      named : (n : Option Bytes) → length (or_empty n) < 2 ^ 63 → length (field_of [] n).v < 2 ^ 63
      named none h = omega arith
      named (some n) h = h

      sized : (t : Option ℤ) → TsizeFits t → IsInt64 (field_of (pos 0) t).v
      sized none h = omega arith
      sized (some (pos t)) h = h
      sized (some (negsuc t)) h = absurd h

  InGo-links :
      (k : Cids C) (ls : List (LinkValue C)) → All (IsWritable k) ls → All (InGo k) (map link_of ls)
  InGo-links k [] w = tt
  InGo-links k (l ∷ ls) (w, ws) = (InGo-link_of k l w, InGo-links k ls ws)

  -- For a message that can be encoded, AppendEncode appends the message's bytes, the links in the
  -- stable order of their names and Data after them.
  pub append_encode-image :
      (p : Protowire) (w : IsWriter p) (k : Cids C) (m : Message C) (enc : Bytes)
      → CanEncode p k m
      → append_encode p k enc (Node.typed (Typed.pb_node (node_of m)))
        ≡ ok (enc ++ image p k (sorted m))
  unfolding message_of
  append_encode-image p w k m enc c =
      let ws = writables p k m.links c.links_fit in
      rw
        (
          append_encode-message_of p w k (node_of m) enc (InGo-links k m.links ws),
          links_of-link_of k m.links ws,
        )
        (rw (optional-field_of [] m.bytes) refl)
