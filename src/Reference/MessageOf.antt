-- ===== src/Reference/MessageOf.antt =====
-- The message that a typed PBNode stands for, or why it cannot be encoded.
use go_codec_dagpb.Common.{
  ◌<◌, ◌^◌, ◌≡◌, ℤ, pos, negsuc, Bytes, Option, none, some, List, [], ◌∷◌, length,
}
use go_codec_dagpb.Outcome.{Outcome, ok, err, link_without_hash, negative_tsize, ◌>>=◌}
use go_codec_dagpb.Schema.{Maybe, Field, Link as IpldLink, PbLink, PbNode, nil, cid_link, other}
use go_codec_dagpb.Message.{LinkValue, Message}
use go_codec_dagpb.Wire.{Cids}

-- An optional field.
abbrev pub value_in {ℓ} : {A : Type ℓ} → Maybe → A → Option A
value_in Maybe.absent v = none
value_in _ v = some v

abbrev pub optional {ℓ} : {A : Type ℓ} → Field A → Option A
optional fd = value_in fd.m fd.v

module _ {C : Type 0} where
  abbrev pub link_value : IpldLink C → Option Bytes → Option ℤ → Outcome (LinkValue C)
  link_value (cid_link c) n (some (negsuc t)) = err (negative_tsize t)
  link_value (cid_link c) n (some (pos t)) =
      ok (record { hash = c; name = n; tsize = some (pos t) })
  link_value (cid_link c) n none = ok (record { hash = c; name = n; tsize = none })
  link_value nil n t = err link_without_hash
  link_value (other x) n t = err link_without_hash

  abbrev pub links_of : List (PbLink C) → Outcome (List (LinkValue C))
  links_of [] = ok []
  links_of (l ∷ ls) = do
    v ← link_value l.hash (optional l.name) (optional l.tsize)
    vs ← links_of ls
    ok (v ∷ vs)

  -- The error is that of the first link that has no CID or a negative Tsize.
  unfoldable pub message_of : PbNode C → Outcome (Message C)
  message_of n = do ls ← links_of n.links.x; ok (record { links = ls; bytes = optional n.bytes })

abbrev pub IsInt64 : ℤ → Type 0
IsInt64 (pos t) = t < 2 ^ 63
IsInt64 (negsuc t) = t < 2 ^ 63

-- What Go's types give of any link: an int64 is below 2 ^ 63, and so is the length of a string.
pub record InGo {C : Type 0} (k : Cids C) (l : PbLink C) : Type 0 where
  pub cid_fits : (c : C) → l.hash ≡ cid_link c → length (k.to_bytes c) < 2 ^ 63
  pub name_fits : length l.name.v < 2 ^ 63
  pub tsize_fits : IsInt64 l.tsize.v
