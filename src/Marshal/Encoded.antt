-- ===== src/Marshal/Encoded.antt =====
-- `AppendEncode` on a typed node that holds a message.
use go_codec_dagpb.Common.{
  ℕ, ◌+◌, ◌<◌, ◌^◌, ◌≡◌, refl, sym, ap, ◌∙◌, ℤ, pos, negsuc, Bytes, true, Option, none, some, List,
  [], ◌∷◌, ◌++◌, map, length, length-append, append-nil, append_assoc, arith, All, if◌then◌else◌,
}
use go_codec_dagpb.Outcome.{Outcome, ok, err, panic, stuck, ◌>>=◌}
use go_codec_dagpb.Outcome.AllOk.{AllOk, gives, fails, panics, runs_on}
use go_codec_dagpb.Reference.MessageOf.{value_in, optional, links_of, message_of, InGo}
use go_codec_dagpb.Message.{LinkValue, Message}
use go_codec_dagpb.Schema.{Maybe, PbLink, PbNode, PbLinks, data_key}
use go_codec_dagpb.Node.{Node, Typed}
use go_codec_dagpb.Node.Access.{lookup_by_string, link_items}
use go_codec_dagpb.Node.Iteration.{link_items-all}
use go_codec_dagpb.Wire.{Protowire, IsWriter, Cids}
use go_codec_dagpb.Marshal.Sort.{stable_sort, sort_links}
use go_codec_dagpb.Marshal.Order.{All-stable_sort}
use go_codec_dagpb.Marshal.Collect.{collect}
use go_codec_dagpb.Marshal.Append.{
  link_size, append_name, append_tsize, append_link, append_links, is_positive, append_data,
  append_list, append_encode,
}
use go_codec_dagpb.Marshal.Image.{
  or_empty, delimited, name_image, tsize_image, link_image, links_image, data_image, image,
  TsizeFits, IsEncodable, IsWritable, CanEncode, name_less, sorted,
}
use go_codec_dagpb.Marshal.Links.{
  has, size_of, pb_of, collect-links_of, links_of-IsWritable, sort_links-pb_of,
}

pub positive : (n : ℕ) → 0 < n → is_positive (pos n) ≡ true
positive n h = ground arith

module _ {C : Type 0} (p : Protowire) (w : IsWriter p) (k : Cids C) where
  append-delimited :
      (num : ℕ) (v enc : Bytes)
      → p.append_bytes (p.append_tag enc num 2) v ≡ enc ++ delimited p k num v
  append-delimited num v enc =
      w.append_bytes_lem _ v ∙ rw (w.append_tag_lem enc num 2) (append_assoc enc _ _)

  append_name-image :
      (l : LinkValue C) (enc : Bytes) → append_name p k (pb_of l) enc ≡ enc ++ name_image p k l.name
  unfolding append_name
  append_name-image l enc = go l.name
    where
      go :
          (n : Option Bytes)
          → append_name p k (pb_of (record l { name = n })) enc ≡ enc ++ name_image p k n
      go none = sym (append-nil enc)
      go (some n) = append-delimited 2 n enc

  append_tsize-image :
      (l : LinkValue C) (enc : Bytes)
      → TsizeFits l.tsize
      → append_tsize p k (pb_of l) enc ≡ enc ++ tsize_image p k l.tsize
  unfolding append_tsize
  append_tsize-image l enc h = go l.tsize h
    where
      go :
          (t : Option ℤ)
          → TsizeFits t
          → append_tsize p k (pb_of (record l { tsize = t })) enc ≡ enc ++ tsize_image p k t
      go none h = sym (append-nil enc)
      go (some (pos t)) h =
          w.append_varint_lem _ t ∙ rw (w.append_tag_lem enc 3 0) (append_assoc enc _ _)
      go (some (negsuc t)) h = absurd h

  one_byte : (num : ℕ) → 0 < num → num < 16 → p.size_tag num ≡ 1
  one_byte num lo hi = (w.size_tag_lem num 0 lo hi (omega arith)).0

  size-delimited :
      (num : ℕ) (v : Bytes)
      → 0 < num
      → num < 16
      → length v < 2 ^ 63
      → 1 + p.size_bytes (length v) ≡ length (delimited p k num v)
  size-delimited num v lo hi h = omega (
    arith,
    (w.size_tag_lem num 2 lo hi (omega arith)).1,
    w.size_bytes_lem (length v) h,
    w.size_varint_lem (length v) (omega arith),
    length-append (p.append_tag [] num 2) (p.append_varint [] (length v) ++ v),
    length-append (p.append_varint [] (length v)) v,
  )

  size-name :
      (n : Option Bytes)
      → length (or_empty n) < 2 ^ 63
      → (if has n then 1 + p.size_bytes (length (or_empty n)) else 0) ≡ length (name_image p k n)
  size-name none h = refl
  size-name (some n) h = size-delimited 2 n (omega arith) (omega arith) h

  size-tsize :
      (t : Option ℤ)
      → TsizeFits t
      → (if has t then 1 + p.size_varint (size_of t) else 0) ≡ length (tsize_image p k t)
  size-tsize none h = refl
  size-tsize (some (pos t)) h = omega (
    arith,
    (w.size_tag_lem 3 0 (omega arith) (omega arith) (omega arith)).1,
    w.size_varint_lem t (omega arith),
    length-append (p.append_tag [] 3 0) (p.append_varint [] t),
  )
  size-tsize (some (negsuc t)) h = absurd h

  -- The length that is written before a link is that of what is written after it.
  pub link_size-image :
      (l : LinkValue C) → IsWritable k l → link_size p k (pb_of l) ≡ length (link_image p k l)
  unfolding link_size
  link_size-image l e = rw (one_byte 2 (omega arith) (omega arith)) (
      rw (one_byte 3 (omega arith) (omega arith)) (
        omega (
          arith,
          size-delimited 1 (k.to_bytes l.hash) (omega arith) (omega arith) e.cid_fits,
          size-name l.name e.name_fits,
          size-tsize l.tsize e.tsize_fits,
          length-append (delimited p k 1 (k.to_bytes l.hash))
              (name_image p k l.name ++ tsize_image p k l.tsize),
          length-append (name_image p k l.name) (tsize_image p k l.tsize),
        )))

  append_link-image :
      (l : LinkValue C) (enc : Bytes)
      → IsWritable k l
      → append_link p k enc (pb_of l) ≡ enc ++ delimited p k 2 (link_image p k l)
  unfolding append_link append_tsize append_name
  append_link-image l enc e =
      append_tsize-image l _ e.tsize_fits
      ∙ rw (append_name-image l _) (
          rw (append-delimited 1 (k.to_bytes l.hash) _) (
            rw (link_size-image l e) (
              rw (w.append_varint_lem (p.append_tag enc 2 2) (length (link_image p k l)))
                (rw (w.append_tag_lem enc 2 2) (simp append_assoc)))))

  append_links-image :
      (ls : List (LinkValue C)) (enc : Bytes)
      → All (IsWritable k) ls
      → append_links p k enc (map pb_of ls) ≡ enc ++ links_image p k ls
  unfolding append_links
  append_links-image [] enc es = sym (append-nil enc)
  append_links-image (l ∷ ls) enc (e, es) =
      rw (append_link-image l enc e, append_links)
        (append_links-image ls _ es ∙ append_assoc enc (delimited p k 2 (link_image p k l)) _)

  -- The links of a message that can be encoded can be encoded in any order.
  pub CanEncode-sorted : (m : Message C) → CanEncode p k m → CanEncode p k (sorted m)
  CanEncode-sorted m c = record {
    links_fit = All-stable_sort name_less (IsEncodable p k) m.links c.links_fit;
    data_fits = c.data_fits;
  }

  collected :
      (enc : Bytes) (r : Outcome (List (LinkValue C)))
      → AllOk (All (IsWritable k)) r
      → (do rows ← (do ls ← r; ok (map pb_of ls)); ok (append_links p k enc (sort_links rows)))
        ≡ (do ls ← r; ok (enc ++ links_image p k (stable_sort name_less ls)))
  collected enc _ (gives {a = ls} h) = ap ok (
      rw (sort_links-pb_of ls)
        (append_links-image _ enc (All-stable_sort name_less (IsWritable k) ls h)))
  collected enc _ fails = refl
  collected enc _ panics = refl
  collected enc _ runs_on = refl

  append_list-nonempty :
      (n : PbLinks C) (enc : Bytes)
      → 0 < length n.x
      → append_list p k enc (Node.typed (Typed.pb_links n))
        ≡ (do xs ← link_items n; ls ← collect xs; ok (append_links p k enc (sort_links ls)))
  unfolding append_list
  append_list-nonempty n enc h = rw (positive (length n.x) h) refl

  append_list-links_of :
      (ls : List (PbLink C)) (enc : Bytes)
      → All (InGo k) ls
      → append_list p k enc (Node.typed (Typed.pb_links (record { x = ls })))
        ≡ (do vs ← links_of ls; ok (enc ++ links_image p k (stable_sort name_less vs)))
  unfolding append_list stable_sort
  append_list-links_of [] enc g = ap ok (sym (append-nil enc))
  append_list-links_of (l ∷ ls) enc g =
      append_list-nonempty (record { x = l ∷ ls }) enc (omega arith)
      ∙ rw (link_items-all (record { x = l ∷ ls }), collect-links_of (l ∷ ls))
          (collected enc (links_of (l ∷ ls)) (links_of-IsWritable k (l ∷ ls) g))

  append_data-optional :
      (n : PbNode C) (enc : Bytes)
      → (do
        byts ← lookup_by_string (Node.typed (Typed.pb_node n)) data_key
        append_data p k enc byts)
        ≡ ok (enc ++ data_image p k (optional n.bytes))
  unfolding append_data lookup_by_string
  append_data-optional n enc = go n.bytes.m
    where
      go :
          (m : Maybe)
          → (do
            byts ←
                lookup_by_string
                  (Node.typed
                    (Typed.pb_node (record n { bytes = record { m = m; v = n.bytes.v } })))
                  data_key
            append_data p k enc byts)
            ≡ ok (enc ++ data_image p k (value_in m n.bytes.v))
      go Maybe.absent = ap ok (sym (append-nil enc))
      go _ = ap ok (append-delimited 1 n.bytes.v enc)

  -- AppendEncode of a typed PBNode, as Go can hold it, appends the bytes of the message that the
  -- node stands for, the links in the stable order of their names and Data after them; or it gives
  -- the error of the first link that has no CID or a negative Tsize.
  pub append_encode-message_of :
      (n : PbNode C) (enc : Bytes)
      → All (InGo k) n.links.x
      → append_encode p k enc (Node.typed (Typed.pb_node n))
        ≡ (do m ← message_of n; ok (enc ++ image p k (sorted m)))
  unfolding append_encode lookup_by_string message_of
  append_encode-message_of n enc g =
      rw (append_list-links_of n.links.x enc g) (go (links_of n.links.x))
    where
      go :
          (r : Outcome (List (LinkValue C)))
          → (do
            enc₁ ← (do vs ← r; ok (enc ++ links_image p k (stable_sort name_less vs)))
            byts ← lookup_by_string (Node.typed (Typed.pb_node n)) data_key
            append_data p k enc₁ byts)
            ≡ (do
              m ← (do vs ← r; ok (record { links = vs; bytes = optional n.bytes }))
              ok (enc ++ image p k (sorted m)))
      go (ok vs) = append_data-optional n _ ∙ ap ok (append_assoc enc _ _)
      go (err e) = refl
      go (panic x) = refl
      go stuck = refl
