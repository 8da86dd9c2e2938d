-- ===== src/Unmarshal/LinkImage.antt =====
-- `unmarshalLink` on the bytes of a link, into any target.
use go_codec_dagpb.Common.{
  ◌-◌, ◌<◌, ◌≤◌, ◌^◌, ◌≡◌, ℕ, negsuc, none, some, [], ◌++◌, length, to_int64-neg,
}
use go_codec_dagpb.Outcome.{◌>>=◌}
use go_codec_dagpb.Message.{LinkValue}
use go_codec_dagpb.Wire.{Protowire, IsReader, IsCodec, Cids, IsDefined}
use go_codec_dagpb.Marshal.Image.{delimited, link_image, IsEncodable}
use go_codec_dagpb.Parser.Grammar.{no_name}
use go_codec_dagpb.Parser.Images.{append_varint-IsTsize, hash-IsLink, link_image-IsLink}
use go_codec_dagpb.Unmarshal.Target.{Target, put_hash, put_tsize}
use go_codec_dagpb.Unmarshal.Link.{unmarshal_link}
use go_codec_dagpb.Unmarshal.LinkCalls.{unmarshal_link-IsLink}
use go_codec_dagpb.Unmarshal.Replay.{replay_fields}

module _ {C S : Type 0} (p : Protowire) (r : IsReader p) (q : IsCodec p) (k : Cids C)
    (t : Target C S) where
  -- The bytes of a link make the decoder replay the link's fields.
  pub unmarshal_link-image :
      (l : LinkValue C) (s : S)
      → IsEncodable p k l
      → unmarshal_link p k t (link_image p k l) s ≡ replay_fields t l s
  unmarshal_link-image l s e =
      unmarshal_link-IsLink p r k t (link_image p k l) l s (link_image-IsLink p q k l e)

  -- A Tsize is read as an int64: one that does not fit, from 2^63 on, is assigned as the negative
  -- number with the same 64 bits, and no error is returned for it.
  pub unmarshal_link-wraps :
      (c : C) (v : ℕ) (s : S)
      → IsDefined k c
      → length (k.to_bytes c) < 2 ^ 63
      → 2 ^ 63 ≤ v
      → v < 2 ^ 64
      → unmarshal_link p k t
          (delimited p k 1 (k.to_bytes c) ++ (p.append_tag [] 3 0 ++ p.append_varint [] v))
          s
        ≡ (put_hash t c s >>= λ s'. put_tsize t (negsuc (2 ^ 64 - v - 1)) s')
  unmarshal_link-wraps c v s d fits lo hi =
      let rest = p.append_tag [] 3 0 ++ p.append_varint [] v in
      let wrapped : LinkValue C = record {
        hash = c;
        name = none;
        tsize = some (negsuc (2 ^ 64 - v - 1));
      } in
      unmarshal_link-IsLink p r k t (delimited p k 1 (k.to_bytes c) ++ rest) wrapped s (
        hash-IsLink p q k wrapped rest d fits
          (no_name (rw (to_int64-neg v lo) at (append_varint-IsTsize p q v hi))))
