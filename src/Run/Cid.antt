-- ===== src/Run/Cid.antt =====
-- An instance of `Cids`: version 1 CIDs over identity multihashes of at most 127 bytes, which are
-- 1, the codec, 0, n and the n bytes of the digest.
use go_codec_dagpb.Common.{
  ℕ, ◌+◌, ◌≡◌, Bytes, [], ◌∷◌, length, leb, ◌==◌, ◌&&◌, inl, inr, ◌⊎◌, arith, if◌then◌else◌,
}
use go_codec_dagpb.Wire.{Cids, IsDefined}
use go_codec_dagpb.Run.Wire.{take, take-append}
use mathlib.Core.List.{append-nil}

pub record Cid : Type 0 where
  pub codec : ℕ
  pub digest : Bytes

read : Bytes → ℕ ⊎ (ℕ × Cid)
unfolding take
read (v ∷ codec ∷ h ∷ n ∷ rest) =
    if v == 1 && h == 0 && leb n (length rest)
    then inr (4 + n, record { codec = codec; digest = take n rest })
    else inl 1
read _ = inl 0

unfoldable pub cids : Cids Cid
unfolding read
cids = record {
  to_bytes = λ c. 1 ∷ c.codec ∷ 0 ∷ length c.digest ∷ c.digest;
  from_bytes = read;
  codec = λ c. c.codec;
}

take_all : (b : Bytes) → take (length b) b ≡ b
take_all b = rw append-nil at (take-append b [])

pub cids-IsDefined : (c : Cid) → IsDefined cids c
unfolding cids
cids-IsDefined c = record { back = ground (arith, take_all c.digest) }
