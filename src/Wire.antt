-- ===== src/Wire.antt =====
-- The two libraries that the codec calls for bytes: protowire of google.golang.org/protobuf, and
-- go-cid. Both are parameters, with the documented behaviour that the codec relies on.
use go_codec_dagpb.Common.{ℕ, ℤ, pos, ◌+◌, ◌^◌, ◌≤◌, ◌<◌, Bytes, ◌++◌, [], ◌≡◌, ◌⊎◌, inr, length}

-- The Append functions return the grown buffer, the Consume functions a value and the number of
-- bytes taken, which is negative on an error.
pub record Protowire : Type 0 where
  pub append_varint : Bytes → ℕ → Bytes
  pub append_tag : Bytes → ℕ → ℕ → Bytes
  pub append_bytes : Bytes → Bytes → Bytes
  pub size_varint : ℕ → ℕ
  pub size_tag : ℕ → ℕ
  pub size_bytes : ℕ → ℕ
  pub consume_varint : Bytes → ℕ × ℤ
  pub consume_tag : Bytes → ℕ × ℕ × ℤ
  pub consume_bytes : Bytes → Bytes × ℤ

-- What the decoder relies on: a positive count lies within the input.
pub record IsReader (p : Protowire) : Type 0 where
  pub varint_taken :
      (b : Bytes) (v n : ℕ)
      → p.consume_varint b ≡ (v, pos n)
      → (0 < n) × (n ≤ length b) × (v < 2 ^ 64)
  pub tag_taken :
      (b : Bytes) (num typ n : ℕ) → p.consume_tag b ≡ (num, typ, pos n) → (0 < n) × (n ≤ length b)
  pub bytes_taken :
      (b chunk : Bytes) (n : ℕ) → p.consume_bytes b ≡ (chunk, pos n) → (0 < n) × (n ≤ length b)

-- What the encoder relies on: Append functions only append, the sizes are theirs, and the tag of a
-- field below 16 is one byte.
pub record IsWriter (p : Protowire) : Type 0 where
  pub append_varint_lem : (b : Bytes) (v : ℕ) → p.append_varint b v ≡ b ++ p.append_varint [] v
  pub append_tag_lem :
      (b : Bytes) (num typ : ℕ) → p.append_tag b num typ ≡ b ++ p.append_tag [] num typ
  pub append_bytes_lem :
      (b v : Bytes) → p.append_bytes b v ≡ b ++ (p.append_varint [] (length v) ++ v)
  pub size_varint_lem : (v : ℕ) → v < 2 ^ 64 → p.size_varint v ≡ length (p.append_varint [] v)
  pub size_tag_lem :
      (num typ : ℕ)
      → 0 < num
      → num < 16
      → typ < 8
      → (p.size_tag num ≡ 1) × (length (p.append_tag [] num typ) ≡ 1)
  pub size_bytes_lem : (n : ℕ) → n < 2 ^ 63 → p.size_bytes n ≡ p.size_varint n + n

-- What was appended is consumed, whatever follows.
pub record IsCodec (p : Protowire) : Type 0 where
  pub varint_back :
      (v : ℕ) (rest : Bytes)
      → v < 2 ^ 64
      → p.consume_varint (p.append_varint [] v ++ rest) ≡ (v, pos (length (p.append_varint [] v)))
  pub tag_back :
      (num typ : ℕ) (rest : Bytes)
      → 0 < num
      → num < 16
      → typ < 6
      → p.consume_tag (p.append_tag [] num typ ++ rest)
        ≡ (num, typ, pos (length (p.append_tag [] num typ)))
  pub bytes_back :
      (v rest : Bytes)
      → length v < 2 ^ 63
      → p.consume_bytes (p.append_varint [] (length v) ++ (v ++ rest))
        ≡ (v, pos (length (p.append_varint [] (length v) ++ v)))

-- A CID has its bytes, and is read from the front of a byte string, which may go on after it: an
-- error (by a code), or the number of bytes read and the CID.
pub record Cids (C : Type 0) : Type 0 where
  pub to_bytes : C → Bytes
  pub from_bytes : Bytes → ℕ ⊎ (ℕ × C)
  -- Prefix().Codec
  pub codec : C → ℕ

-- A CID that is defined is read back from its bytes. cid.Undef has no bytes, and is not.
pub record IsDefined {C : Type 0} (k : Cids C) (c : C) : Type 0 where
  pub back : k.from_bytes (k.to_bytes c) ≡ inr (length (k.to_bytes c), c)
