-- ===== src/Run/Wire.antt =====
-- An instance of `Protowire`: the base-128 varints of the protocol buffers encoding. It shows that
-- the laws the theorems take can hold, and lets the codec run on bytes.
use go_codec_dagpb.Common.{
  ℕ, zero, suc, ℤ, pos, negsuc, ◌+◌, ◌*◌, ◌/◌, ◌%◌, ◌^◌, ◌≤◌, ◌<◌, ◌≡◌, refl, ap, Bytes, Option,
  none, some, [], ◌∷◌, ◌++◌, length, length-append, drop, drop-append, arith, ltb, leb,
  if◌then◌else◌,
}
use go_codec_dagpb.Wire.{Protowire, IsReader, IsWriter, IsCodec}

varint : ℕ → ℕ → Bytes
varint zero v = v ∷ []
varint (suc k) v =
    let rest = varint k (v / 128) in if ltb v 128 then v ∷ [] else (v % 128 + 128) ∷ rest

-- The value and the number of bytes.
next_group : ℕ → Option (ℕ × ℕ) → Option (ℕ × ℕ)
next_group b none = none
next_group b (some (v, n)) = some (b % 128 + 128 * v, suc n)

read_varint : ℕ → Bytes → Option (ℕ × ℕ)
unfolding next_group
read_varint zero bs = none
read_varint (suc k) [] = none
read_varint (suc k) (b ∷ bs) =
    let more = next_group b (read_varint k bs) in if ltb b 128 then some (b, 1) else more

unfoldable pub take : ℕ → Bytes → Bytes
take zero b = []
take (suc n) [] = []
take (suc n) (x ∷ xs) = x ∷ take n xs

take_varint : Option (ℕ × ℕ) → ℕ × ℤ
take_varint none = (0, negsuc 0)
take_varint (some (v, n)) = if ltb v (2 ^ 64) then (v, pos n) else (0, negsuc 1)

take_tag : Option (ℕ × ℕ) → ℕ × ℕ × ℤ
take_tag none = (0, 0, negsuc 0)
take_tag (some (v, n)) = (v / 8, v % 8, pos n)

take_bytes : Bytes → Option (ℕ × ℕ) → Bytes × ℤ
take_bytes b none = ([], negsuc 0)
take_bytes b (some (m, n)) =
    if leb (n + m) (length b) then (take m (drop n b), pos (n + m)) else ([], negsuc 0)

unfoldable pub wire : Protowire
unfolding varint read_varint take take_varint take_tag take_bytes
wire = record {
  append_varint = λ b v. b ++ varint 9 v;
  append_tag = λ b num typ. b ++ varint 9 (num * 8 + typ);
  append_bytes = λ b v. b ++ (varint 9 (length v) ++ v);
  size_varint = λ v. length (varint 9 v);
  size_tag = λ num. length (varint 9 (num * 8));
  size_bytes = λ n. length (varint 9 n) + n;
  consume_varint = λ b. take_varint (read_varint 10 b);
  consume_tag = λ b. take_tag (read_varint 10 b);
  consume_bytes = λ b. take_bytes b (read_varint 10 b);
}

read_varint_taken :
    (k : ℕ) (b : Bytes) (v n : ℕ) → read_varint k b ≡ some (v, n) → (0 < n) × (n ≤ length b)
unfolding read_varint
read_varint_taken zero b v n e = ground arith
read_varint_taken (suc k) [] v n e = ground arith
read_varint_taken (suc k) (x ∷ bs) v n e = go (read_varint k bs) (read_varint_taken k bs) e
  where
    go :
        (r : Option (ℕ × ℕ))
        → ((v n : ℕ) → r ≡ some (v, n) → (0 < n) × (n ≤ length bs))
        → (if ltb x 128 then some (x, 1) else next_group x r) ≡ some (v, n)
        → (0 < n) × (n ≤ suc (length bs))
    go none ih h = ground arith
    go (some (u, m)) ih h = ground (arith, ih u m refl)

pub wire-IsReader : IsReader wire
unfolding wire
wire-IsReader = record {
  varint_taken = λ b v n e. varint_case b (read_varint 10 b) refl v n e;
  tag_taken = λ b num typ n e. tag_case b (read_varint 10 b) refl num typ n e;
  bytes_taken = λ b chunk n e. bytes_case b (read_varint 10 b) refl chunk n e;
}
  where
    varint_case :
        (b : Bytes) (r : Option (ℕ × ℕ))
        → read_varint 10 b ≡ r
        → (v n : ℕ) → take_varint r ≡ (v, pos n)
        → (0 < n) × (n ≤ length b) × (v < 2 ^ 64)
    varint_case b none h v n e = ground arith
    varint_case b (some (u, m)) h v n e = ground (arith, read_varint_taken 10 b u m h)

    tag_case :
        (b : Bytes) (r : Option (ℕ × ℕ))
        → read_varint 10 b ≡ r
        → (num typ n : ℕ) → take_tag r ≡ (num, typ, pos n)
        → (0 < n) × (n ≤ length b)
    tag_case b none h num typ n e = ground arith
    tag_case b (some (u, m)) h num typ n e = ground (arith, read_varint_taken 10 b u m h)

    bytes_case :
        (b : Bytes) (r : Option (ℕ × ℕ))
        → read_varint 10 b ≡ r
        → (chunk : Bytes) (n : ℕ) → take_bytes b r ≡ (chunk, pos n)
        → (0 < n) × (n ≤ length b)
    bytes_case b none h chunk n e = ground arith
    bytes_case b (some (u, m)) h chunk n e = ground (arith, read_varint_taken 10 b u m h)

pub wire-IsWriter : IsWriter wire
unfolding wire
wire-IsWriter = record {
  append_varint_lem = λ b v. refl;
  append_tag_lem = λ b num typ. refl;
  append_bytes_lem = λ b v. refl;
  size_varint_lem = λ v h. refl;
  size_tag_lem = λ num typ h h' h''. (ground arith, ground arith);
  size_bytes_lem = λ n h. refl;
}

read_varint_back :
    (k v : ℕ) (rest : Bytes)
    → v < 128 ^ suc k
    → read_varint (suc k) (varint k v ++ rest) ≡ some (v, length (varint k v))
unfolding read_varint varint
read_varint_back zero v rest h = ground arith
read_varint_back (suc k) v rest h = ground (arith, read_varint_back k (v / 128) rest (omega arith))

pub take-append : (v rest : Bytes) → take (length v) (v ++ rest) ≡ v
unfolding take
take-append [] rest = refl
take-append (x ∷ v) rest = ap (◌∷◌ x) (take-append v rest)

take_bytes_back :
    (l v rest : Bytes)
    → take_bytes (l ++ (v ++ rest)) (some (length v, length l)) ≡ (v, pos (length (l ++ v)))
unfolding take_bytes
take_bytes_back l v rest = ground (
  arith,
  drop-append l (v ++ rest),
  take-append v rest,
  length-append l v,
  length-append l (v ++ rest),
  length-append v rest,
)

pub wire-IsCodec : IsCodec wire
unfolding wire
wire-IsCodec = record {
  varint_back = λ v rest h. rw (read_varint_back 9 v rest (omega arith)) (ground arith);
  tag_back = λ num typ rest h h' h''.
      rw (read_varint_back 9 (num * 8 + typ) rest (omega arith)) (ground arith);
  bytes_back = λ v rest h.
      rw (read_varint_back 9 (length v) (v ++ rest) (omega arith))
        (take_bytes_back (varint 9 (length v)) v rest);
}
