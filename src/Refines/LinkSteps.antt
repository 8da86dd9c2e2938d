-- ===== src/Refines/LinkSteps.antt =====
-- The states of the PBLink assembler by the fields that are set, and what its methods do there.
use Prim.Native.Nat.{bit_and}
use go_codec_dagpb.Common.{
  ℕ, ◌+◌, ◌≡◌, refl, ℤ, pos, Bytes, Bool, true, false, Option, none, some, [], ◌==◌, not, arith,
  if◌then◌else◌,
}
use go_codec_dagpb.Outcome.{Outcome, ok, err, invalid_key, repeated_key}
use go_codec_dagpb.Schema.{Maybe, MaState, Link as IpldLink, nil, PbLink}
use go_codec_dagpb.Message.{field_of}
use go_codec_dagpb.Assembler.Link
use go_codec_dagpb.Assembler.Link.{LinkAssembler, Child, bit, child_of, child_key, index_of}
use go_codec_dagpb.Reference.LinkFields.{Fields, has}

abbrev pub bit_if {ℓ} : {A : Type ℓ} → ℕ → Option A → ℕ
bit_if b none = 0
bit_if b (some a) = b

pub flip {ℓ} : {A : Type ℓ} (b : Bool) (x y : A) → (if not b then x else y) ≡ (if b then y else x)
flip true x y = refl
flip false x y = refl

module _ {C : Type 0} where
  abbrev pub bits : Fields C → ℕ
  bits fs = bit_if 1 fs.hash + bit_if 2 fs.name + bit_if 4 fs.tsize

  abbrev hash_or_nil : Option (IpldLink C) → IpldLink C
  hash_or_nil none = nil
  hash_or_nil (some l) = l

  abbrev pub row : Fields C → PbLink C
  row fs = record {
    hash = hash_or_nil fs.hash;
    name = field_of [] fs.name;
    tsize = field_of (pos 0) fs.tsize;
  }

  -- Between two entries: `f` is the number of the field that was last at work.
  abbrev pub resting : Maybe → ℕ → Fields C → LinkAssembler C
  resting m f fs = record {
    w = some (row fs);
    m = m;
    state = MaState.initial;
    s = bits fs;
    f = f;
    cm = Maybe.absent;
    hash_w = false;
  }

  -- The field `c` is set, and its value has not been tidied away.
  abbrev pub holding : Maybe → Child → Fields C → LinkAssembler C
  holding m Child.hash fs = record (resting m 0 fs) {
    state = MaState.mid_value;
    cm = Maybe.value;
    hash_w = true;
  }
  holding m Child.name fs = record (resting m 1 fs) { state = MaState.mid_value }
  holding m Child.tsize fs = record (resting m 2 fs) { state = MaState.mid_value }

  -- The assembler is in one of these states, with these fields set.
  pub data At (m : Maybe) (fs : Fields C) : LinkAssembler C → Type 0 where
    rests : (f : ℕ) → At m fs (resting m f fs)
    holds : (c : Child) → has c fs ≡ true → At m fs (holding m c fs)

  -- `c` was claimed, and waits for its value.
  abbrev pub claimed : Maybe → MaState → Child → Fields C → LinkAssembler C
  claimed m st c fs = record (resting m (index_of c) fs) { s = bits fs + bit c; state = st }

  -- The child assembler of `c` is out.
  abbrev pub open_at : Maybe → Child → Fields C → LinkAssembler C
  open_at m Child.hash fs = record (claimed m MaState.mid_value Child.hash fs) { hash_w = true }
  open_at m c fs = claimed m MaState.mid_value c fs

  holds-tidy :
      (m : Maybe) (c : Child) (fs : Fields C)
      → has c fs ≡ true
      → Link.assemble_key (holding m c fs)
        ≡ ok (record (resting m (index_of c) fs) { state = MaState.mid_key })
  unfolding Link.assemble_key
  holds-tidy m c fs h = go c fs.hash fs.name fs.tsize h
    where
      go :
          (c : Child) (h : Option (IpldLink C)) (n : Option Bytes) (t : Option ℤ)
          → let fs : Fields C = record { hash = h; name = n; tsize = t } in
            has c fs ≡ true
            → Link.assemble_key (holding m c fs)
              ≡ ok (record (resting m (index_of c) fs) { state = MaState.mid_key })
      go Child.hash h n t e = refl
      go Child.name h (some n) t e = refl
      go Child.name h none t e = absurd (cc)
      go Child.tsize h n (some t) e = refl
      go Child.tsize h n none e = absurd (cc)

  pub finish-holding :
      (m : Maybe) (c : Child) (fs : Fields C)
      → has c fs ≡ true
      → Link.finish (holding m c fs) ≡ Link.finish (resting m (index_of c) fs)
  unfolding Link.finish
  finish-holding m c fs h = go c fs.hash fs.name fs.tsize h
    where
      go :
          (c : Child) (h : Option (IpldLink C)) (n : Option Bytes) (t : Option ℤ)
          → let fs : Fields C = record { hash = h; name = n; tsize = t } in
            has c fs ≡ true → Link.finish (holding m c fs) ≡ Link.finish (resting m (index_of c) fs)
      go Child.hash h n t e = refl
      go Child.name h (some n) t e = refl
      go Child.name h none t e = absurd (cc)
      go Child.tsize h n (some t) e = refl
      go Child.tsize h n none e = absurd (cc)

  -- A field's bit is clear in `s` while the field is not set.
  pub clear : (c : Child) (fs : Fields C) → (bit_and (bits fs) (bit c) == 0) ≡ not (has c fs)
  clear c fs = go c fs.hash fs.name fs.tsize
    where
      go :
          (c : Child) (h : Option (IpldLink C)) (n : Option Bytes) (t : Option ℤ)
          → let fs : Fields C = record { hash = h; name = n; tsize = t } in
            (bit_and (bits fs) (bit c) == 0) ≡ not (has c fs)
      go c none none none = ground (arith)
      go c none none (some t) = ground (arith)
      go c none (some n) none = ground (arith)
      go c none (some n) (some t) = ground (arith)
      go c (some h) none none = ground (arith)
      go c (some h) none (some t) = ground (arith)
      go c (some h) (some n) none = ground (arith)
      go c (some h) (some n) (some t) = ground (arith)

  -- A claim succeeds for a field that is not set.
  abbrev pub claim_at :
      Maybe → MaState → Option Child → Bytes → Fields C → Outcome (LinkAssembler C)
  claim_at m st none k fs = err (invalid_key k)
  claim_at m st (some c) k fs =
      if has c fs then err (repeated_key (child_key c)) else ok (claimed m st c fs)

  pub claim-resting :
      (m : Maybe) (st st₀ : MaState) (c : Child) (f : ℕ) (fs : Fields C)
      → Link.claim st c (record (resting m f fs) { state = st₀ })
        ≡ (if has c fs then err (repeated_key (child_key c)) else ok (claimed m st c fs))
  unfolding Link.claim
  claim-resting m st st₀ c f fs = rw (clear c fs) (flip (has c fs) _ _)

  pub assign_key-resting :
      (m : Maybe) (k : Bytes) (f : ℕ) (fs : Fields C)
      → Link.assign_key k (record (resting m f fs) { state = MaState.mid_key })
        ≡ claim_at m MaState.expect_value (child_of k) k fs
  unfolding Link.assign_key
  assign_key-resting m k f fs = go (child_of k)
    where
      go :
          (o : Option Child)
          → (elim o [
            | none ↦ err (invalid_key k)
            | some c ↦
                Link.claim MaState.expect_value c
                  (record (resting m f fs) { state = MaState.mid_key })
          ])
            ≡ claim_at m MaState.expect_value o k fs
      go none = refl
      go (some c) = claim-resting m MaState.expect_value MaState.mid_key c f fs

  pub assemble_value-claimed :
      (m : Maybe) (c : Child) (fs : Fields C)
      → Link.assemble_value (claimed m MaState.expect_value c fs) ≡ ok (c, open_at m c fs)
  unfolding Link.assemble_value
  assemble_value-claimed m Child.hash fs = refl
  assemble_value-claimed m Child.name fs = refl
  assemble_value-claimed m Child.tsize fs = refl

  pub assemble_key-At :
      (m : Maybe) (fs : Fields C) (a : LinkAssembler C)
      → At m fs a
      → (f : ℕ) × (Link.assemble_key a ≡ ok (record (resting m f fs) { state = MaState.mid_key }))
  unfolding Link.assemble_key
  assemble_key-At m fs a (rests f) = (f, refl)
  assemble_key-At m fs a (holds c h) = (index_of c, holds-tidy m c fs h)
