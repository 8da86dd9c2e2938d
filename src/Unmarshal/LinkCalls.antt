-- ===== src/Unmarshal/LinkCalls.antt =====
-- The calls that `unmarshalLink` makes on any target for a link of the grammar of Parser/Grammar.
use go_codec_dagpb.Common.{
  ℕ, zero, suc, ◌<◌, ◌≤◌, ◌≡◌, refl, ℤ, to_int64, Bytes, Bool, true, false, Option, none, some, [],
  ◌∷◌, length, arith,
}
use go_codec_dagpb.Outcome.{Outcome, ok, ◌>>=◌, bind_dressed, bind_assoc, bind_ok}
use go_codec_dagpb.Message.{LinkValue}
use go_codec_dagpb.Wire.{Protowire, IsReader, Cids}
use go_codec_dagpb.Parser.Grammar.{IsTsize, no_tsize, tsize, IsName, no_name, name, IsLink}
use go_codec_dagpb.Parser.LinkComplete.{read_tag, read_chunk, read_varint, read_cid-from_bytes}
use go_codec_dagpb.Unmarshal.Target.{Target, put_hash, put_name, put_tsize}
use go_codec_dagpb.Unmarshal.Link.{LinkFlags, no_fields, link_round, link_loop, unmarshal_link}
use go_codec_dagpb.Unmarshal.Replay.{replay_name, replay_tsize, replay_fields}

abbrev is_some {ℓ} : {A : Type ℓ} → Option A → Bool
is_some none = false
is_some (some a) = true

-- Hash was read, and then Name or Tsize or both.
abbrev seen : Bool → Bool → LinkFlags
seen n t = record { have_hash = true; have_name = n; have_tsize = t }

module _ {C S : Type 0} (p : Protowire) (r : IsReader p) (k : Cids C) (t : Target C S) where
  -- From `b`, with any fuel that the input allows, the loop comes to `out`.
  abbrev Runs : Bytes → LinkFlags → S → Outcome (LinkFlags × S) → Type 0
  Runs b fl s out = (fuel : ℕ) → length b ≤ fuel → link_loop p k t fuel b fl s ≡ out

  Runs-end : (fl : LinkFlags) (s : S) → Runs [] fl s (ok (fl, s))
  unfolding link_loop
  Runs-end fl s zero h = refl
  Runs-end fl s (suc fuel) h = refl

  Runs-step :
      (b rest : Bytes) (fl fl' : LinkFlags) (s : S) (op : Outcome S)
      (out : S → Outcome (LinkFlags × S))
      → length rest < length b
      → link_round p k t b fl s ≡ (op >>= λ s'. ok (rest, fl', s'))
      → ((s' : S) → Runs rest fl' s' (out s'))
      → Runs b fl s (op >>= out)
  unfolding link_loop
  Runs-step [] rest fl fl' s op out lt e later fuel h = absurd (omega arith)
  Runs-step (c ∷ cs) rest fl fl' s op out lt e later zero h = absurd (omega arith)
  Runs-step (c ∷ cs) rest fl fl' s op out lt e later (suc fuel) h =
      rw e (bind_dressed op _ _ _ (λ s'. later s' fuel (omega arith)))

  Runs-IsTsize :
      (b : Bytes) (i : Option ℤ) (n : Bool) (s : S)
      → IsTsize p b i
      → Runs b (seen n false) s (replay_tsize t i s >>= λ s'. ok (seen n (is_some i), s'))
  unfolding link_round
  Runs-IsTsize b _ n s (no_tsize e) = rw e (Runs-end (seen n false) s)
  Runs-IsTsize b _ n s (tsize {c} {e = rest} {v} tag value ended) =
      let (lt, e, e₁, e₂) = read_tag p r 3 0 b c tag in
      let (lt', e', e₃) = read_varint p r v c rest value in
      Runs-step b rest (seen n false) (seen n true) s (put_tsize t (to_int64 v) s) _ (omega arith)
        (rw (e, e₁, e₂, e', e₃) refl) λ s'. rw ended (Runs-end (seen n true) s')

  Runs-IsName :
      (b : Bytes) (i : Option Bytes) (ts : Option ℤ) (s : S)
      → IsName p b ts i
      → Runs b (seen false false) s (
          replay_name t i s >>= λ s₁.
          replay_tsize t ts s₁ >>= λ s₂. ok (seen (is_some i) (is_some ts), s₂))
  unfolding link_round
  Runs-IsName b _ ts s (no_name is) = Runs-IsTsize b ts false s is
  Runs-IsName b _ ts s (name {c} {e = rest} {n} tag value is) =
      let (lt, e, e₁, e₂) = read_tag p r 2 2 b c tag in
      let (lt', e', e₃) = read_chunk p r n c rest value in
      Runs-step b rest (seen false false) (seen true false) s (put_name t n s) _ (omega arith)
        (rw (e, e₁, e₂, e', e₃) refl) λ s'. Runs-IsTsize rest ts true s' is

  -- The fields of a link, with the flags that are then set.
  abbrev fields_seen : LinkValue C → S → Outcome (LinkFlags × S)
  fields_seen l s = put_hash t l.hash s >>= λ s₀. replay_name t l.name s₀ >>= λ s₁.
      replay_tsize t l.tsize s₁ >>= λ s₂. ok (seen (is_some l.name) (is_some l.tsize), s₂)

  Runs-IsLink :
      (b : Bytes) (l : LinkValue C) (s : S) → IsLink p k b l → Runs b no_fields s (fields_seen l s)
  unfolding link_round
  Runs-IsLink b l s g =
      let (lt, e, e₁, e₂) = read_tag p r 1 2 b g.after_tag g.tagged in
      let (lt', e', e₃) = read_chunk p r g.raw g.after_tag g.after_hash g.valued in
      Runs-step b g.after_hash no_fields (seen false false) s (put_hash t l.hash s) _ (omega arith)
        (rw (e, e₁, e₂, e', e₃, read_cid-from_bytes p r k g.raw l.hash g.read g.hashed) refl)
        λ s'. Runs-IsName g.after_hash l.name l.tsize s' g.named

  -- For any target and any bytes that are a link of the grammar, unmarshalLink assigns the link's
  -- Hash, then its Name and its Tsize if it has them, and does nothing else.
  pub unmarshal_link-IsLink :
      (b : Bytes) (l : LinkValue C) (s : S)
      → IsLink p k b l
      → unmarshal_link p k t b s ≡ replay_fields t l s
  unfolding unmarshal_link
  unmarshal_link-IsLink b l s g =
      rw (Runs-IsLink b l s g (length b) (omega arith)) (simp (bind_assoc, bind_ok))
