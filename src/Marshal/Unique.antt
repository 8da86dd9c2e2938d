-- ===== src/Marshal/Unique.antt =====
-- A list in the order of its keys is determined by what it has for each key.
use go_codec_dagpb.Common.{
  ◌≡◌, refl, sym, ◌∙◌, Bytes, Bool, false, List, [], ◌∷◌, All, filter, same, same_refl, less,
  Bool-cases, inl, inr, arith,
}
use go_codec_dagpb.Marshal.Order.{IsOrdered}
use mathlib.Core.Path.{subst}

less_irrefl : (s : Bytes) → less s s ≡ false
unfolding less
less_irrefl [] = refl
less_irrefl (x ∷ s) = ground (arith, less_irrefl s)

less_total : (s t : Bytes) → less s t ≡ false → less t s ≡ false → s ≡ t
unfolding less
less_total [] [] h h' = refl
less_total [] (y ∷ t) h h' = absurd (cc)
less_total (x ∷ s) [] h h' = absurd (cc)
less_total (x ∷ s) (y ∷ t) h h' = ground (arith, less_total s t)

module _ {ℓ} {A : Type ℓ} where
  -- The first item that a test picks out is one of the items.
  filter-head {κ} :
      (P : A → Type κ) (q : A → Bool) (xs : List A) (y : A) (r : List A)
      → All P xs
      → filter q xs ≡ y ∷ r
      → P y
  filter-head P q [] y r hs e = absurd (cc)
  filter-head P q (x ∷ xs) y r (h, hs) e = elim (Bool-cases (q x)) [
    | inl t ↦
        let e' : x ∷ filter q xs ≡ y ∷ r = rw t at e in
        let same_head : x ≡ y = cc in subst P same_head h
    | inr f ↦ filter-head P q xs y r hs (rw f at e)
  ]

  filter_tail :
      (q : A → Bool) (x : A) (xs ys : List A)
      → filter q (x ∷ xs) ≡ filter q (x ∷ ys)
      → filter q xs ≡ filter q ys
  filter_tail q x xs ys e = elim (Bool-cases (q x)) [
    | inl t ↦ let e' : x ∷ filter q xs ≡ x ∷ filter q ys = rw t at e in cc
    | inr f ↦ rw f at e
  ]

module _ {ℓ} {A : Type ℓ} (key : A → Bytes) where
  abbrev pub has_key : Bytes → A → Bool
  has_key n x = same (key x) n

  -- For each key the same items, in the same order.
  abbrev pub SameByKey : List A → List A → Type ℓ
  SameByKey xs ys = (n : Bytes) → filter (has_key n) xs ≡ filter (has_key n) ys

  abbrev by_key : A → A → Bool
  by_key x y = less (key x) (key y)

  own_key :
      (x : A) (xs : List A) → filter (has_key (key x)) (x ∷ xs) ≡ x ∷ filter (has_key (key x)) xs
  own_key x xs = rw (same_refl (key x)) refl

  head-not_less :
      (x : A) (xs : List A) (y : A) (ys : List A)
      → IsOrdered by_key (x ∷ xs)
      → SameByKey (x ∷ xs) (y ∷ ys)
      → by_key y x ≡ false
  head-not_less x xs y ys (h, hs) s =
      filter-head (λ z. by_key z x ≡ false) (has_key (key y)) (x ∷ xs) y _ (less_irrefl (key x), h)
        (s (key y) ∙ own_key y ys)

  same_head :
      (x : A) (xs : List A) (y : A) (ys : List A)
      → key x ≡ key y
      → SameByKey (x ∷ xs) (y ∷ ys)
      → x ≡ y
  same_head x xs y ys e s =
      let left : filter (has_key (key y)) (x ∷ xs) ≡ x ∷ filter (has_key (key y)) xs =
        subst (λ n. filter (has_key n) (x ∷ xs) ≡ x ∷ filter (has_key n) xs) e (own_key x xs) in
      let both : x ∷ filter (has_key (key y)) xs ≡ y ∷ filter (has_key (key y)) ys =
        sym left ∙ s (key y) ∙ own_key y ys in
      cc

  pub ordered_unique :
      (xs ys : List A) → IsOrdered by_key xs → IsOrdered by_key ys → SameByKey xs ys → xs ≡ ys
  ordered_unique [] [] o o' s = refl
  ordered_unique [] (y ∷ ys) o o' s = absurd (cc (s (key y) ∙ own_key y ys))
  ordered_unique (x ∷ xs) [] o o' s = absurd (cc (sym (s (key x)) ∙ own_key x xs))
  ordered_unique (x ∷ xs) (y ∷ ys) o o' s =
      let keys : key x ≡ key y =
        less_total (key x) (key y) (head-not_less y ys x xs o' (λ n. sym (s n)))
          (head-not_less x xs y ys o s) in
      let heads = same_head x xs y ys keys s in
      let tails : SameByKey xs ys = λ n. filter_tail (has_key n) x xs ys (s n ∙ rw heads refl) in
      let others = ordered_unique xs ys o.1 o'.1 tails in λ i. heads i ∷ others i
