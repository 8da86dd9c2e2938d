-- ===== src/Marshal/Order.antt =====
-- marshal.go: what sort.Stable does to the links.
use go_codec_dagpb.Common.{
  ◌≡◌, refl, ap, ◌∙◌, Bool, true, false, List, [], ◌∷◌, All, filter, Bool-cases, inl, inr,
  if◌then◌else◌,
}
use go_codec_dagpb.Marshal.Sort.{insert, stable_sort}

All-if {ℓ κ} :
    {A : Type ℓ} (P : A → Type κ) (b : Bool) (xs ys : List A)
    → All P xs
    → All P ys
    → All P (if b then xs else ys)
All-if P true xs ys hx hy = hx
All-if P false xs ys hx hy = hy

module _ {ℓ} {A : Type ℓ} (lt : A → A → Bool) where
  All-insert {κ} : (P : A → Type κ) (a : A) (xs : List A) → P a → All P xs → All P (insert lt a xs)
  unfolding insert
  All-insert P a [] h hs = (h, tt)
  All-insert P a (x ∷ xs) h (h', hs) =
      All-if P (lt x a) _ _ (h', All-insert P a xs h hs) (h, (h', hs))

  -- What holds of all the items holds of all the sorted ones.
  pub All-stable_sort {κ} : (P : A → Type κ) (xs : List A) → All P xs → All P (stable_sort lt xs)
  unfolding stable_sort
  All-stable_sort P [] hs = tt
  All-stable_sort P (x ∷ xs) (h, hs) = All-insert P x _ h (All-stable_sort P xs hs)

  -- Each item has behind it only items that are not less than it.
  abbrev pub IsOrdered : List A → Type 0
  IsOrdered [] = Unit
  IsOrdered (x ∷ xs) = All (λ y. lt y x ≡ false) xs × IsOrdered xs

  module _ (asym : (x y : A) → lt x y ≡ true → lt y x ≡ false)
      (trans : (x y z : A) → lt y x ≡ false → lt z y ≡ false → lt z x ≡ false) where
    All-trans :
        (a x : A) (xs : List A)
        → lt x a ≡ false
        → All (λ y. lt y x ≡ false) xs
        → All (λ y. lt y a ≡ false) xs
    All-trans a x [] h hs = tt
    All-trans a x (y ∷ xs) h (h', hs) = (trans a x y h h', All-trans a x xs h hs)

    insert-IsOrdered : (a : A) (xs : List A) → IsOrdered xs → IsOrdered (insert lt a xs)
    unfolding insert
    insert-IsOrdered a [] h = (tt, tt)
    insert-IsOrdered a (x ∷ xs) (h, hs) = elim (Bool-cases (lt x a)) [
      | inl e ↦
          rw e (All-insert (λ y. lt y x ≡ false) a xs (asym x a e) h, insert-IsOrdered a xs hs)
      | inr e ↦ rw e ((e, All-trans a x xs e h), (h, hs))
    ]

    -- The sorted list is in order.
    pub stable_sort-IsOrdered : (xs : List A) → IsOrdered (stable_sort lt xs)
    unfolding stable_sort
    stable_sort-IsOrdered [] = tt
    stable_sort-IsOrdered (x ∷ xs) = insert-IsOrdered x _ (stable_sort-IsOrdered xs)

  -- `q` picks out items none of which is less than another.
  module _ (q : A → Bool) (alike : (x y : A) → q x ≡ true → q y ≡ true → lt x y ≡ false) where
    swap :
        (x a : A) (bx ba : Bool) (r : List A)
        → (bx ≡ true → ba ≡ true → ⊥)
        → (if bx then x ∷ (if ba then a ∷ r else r) else (if ba then a ∷ r else r))
          ≡ (if ba then a ∷ (if bx then x ∷ r else r) else (if bx then x ∷ r else r))
    swap x a true true r h = absurd (h refl refl)
    swap x a true false r h = refl
    swap x a false true r h = refl
    swap x a false false r h = refl

    filter-insert : (a : A) (xs : List A) → filter q (insert lt a xs) ≡ filter q (a ∷ xs)
    unfolding insert
    filter-insert a [] = refl
    filter-insert a (x ∷ xs) = elim (Bool-cases (lt x a)) [
      | inl e ↦
          rw e (rw (filter-insert a xs) (swap x a (q x) (q a) _ (λ hx ha. cc (alike x a hx ha, e))))
      | inr e ↦ rw e refl
    ]

    -- Sorting keeps such items as they are, in their order.
    pub filter-stable_sort : (xs : List A) → filter q (stable_sort lt xs) ≡ filter q xs
    unfolding stable_sort
    filter-stable_sort [] = refl
    filter-stable_sort (x ∷ xs) =
        filter-insert x _ ∙ ap (λ r. if q x then x ∷ r else r) (filter-stable_sort xs)

  insert-least : (a : A) (xs : List A) → All (λ y. lt y a ≡ false) xs → insert lt a xs ≡ a ∷ xs
  unfolding insert
  insert-least a [] h = refl
  insert-least a (x ∷ xs) (h, hs) = rw h refl

  -- A list in order is left as it is.
  pub stable_sort-of_IsOrdered : (xs : List A) → IsOrdered xs → stable_sort lt xs ≡ xs
  unfolding stable_sort
  stable_sort-of_IsOrdered [] h = refl
  stable_sort-of_IsOrdered (x ∷ xs) (h, hs) =
      rw (stable_sort-of_IsOrdered xs hs) (insert-least x xs h)
