-- ===== src/Marshal/Sort.antt =====
-- marshal.go: `pbLink`, its order and sort.Stable over it. The result of a stable sort is determined
-- by the order, so any stable algorithm models the one of the Go library; this is by insertion.
use go_codec_dagpb.Common.{ℕ, Bytes, Bool, List, [], ◌∷◌, less, if◌then◌else◌}

pub record PbLinkRow (C : Type 0) : Type 0 where
  pub hash : C
  pub name : Bytes
  pub has_name : Bool
  pub tsize : ℕ
  pub has_tsize : Bool

module _ {ℓ} {A : Type ℓ} (lt : A → A → Bool) where
  -- `a` goes before the first item that is not less than it.
  unfoldable pub insert : A → List A → List A
  insert a [] = a ∷ []
  insert a (b ∷ bs) = let rest = insert a bs in if lt b a then b ∷ rest else a ∷ b ∷ bs

  -- `sort.Stable`
  unfoldable pub stable_sort : List A → List A
  unfolding insert
  stable_sort [] = []
  stable_sort (a ∷ rest) = insert a (stable_sort rest)

module _ {C : Type 0} where
  -- pbLinkLess
  unfoldable pub pb_link_less : PbLinkRow C → PbLinkRow C → Bool
  unfolding less
  pb_link_less a b = less a.name b.name

  -- `sort.Stable(pbLinkSlice(pbLinks))`
  unfoldable pub sort_links : List (PbLinkRow C) → List (PbLinkRow C)
  unfolding stable_sort pb_link_less
  sort_links = stable_sort pb_link_less
