-- ===== src/Marshal/LinkOrder.antt =====
-- marshal.go: the order in which `AppendEncode` writes the links.
use go_codec_dagpb.Common.{
  ◌≡◌, refl, Bytes, true, false, List, [], ◌∷◌, filter, same, less, less-asym, less-negative_trans,
  arith,
}
use go_codec_dagpb.Marshal.Sort.{PbLinkRow, pb_link_less, sort_links}
use go_codec_dagpb.Marshal.Order.{IsOrdered, stable_sort-IsOrdered, filter-stable_sort}

-- Strings with the same bytes as a third are not in a strict order.
pub less-same : (s t n : Bytes) → same s n ≡ true → same t n ≡ true → less s t ≡ false
unfolding less
less-same [] [] n h h' = refl
less-same (x ∷ s) [] n h h' = refl
less-same [] (y ∷ t) [] h h' = absurd (cc)
less-same [] (y ∷ t) (z ∷ n) h h' = absurd (cc)
less-same (x ∷ s) (y ∷ t) [] h h' = absurd (cc)
less-same (x ∷ s) (y ∷ t) (z ∷ n) h h' = ground (arith, less-same s t n)

module _ {C : Type 0} where
  -- The links are sorted by their names: no link has a name that is less, byte by byte, than the
  -- name of a link before it.
  pub sort_links-IsOrdered :
      (ls : List (PbLinkRow C)) → IsOrdered (λ a b. less a.name b.name) (sort_links ls)
  unfolding sort_links pb_link_less
  sort_links-IsOrdered =
      stable_sort-IsOrdered pb_link_less (λ a b. less-asym a.name b.name)
        (λ a b c. less-negative_trans a.name b.name c.name)

  -- The sort is stable and keeps every link: for each name, the links of that name are the same
  -- before and after it, in the same order.
  pub filter-sort_links :
      (name : Bytes) (ls : List (PbLinkRow C))
      → filter (λ l. same l.name name) (sort_links ls) ≡ filter (λ l. same l.name name) ls
  unfolding sort_links pb_link_less
  filter-sort_links name =
      filter-stable_sort pb_link_less (λ l. same l.name name) (λ a b. less-same a.name b.name name)
