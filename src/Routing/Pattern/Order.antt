-- ===== src/Routing/Pattern/Order.antt =====
-- `cmp_specificity` is a total preorder, so sorting by it is well defined.
use nivasa.Prelude.{Below, IsPreorder, ℕ, Ordering, ◌≡◌, List, [], ◌∷◌, arith}
use nivasa.Routing.Pattern.{specificity, cmp_ranks, cmp_specificity}

cmp_ranks_total : (ls rs : List ℕ) → cmp_ranks ls rs ≡ Ordering.gt → Below (cmp_ranks rs ls)
cmp_ranks_total [] [] h = tt
cmp_ranks_total [] (r ∷ rs) h = absurd (ground arith)
cmp_ranks_total (l ∷ ls) [] h = ground arith
cmp_ranks_total (l ∷ ls) (r ∷ rs) h = ground (arith, cmp_ranks_total ls rs)

cmp_ranks_trans :
    (as' bs cs : List ℕ)
    → Below (cmp_ranks as' bs)
    → Below (cmp_ranks bs cs)
    → Below (cmp_ranks as' cs)
cmp_ranks_trans [] [] [] h k = tt
cmp_ranks_trans [] [] (c ∷ cs) h k = ground arith
cmp_ranks_trans [] (b ∷ bs) [] h k = tt
cmp_ranks_trans [] (b ∷ bs) (c ∷ cs) h k = ground arith
cmp_ranks_trans (a ∷ as') [] cs h k = absurd (ground arith)
cmp_ranks_trans (a ∷ as') (b ∷ bs) [] h k = absurd (ground arith)
cmp_ranks_trans (a ∷ as') (b ∷ bs) (c ∷ cs) h k = ground (arith, cmp_ranks_trans as' bs cs)

-- The specificity order of routes is total and transitive.
pub cmp_specificity-IsPreorder : IsPreorder cmp_specificity
unfolding cmp_specificity
cmp_specificity-IsPreorder = record {
  total = λ x y. cmp_ranks_total (specificity x) (specificity y);
  trans = λ x y z. cmp_ranks_trans (specificity x) (specificity y) (specificity z);
}
