-- ===== src/Orchestration/Scheduler/Sorting.antt =====
-- The sort of the scheduler keeps its items.
use avity_os.Base.{Ordering, List, [], ◌∷◌, arith}
use avity_os.Orchestration.Scheduler.{insert_sorted, sort}
use mathlib.Core.List.{Perm}
use mathlib.Core.List.Perm

module _ {A : Type 0} (order : A → A → Ordering) where
  insert_sorted-perm : (x : A) (xs : List A) → Perm (insert_sorted order x xs) (x ∷ xs)
  unfolding insert_sorted
  insert_sorted-perm x [] = Perm.refl _
  insert_sorted-perm x (y ∷ ys) = ground (
    arith,
    Perm.trans (Perm.cons y (insert_sorted-perm x ys)) (Perm.swap x y ys),
    Perm.refl (x ∷ y ∷ ys),
  )

  pub sort-perm : (xs : List A) → Perm (sort order xs) xs
  unfolding sort
  sort-perm [] = Perm.refl _
  sort-perm (x ∷ xs) =
      Perm.trans (insert_sorted-perm x (sort order xs)) (Perm.cons x (sort-perm xs))
