-- ===== src/Js/Sort.antt =====
-- `Array.prototype.sort` with a comparator, as V8 sorts a short array: each element is inserted in
-- turn before the first one that it precedes. Among elements that the comparator does not order
-- consistently the standard leaves the order open; no theorem on sorted arrays depends on it.
use mathlib.Core.List.{Perm, perm_middle, append-nil}
use mathlib.Core.List.Perm
use relayer_node.Base.{
  ◌≡◌, inl, inr, true, false, List, [], ◌∷◌, ◌++◌, ℤ, is_negative, Bool-cases, if◌then◌else◌, All,
  All-imp, IsOrdered,
}

module _ {ℓ} {A : Type ℓ} (compare_fn : A → A → ℤ) where
  unfoldable pub insert_by : A → List A → List A
  insert_by x [] = x ∷ []
  insert_by x (y ∷ ys) = if is_negative (compare_fn x y) then x ∷ y ∷ ys else y ∷ insert_by x ys

  unfoldable pub sort_onto : List A → List A → List A
  sort_onto acc [] = acc
  sort_onto acc (x ∷ xs) = sort_onto (insert_by x acc) xs

  -- xs.sort(compareFn)
  unfoldable pub sort : List A → List A
  unfolding sort_onto insert_by
  sort xs = sort_onto [] xs

  insert_by-perm : (x : A) (ys : List A) → Perm (insert_by x ys) (x ∷ ys)
  unfolding insert_by
  insert_by-perm x [] = Perm.refl (x ∷ [])
  insert_by-perm x (y ∷ ys) = elim (Bool-cases (is_negative (compare_fn x y))) [
    | inl before ↦ rw before (Perm.refl (x ∷ y ∷ ys))
    | inr after ↦ rw after (Perm.trans (Perm.cons y (insert_by-perm x ys)) (Perm.swap x y ys))
  ]

  sort_onto-perm : (acc xs : List A) → Perm (sort_onto acc xs) (acc ++ xs)
  unfolding sort_onto
  sort_onto-perm acc [] = rw append-nil (Perm.refl acc)
  sort_onto-perm acc (x ∷ xs) =
      Perm.trans (sort_onto-perm (insert_by x acc) xs)
        (Perm.trans (Perm.append_right xs (insert_by-perm x acc)) (Perm.symm (perm_middle acc xs)))

  -- Sorting an array rearranges its elements.
  pub sort-perm : (xs : List A) → Perm (sort xs) xs
  unfolding sort
  sort-perm xs = sort_onto-perm [] xs

  -- What holds of every element of an array holds of every element of the sorted one.
  insert_by-All {κ} :
      (P : A → Type κ) (x : A) (ys : List A) → P x → All P ys → All P (insert_by x ys)
  unfolding insert_by
  insert_by-All P x [] p h = (p, tt)
  insert_by-All P x (y ∷ ys) p h = elim (Bool-cases (is_negative (compare_fn x y))) [
    | inl before ↦ rw before (p, h)
    | inr after ↦ rw after (h.0, insert_by-All P x ys p h.1)
  ]

  sort_onto-All {κ} :
      (P : A → Type κ) (acc xs : List A) → All P acc → All P xs → All P (sort_onto acc xs)
  unfolding sort_onto
  sort_onto-All P acc [] h k = h
  sort_onto-All P acc (x ∷ xs) h k =
      sort_onto-All P (insert_by x acc) xs (insert_by-All P x acc k.0 h) k.1

  pub sort-All {κ} : (P : A → Type κ) (xs : List A) → All P xs → All P (sort xs)
  unfolding sort
  sort-All P xs h = sort_onto-All P [] xs tt h

  module _ {κ} {R : A → A → Type κ} (trans : (x y z : A) → R x y → R y z → R x z)
      (before : (x y : A) → is_negative (compare_fn x y) ≡ true → R x y)
      (after : (x y : A) → is_negative (compare_fn x y) ≡ false → R y x) where
    insert_by-IsOrdered : (x : A) (ys : List A) → IsOrdered R ys → IsOrdered R (insert_by x ys)
    unfolding insert_by
    insert_by-IsOrdered x [] h = (tt, tt)
    insert_by-IsOrdered x (y ∷ ys) h = elim (Bool-cases (is_negative (compare_fn x y))) [
      | inl e ↦ let r = before x y e in rw e ((r, All-imp ys (λ z. trans x y z r) h.0), h)
      | inr e ↦ rw e (insert_by-All (R y) x ys (after x y e) h.0, insert_by-IsOrdered x ys h.1)
    ]

    sort_onto-IsOrdered : (acc xs : List A) → IsOrdered R acc → IsOrdered R (sort_onto acc xs)
    unfolding sort_onto
    sort_onto-IsOrdered acc [] h = h
    sort_onto-IsOrdered acc (x ∷ xs) h =
        sort_onto-IsOrdered (insert_by x acc) xs (insert_by-IsOrdered x acc h)

    -- A comparator that agrees with a transitive relation puts the array in the relation's order.
    pub sort-IsOrdered : (xs : List A) → IsOrdered R (sort xs)
    unfolding sort
    sort-IsOrdered xs = sort_onto-IsOrdered [] xs tt
