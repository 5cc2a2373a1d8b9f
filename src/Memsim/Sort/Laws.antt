-- ===== src/Memsim/Sort/Laws.antt =====
-- project2/part3/memsim.c: what the insertion sort of the lists does for any two tests.
use xjtu_os_project.Prelude.{
  ℕ, ◌+◌, ◌≡◌, refl, inl, inr, Bool, true, false, not, List, [], ◌∷◌, ◌++◌, arith, total, All,
  Bool-cases,
}
use mathlib.Core.List.{Perm, append-nil, perm_middle}
use mathlib.Core.List.Perm
use xjtu_os_project.Memsim.Sort.{walk, insert, sort_into, sort}

module _ {ℓ} {A : Type ℓ} (before after : A → A → Bool) where
  walk-perm : (cur : A) (xs : List A) → Perm (walk before after cur xs) (cur ∷ xs)
  unfolding walk
  walk-perm cur [] = Perm.refl (cur ∷ [])
  walk-perm cur (n ∷ rest) = elim (Bool-cases (after n cur)) [
    | inl e ↦ rw e (Perm.trans (Perm.cons n (walk-perm cur rest)) (Perm.swap cur n rest))
    | inr e ↦ rw e (Perm.refl (cur ∷ n ∷ rest))
  ]

  insert-perm : (cur : A) (xs : List A) → Perm (insert before after cur xs) (cur ∷ xs)
  unfolding insert
  insert-perm cur [] = Perm.refl (cur ∷ [])
  insert-perm cur (h ∷ rest) = elim (Bool-cases (before cur h)) [
    | inl e ↦ rw e (Perm.refl (cur ∷ h ∷ rest))
    | inr e ↦ rw e (Perm.trans (Perm.cons h (walk-perm cur rest)) (Perm.swap cur h rest))
  ]

  sort_into-perm : (sorted xs : List A) → Perm (sort_into before after sorted xs) (xs ++ sorted)
  unfolding sort_into
  sort_into-perm sorted [] = Perm.refl sorted
  sort_into-perm sorted (cur ∷ rest) =
      Perm.trans (sort_into-perm (insert before after cur sorted) rest)
        (Perm.trans (Perm.append_left rest (insert-perm cur sorted)) (perm_middle rest sorted))

  pub sort-perm : (xs : List A) → Perm (sort before after xs) xs
  unfolding sort
  sort-perm xs = rw (append-nil xs) at (sort_into-perm [] xs)

  module _ (w : A → ℕ) where
    walk-total : (cur : A) (xs : List A) → total w (walk before after cur xs) ≡ w cur + total w xs
    unfolding walk
    walk-total cur [] = refl
    walk-total cur (n ∷ rest) = ground (arith, walk-total cur rest)

    insert-total :
        (cur : A) (xs : List A) → total w (insert before after cur xs) ≡ w cur + total w xs
    unfolding insert
    insert-total cur [] = refl
    insert-total cur (h ∷ rest) = ground (arith, walk-total cur rest)

    sort_into-total :
        (sorted xs : List A)
        → total w (sort_into before after sorted xs) ≡ total w sorted + total w xs
    unfolding sort_into
    sort_into-total sorted [] = omega arith
    sort_into-total sorted (cur ∷ rest) =
        omega
          (arith, sort_into-total (insert before after cur sorted) rest, insert-total cur sorted)

    -- A sum over the list is the same sum after sorting.
    pub total-sort : (xs : List A) → total w (sort before after xs) ≡ total w xs
    unfolding sort
    total-sort xs = omega (arith, sort_into-total [] xs)

-- Nothing later in the list belongs in front of anything earlier.
abbrev pub IsOrdered {ℓ} : {A : Type ℓ} → (A → A → Bool) → List A → Type 0
IsOrdered before [] = Unit
IsOrdered before (x ∷ xs) = All (λ y. before y x ≡ false) xs × IsOrdered before xs

-- What the two tests must satisfy: the second is the failure of the first with the arguments
-- swapped, and the failure of the first is transitive.
pub record IsTest {ℓ} {A : Type ℓ} (before after : A → A → Bool) : Type ℓ where
  pub after_eq : (n c : A) → after n c ≡ not (before c n)
  pub asym : (x y : A) → before x y ≡ true → before y x ≡ false
  pub trans : (x y z : A) → before y x ≡ false → before z y ≡ false → before z x ≡ false

module _ {ℓ} {A : Type ℓ} (before after : A → A → Bool) (test : IsTest before after) where
  All-trans :
      (x y : A) (xs : List A)
      → before y x ≡ false
      → All (λ z. before z y ≡ false) xs
      → All (λ z. before z x ≡ false) xs
  All-trans x y [] h all = tt
  All-trans x y (z ∷ xs) h all = (test.trans x y z h all.0, All-trans x y xs h all.1)

  walk-All :
      (x cur : A) (xs : List A)
      → before cur x ≡ false
      → All (λ z. before z x ≡ false) xs
      → All (λ z. before z x ≡ false) (walk before after cur xs)
  unfolding walk
  walk-All x cur [] h all = (h, tt)
  walk-All x cur (n ∷ rest) h all = elim (Bool-cases (after n cur)) [
    | inl e ↦ rw e (all.0, walk-All x cur rest h all.1)
    | inr e ↦ rw e (h, all)
  ]

  walk-IsOrdered :
      (cur : A) (xs : List A) → IsOrdered before xs → IsOrdered before (walk before after cur xs)
  unfolding walk
  walk-IsOrdered cur [] o = (tt, tt)
  walk-IsOrdered cur (n ∷ rest) o = elim (Bool-cases (before cur n)) [
    | inl e ↦
        rw (test.after_eq n cur, e)
          ((test.asym cur n e, All-trans cur n rest (test.asym cur n e) o.0), o)
    | inr e ↦ rw (test.after_eq n cur, e) (walk-All n cur rest e o.0, walk-IsOrdered cur rest o.1)
  ]

  insert-IsOrdered :
      (cur : A) (xs : List A) → IsOrdered before xs → IsOrdered before (insert before after cur xs)
  unfolding insert
  insert-IsOrdered cur [] o = (tt, tt)
  insert-IsOrdered cur (h ∷ rest) o = elim (Bool-cases (before cur h)) [
    | inl e ↦ rw e ((test.asym cur h e, All-trans cur h rest (test.asym cur h e) o.0), o)
    | inr e ↦ rw e (walk-All h cur rest e o.0, walk-IsOrdered cur rest o.1)
  ]

  sort_into-IsOrdered :
      (sorted xs : List A)
      → IsOrdered before sorted
      → IsOrdered before (sort_into before after sorted xs)
  unfolding sort_into
  sort_into-IsOrdered sorted [] o = o
  sort_into-IsOrdered sorted (cur ∷ rest) o =
      sort_into-IsOrdered (insert before after cur sorted) rest (insert-IsOrdered cur sorted o)

  pub sort-IsOrdered : (xs : List A) → IsOrdered before (sort before after xs)
  unfolding sort
  sort-IsOrdered xs = sort_into-IsOrdered [] xs tt
