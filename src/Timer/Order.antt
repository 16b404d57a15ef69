-- ===== src/Timer/Order.antt =====
-- The order of the set of timers, and what insertion and removal keep of it.
use cczoecpp.Common.{
  ℕ, ◌≡◌, ◌≢◌, refl, List, [], ◌∷◌, true, false, All, arith, some, Bool-cases, inl, inr, ◌⊎◌, subst,
  sym, ◌∙◌,
}
use cczoecpp.Timer.{Timer, less, put, insert, erase}

abbrev pub Sorted : (ℕ → Timer) → List ℕ → Type 0
Sorted store [] = Unit
Sorted store (x ∷ l) = All (λ y. less store x y ≡ true) l × Sorted store l

pub less_trans :
    (store : ℕ → Timer) (x y z : ℕ)
    → less store x y ≡ true
    → less store y z ≡ true
    → less store x z ≡ true
less_trans store x y z h k = ground arith

pub less_total :
    (store : ℕ → Timer) (x y : ℕ) → less store x y ≡ false → less store y x ≡ false → x ≡ y
less_total store x y h k = ground arith

All-less_trans :
    (store : ℕ → Timer) (x y : ℕ) (l : List ℕ)
    → less store x y ≡ true
    → All (λ z. less store y z ≡ true) l
    → All (λ z. less store x z ≡ true) l
All-less_trans store x y [] h all = tt
All-less_trans store x y (z ∷ l) h (k, all) =
    (less_trans store x y z h k, All-less_trans store x y l h all)

pub All-insert :
    (P : ℕ → Type 0) (store : ℕ → Timer) (x : ℕ) (l : List ℕ)
    → P x
    → All P l
    → All P (insert store x l)
unfolding insert
All-insert P store x [] p all = (p, tt)
All-insert P store x (y ∷ l) p (q, all) = elim (Bool-cases (less store x y)) [
  | inl h ↦ rw h (p, (q, all))
  | inr h ↦ elim (Bool-cases (less store y x)) [
    | inl k ↦ rw (h, k) (q, All-insert P store x l p all)
    | inr k ↦ rw (h, k) (q, all)
  ]
]

pub insert-Sorted :
    (store : ℕ → Timer) (x : ℕ) (l : List ℕ) → Sorted store l → Sorted store (insert store x l)
unfolding insert
insert-Sorted store x [] sorted = (tt, tt)
insert-Sorted store x (y ∷ l) (above, sorted) = elim (Bool-cases (less store x y)) [
  | inl h ↦ rw h ((h, All-less_trans store x y l h above), (above, sorted))
  | inr h ↦ elim (Bool-cases (less store y x)) [
    | inl k ↦ rw (h, k) (All-insert _ store x l k above, insert-Sorted store x l sorted)
    | inr k ↦ rw (h, k) (above, sorted)
  ]
]

less-put :
    (store : ℕ → Timer) (x : ℕ) (t : Timer) (y z : ℕ)
    → y ≢ x
    → z ≢ x
    → less store y z ≡ true
    → less (put x t store) y z ≡ true
less-put store x t y z h k below = ground arith

All-less-put :
    (store : ℕ → Timer) (x : ℕ) (t : Timer) (y : ℕ) (l : List ℕ)
    → y ≢ x
    → All (λ z. z ≢ x) l
    → All (λ z. less store y z ≡ true) l
    → All (λ z. less (put x t store) y z ≡ true) l
All-less-put store x t y [] h all below = tt
All-less-put store x t y (z ∷ l) h (k, all) (b, below) =
    (less-put store x t y z h k b, All-less-put store x t y l h all below)

-- A change of a timer that is not in the set.
pub Sorted-put :
    (store : ℕ → Timer) (x : ℕ) (t : Timer) (l : List ℕ)
    → All (λ z. z ≢ x) l
    → Sorted store l
    → Sorted (put x t store) l
Sorted-put store x t [] all sorted = tt
Sorted-put store x t (y ∷ l) (h, all) (above, sorted) =
    (All-less-put store x t y l h all above, Sorted-put store x t l all sorted)

not_less_self : (store : ℕ → Timer) (x : ℕ) → less store x x ≡ false
not_less_self store x = ground arith

pub less-≢ : (store : ℕ → Timer) (x y : ℕ) → less store x y ≡ true → y ≢ x
less-≢ store x y h = ground arith

pub All-distinct :
    (store : ℕ → Timer) (x : ℕ) (l : List ℕ)
    → All (λ y. less store x y ≡ true) l
    → All (λ y. y ≢ x) l
All-distinct store x [] all = tt
All-distinct store x (y ∷ l) (h, all) = (less-≢ store x y h, All-distinct store x l all)

abbrev pub In : ℕ → List ℕ → Type 0
In x [] = ⊥
In x (y ∷ l) = (y ≡ x) ⊎ In x l

pub All-In : (P : ℕ → Type 0) (x : ℕ) (l : List ℕ) → All P l → In x l → P x
All-In P x [] all h = elim h [ ]
All-In P x (y ∷ l) (p, all) (inl e) = subst P e p
All-In P x (y ∷ l) (p, all) (inr h) = All-In P x l all h

-- A timer that is in the set is found, and it alone is erased.
pub record Erased (store : ℕ → Timer) (x : ℕ) (l left : List ℕ) : Type 1 where
  pub found : erase store x l ≡ some left
  pub sorted : Sorted store left
  pub gone : All (λ y. y ≢ x) left
  pub others : (y : ℕ) → y ≢ x → In y l → In y left
  pub only : (P : ℕ → Type 0) → All P l → All P left

pub erase_lem :
    (store : ℕ → Timer) (x : ℕ) (l : List ℕ)
    → Sorted store l
    → In x l
    → (left : List ℕ) × Erased store x l left
unfolding erase
erase_lem store x [] sorted h = elim h [ ]
erase_lem store x (y ∷ l) (above, sorted) (inl e) = (
  l,
  record {
    found = subst (λ z. erase store z (y ∷ l) ≡ some l) e (ground (arith, not_less_self store y));
    sorted = sorted;
    gone = subst (λ z. All (λ w. w ≢ z) l) e (All-distinct store y l above);
    others = λ z h m. other z h m;
    only = λ P all. all.1;
  },
)
  where
    other : (z : ℕ) → z ≢ x → In z (y ∷ l) → In z l
    other z h (inl k) = absurd (h (sym k ∙ e))
    other z h (inr k) = k
erase_lem store x (y ∷ l) (above, sorted) (inr h) =
    let (left, k) = erase_lem store x l sorted h in
    let below = All-In _ x l above h in
    (
      y ∷ left,
      record {
        found = rw (below, k.found) refl;
        sorted = (k.only _ above, k.sorted);
        gone = (λ e. less-≢ store y x below (sym e), k.gone);
        others = λ z n m. other left k z n m;
        only = λ P all. (all.0, k.only P all.1);
      },
    )
  where
    other :
        (left : List ℕ) → Erased store x l left → (z : ℕ) → z ≢ x → In z (y ∷ l) → In z (y ∷ left)
    other left k z n (inl e) = inl e
    other left k z n (inr m) = inr (k.others z n m)

-- A timer that is inserted is in the set, with those that were there and no others.
pub In-insert : (store : ℕ → Timer) (x : ℕ) (l : List ℕ) → In x (insert store x l)
unfolding insert
In-insert store x [] = inl refl
In-insert store x (y ∷ l) = elim (Bool-cases (less store x y)) [
  | inl h ↦ rw h (inl refl)
  | inr h ↦ elim (Bool-cases (less store y x)) [
    | inl k ↦ rw (h, k) (inr (In-insert store x l))
    | inr k ↦ rw (h, k) (inl (less_total store y x k h))
  ]
]

pub In-insert_old : (store : ℕ → Timer) (x y : ℕ) (l : List ℕ) → In y l → In y (insert store x l)
unfolding insert
In-insert_old store x y [] m = inr m
In-insert_old store x y (z ∷ l) m = elim (Bool-cases (less store x z)) [
  | inl h ↦ rw h (inr m)
  | inr h ↦ elim (Bool-cases (less store z x)) [
    | inl k ↦ rw (h, k) (elim m [ inl e ↦ inl e | inr n ↦ inr (In-insert_old store x y l n) ])
    | inr k ↦ rw (h, k) m
  ]
]
