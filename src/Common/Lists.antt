-- ===== src/Common/Lists.antt =====
-- Lists measured and indexed by native numbers, and the copying of a run of items within a list.
use Prim.Native.Nat.{ℕ, zero, suc, ◌+◌, ◌-◌, ◌*◌, ◌≤◌, ◌<◌, min}
use mathlib.Core.Path.{◌≡◌, refl, ap, sym, ◌∙◌}
use mathlib.Core.List.{List, [], ◌∷◌, ◌++◌, reverse, reverse-cons, flatten, append_assoc}
use mathlib.Core.Option.{Option, none, some}
use native.Mathlib.Omega.{arith}

module _ {ℓ} {A : Type ℓ} where
  abbrev pub length : List A → ℕ
  length [] = 0
  length (x ∷ xs) = suc (length xs)

  abbrev pub get_elem? : List A → ℕ → Option A
  get_elem? [] i = none
  get_elem? (x ∷ xs) zero = some x
  get_elem? (x ∷ xs) (suc i) = get_elem? xs i

  -- A write out of bounds changes nothing.
  abbrev pub set : List A → ℕ → A → List A
  set [] i v = []
  set (x ∷ xs) zero v = v ∷ xs
  set (x ∷ xs) (suc i) v = x ∷ set xs i v

  abbrev pub take : ℕ → List A → List A
  take zero xs = []
  take (suc n) [] = []
  take (suc n) (x ∷ xs) = x ∷ take n xs

  abbrev pub drop : ℕ → List A → List A
  drop zero xs = xs
  drop (suc n) [] = []
  drop (suc n) (x ∷ xs) = drop n xs

  abbrev pub replicate : ℕ → A → List A
  replicate zero a = []
  replicate (suc n) a = a ∷ replicate n a

  abbrev pub All {κ} : (A → Type κ) → List A → Type κ
  All P [] = Unit {κ}
  All P (x ∷ xs) = P x × All P xs

  -- `memcpy(mem + i, xs, length xs)`: what falls behind the end is lost.
  abbrev pub overwrite : ℕ → List A → List A → List A
  overwrite zero [] mem = mem
  overwrite zero (x ∷ xs) [] = []
  overwrite zero (x ∷ xs) (m ∷ mem) = x ∷ overwrite zero xs mem
  overwrite (suc i) xs [] = []
  overwrite (suc i) xs (m ∷ mem) = m ∷ overwrite i xs mem

  -- `memcpy(xs, mem + i, n)`.
  abbrev pub slice : ℕ → ℕ → List A → List A
  slice i n mem = take n (drop i mem)

module _ {ℓ} {A : Type ℓ} where
  pub length-append : (xs ys : List A) → length (xs ++ ys) ≡ length xs + length ys
  length-append [] ys = omega arith
  length-append (x ∷ xs) ys = omega (arith, length-append xs ys)

  pub length-take : (n : ℕ) (xs : List A) → length (take n xs) ≡ min n (length xs)
  length-take zero xs = omega arith
  length-take (suc n) [] = omega arith
  length-take (suc n) (x ∷ xs) = omega (arith, length-take n xs)

  pub length-drop : (n : ℕ) (xs : List A) → length (drop n xs) ≡ length xs - n
  length-drop zero xs = omega arith
  length-drop (suc n) [] = omega arith
  length-drop (suc n) (x ∷ xs) = omega (arith, length-drop n xs)

  pub length-replicate : (n : ℕ) (a : A) → length (replicate n a) ≡ n
  length-replicate zero a = refl
  length-replicate (suc n) a = ap suc (length-replicate n a)

  pub length-overwrite : (i : ℕ) (xs mem : List A) → length (overwrite i xs mem) ≡ length mem
  length-overwrite zero [] mem = refl
  length-overwrite zero (x ∷ xs) [] = refl
  length-overwrite zero (x ∷ xs) (m ∷ mem) = ap suc (length-overwrite zero xs mem)
  length-overwrite (suc i) xs [] = refl
  length-overwrite (suc i) xs (m ∷ mem) = ap suc (length-overwrite i xs mem)

  pub overwrite-nil : (i : ℕ) (mem : List A) → overwrite i [] mem ≡ mem
  overwrite-nil zero mem = refl
  overwrite-nil (suc i) [] = refl
  overwrite-nil (suc i) (m ∷ mem) = ap (◌∷◌ m) (overwrite-nil i mem)

  pub take-append-drop : (n : ℕ) (xs : List A) → take n xs ++ drop n xs ≡ xs
  take-append-drop zero xs = refl
  take-append-drop (suc n) [] = refl
  take-append-drop (suc n) (x ∷ xs) = rw (take-append-drop n xs)

  pub length-reverse : (xs : List A) → length (reverse xs) ≡ length xs
  length-reverse [] = refl
  length-reverse (x ∷ xs) =
      omega (
        arith,
        ap length (reverse-cons x xs),
        length-append (reverse xs) (x ∷ []),
        length-reverse xs,
      )

  pub take_all : (xs : List A) → take (length xs) xs ≡ xs
  take_all [] = refl
  take_all (x ∷ xs) = ap (◌∷◌ x) (take_all xs)

  -- A run that crosses the boundary of two memories is written to both.
  pub overwrite-append :
      (i : ℕ) (xs ys mem rest : List A)
      → i + length xs ≡ length mem
      → overwrite i (xs ++ ys) (mem ++ rest) ≡ overwrite i xs mem ++ overwrite zero ys rest
  overwrite-append zero [] ys [] rest h = refl
  overwrite-append zero [] ys (m ∷ mem) rest h = absurd (omega arith)
  overwrite-append zero (x ∷ xs) ys [] rest h = absurd (omega arith)
  overwrite-append zero (x ∷ xs) ys (m ∷ mem) rest h =
      ap (◌∷◌ x) (overwrite-append zero xs ys mem rest (omega arith))
  overwrite-append (suc i) xs ys [] rest h = absurd (omega arith)
  overwrite-append (suc i) xs ys (m ∷ mem) rest h =
      ap (◌∷◌ m) (overwrite-append i xs ys mem rest (omega arith))

  pub overwrite-append_left :
      (i : ℕ) (xs mem rest : List A)
      → i + length xs ≤ length mem
      → overwrite i xs (mem ++ rest) ≡ overwrite i xs mem ++ rest
  overwrite-append_left zero [] mem rest h = refl
  overwrite-append_left zero (x ∷ xs) [] rest h = absurd (omega arith)
  overwrite-append_left zero (x ∷ xs) (m ∷ mem) rest h =
      ap (◌∷◌ x) (overwrite-append_left zero xs mem rest (omega arith))
  overwrite-append_left (suc i) xs [] rest h = absurd (omega arith)
  overwrite-append_left (suc i) xs (m ∷ mem) rest h =
      ap (◌∷◌ m) (overwrite-append_left i xs mem rest (omega arith))

  pub overwrite-append_right :
      (i : ℕ) (xs front mem : List A)
      → overwrite (length front + i) xs (front ++ mem) ≡ front ++ overwrite i xs mem
  overwrite-append_right i xs [] mem = ap (λ k. overwrite k xs mem) (omega arith)
  overwrite-append_right i xs (f ∷ front) mem =
      let e : suc (length front) + i ≡ suc (length front + i) = omega arith in
      rw e (ap (◌∷◌ f) (overwrite-append_right i xs front mem))

  -- Two runs, one behind the other, are one run.
  pub overwrite-overwrite :
      (i : ℕ) (xs ys mem : List A)
      → overwrite (i + length xs) ys (overwrite i xs mem) ≡ overwrite i (xs ++ ys) mem
  overwrite-overwrite zero [] ys mem = refl
  overwrite-overwrite zero (x ∷ xs) ys [] =
      let e : 0 + suc (length xs) ≡ suc (length xs) = omega arith in rw e
  overwrite-overwrite zero (x ∷ xs) ys (m ∷ mem) =
      let e : 0 + suc (length xs) ≡ suc (0 + length xs) = omega arith in
      rw e (ap (◌∷◌ x) (overwrite-overwrite zero xs ys mem))
  overwrite-overwrite (suc i) xs ys [] =
      let e : suc i + length xs ≡ suc (i + length xs) = omega arith in rw e
  overwrite-overwrite (suc i) xs ys (m ∷ mem) =
      let e : suc i + length xs ≡ suc (i + length xs) = omega arith in
      rw e (ap (◌∷◌ m) (overwrite-overwrite i xs ys mem))

  -- A slice of a slice.
  pub take-append : (xs ys : List A) → take (length xs) (xs ++ ys) ≡ xs
  take-append [] ys = refl
  take-append (x ∷ xs) ys = ap (◌∷◌ x) (take-append xs ys)

  pub drop-append : (xs ys : List A) → drop (length xs) (xs ++ ys) ≡ ys
  drop-append [] ys = refl
  drop-append (x ∷ xs) ys = drop-append xs ys

  take-nil : (n : ℕ) → take n (let e : List A = [] in e) ≡ []
  take-nil zero = refl
  take-nil (suc n) = refl

  drop-nil : (n : ℕ) → drop n (let e : List A = [] in e) ≡ []
  drop-nil zero = refl
  drop-nil (suc n) = refl

  pub slice-split :
      (i m n : ℕ) (mem : List A) → slice i (m + n) mem ≡ slice i m mem ++ slice (i + m) n mem
  slice-split zero zero n mem = let e : 0 + n ≡ n = omega arith in rw e
  slice-split zero (suc m) n [] = simp (take-nil, drop-nil)
  slice-split zero (suc m) n (x ∷ mem) =
      let e : suc m + n ≡ suc (m + n) = omega arith in
      let f : 0 + suc m ≡ suc (0 + m) = omega arith in
      rw (e, f) (ap (◌∷◌ x) (slice-split zero m n mem))
  slice-split (suc i) m n [] = simp (take-nil, drop-nil)
  slice-split (suc i) m n (x ∷ mem) =
      let f : suc i + m ≡ suc (i + m) = omega arith in rw f (slice-split i m n mem)

  -- Two appended lists that are equal are equal part by part, where they are cut alike.
  pub append-injective :
      (xs ys us vs : List A) → length xs ≡ length us → xs ++ ys ≡ us ++ vs → (xs ≡ us) × (ys ≡ vs)
  append-injective xs ys us vs l e = (
    sym (take-append xs ys)
        ∙ ap (take (length xs)) e
        ∙ ap (λ n. take n (us ++ vs)) l
        ∙ take-append us vs,
    sym (drop-append xs ys)
        ∙ ap (drop (length xs)) e
        ∙ ap (λ n. drop n (us ++ vs)) l
        ∙ drop-append us vs,
  )

  pub slice-overwrite :
      (i : ℕ) (xs mem : List A)
      → i + length xs ≤ length mem
      → slice i (length xs) (overwrite i xs mem) ≡ xs
  slice-overwrite zero [] mem h = refl
  slice-overwrite zero (x ∷ xs) [] h = absurd (omega arith)
  slice-overwrite zero (x ∷ xs) (m ∷ mem) h = ap (◌∷◌ x) (slice-overwrite zero xs mem (omega arith))
  slice-overwrite (suc i) xs [] h = absurd (omega arith)
  slice-overwrite (suc i) xs (m ∷ mem) h = slice-overwrite i xs mem (omega arith)

  -- Bytes outside the run are left as they were.
  pub slice-overwrite_before :
      (j n i : ℕ) (xs mem : List A) → j + n ≤ i → slice j n (overwrite i xs mem) ≡ slice j n mem
  slice-overwrite_before zero zero i xs mem h = refl
  slice-overwrite_before zero (suc n) zero xs mem h = absurd (omega arith)
  slice-overwrite_before zero (suc n) (suc i) xs [] h = refl
  slice-overwrite_before zero (suc n) (suc i) xs (m ∷ mem) h =
      ap (◌∷◌ m) (slice-overwrite_before zero n i xs mem (omega arith))
  slice-overwrite_before (suc j) n zero xs mem h = absurd (omega arith)
  slice-overwrite_before (suc j) n (suc i) xs [] h = refl
  slice-overwrite_before (suc j) n (suc i) xs (m ∷ mem) h =
      slice-overwrite_before j n i xs mem (omega arith)

  pub slice-append_left :
      (i n : ℕ) (mem rest : List A) → i + n ≤ length mem → slice i n (mem ++ rest) ≡ slice i n mem
  slice-append_left zero zero mem rest h = refl
  slice-append_left zero (suc n) [] rest h = absurd (omega arith)
  slice-append_left zero (suc n) (m ∷ mem) rest h =
      ap (◌∷◌ m) (slice-append_left zero n mem rest (omega arith))
  slice-append_left (suc i) n [] rest h = absurd (omega arith)
  slice-append_left (suc i) n (m ∷ mem) rest h = slice-append_left i n mem rest (omega arith)

  pub slice-append :
      (i n k : ℕ) (mem rest : List A)
      → i + n ≡ length mem
      → slice i (n + k) (mem ++ rest) ≡ slice i n mem ++ slice zero k rest
  slice-append zero zero k [] rest h = ap (λ t. take t rest) (omega arith)
  slice-append zero zero k (m ∷ mem) rest h = absurd (omega arith)
  slice-append zero (suc n) k [] rest h = absurd (omega arith)
  slice-append zero (suc n) k (m ∷ mem) rest h =
      let e : suc n + k ≡ suc (n + k) = omega arith in
      rw e (ap (◌∷◌ m) (slice-append zero n k mem rest (omega arith)))
  slice-append (suc i) n k [] rest h = absurd (omega arith)
  slice-append (suc i) n k (m ∷ mem) rest h = slice-append i n k mem rest (omega arith)

  pub slice-append_right :
      (i n : ℕ) (front mem : List A) → slice (length front + i) n (front ++ mem) ≡ slice i n mem
  slice-append_right i n [] mem = ap (λ k. slice k n mem) (omega arith)
  slice-append_right i n (f ∷ front) mem =
      let e : suc (length front) + i ≡ suc (length front + i) = omega arith in
      rw e (slice-append_right i n front mem)

  pub length-slice : (i n : ℕ) (mem : List A) → i + n ≤ length mem → length (slice i n mem) ≡ n
  length-slice i n mem h = omega (arith, length-take n (drop i mem), length-drop i mem)

  -- An index splits its list.
  pub get_elem?-append : (xs ys : List A) (x : A) → get_elem? (xs ++ x ∷ ys) (length xs) ≡ some x
  get_elem?-append [] ys x = refl
  get_elem?-append (z ∷ xs) ys x = get_elem?-append xs ys x

  pub set-append : (xs ys : List A) (x v : A) → set (xs ++ x ∷ ys) (length xs) v ≡ xs ++ v ∷ ys
  set-append [] ys x v = refl
  set-append (z ∷ xs) ys x v = ap (◌∷◌ z) (set-append xs ys x v)

  pub split_at :
      (i : ℕ) (xs : List A)
      → i < length xs
      → (front : List A) × (x : A) × (back : List A) × (xs ≡ front ++ x ∷ back) × (length front ≡ i)
  split_at i [] h = absurd (omega arith)
  split_at zero (x ∷ xs) h = ([], x, xs, refl, refl)
  split_at (suc i) (x ∷ xs) h =
      let (front, y, back, e, l) = split_at i xs (omega arith) in
      (x ∷ front, y, back, ap (◌∷◌ x) e, ap suc l)

module _ {ℓ} {A : Type ℓ} where
  pub replicate-add : (m n : ℕ) (a : A) → replicate (m + n) a ≡ replicate m a ++ replicate n a
  replicate-add zero n a = let e : 0 + n ≡ n = omega arith in rw e
  replicate-add (suc m) n a =
      let e : suc m + n ≡ suc (m + n) = omega arith in rw e (ap (◌∷◌ a) (replicate-add m n a))

module _ {ℓ κ} {A : Type ℓ} (P : A → Type κ) where
  pub All-append : (xs ys : List A) → All P xs → All P ys → All P (xs ++ ys)
  All-append [] ys p q = q
  All-append (x ∷ xs) ys p q = (p.0, All-append xs ys p.1 q)

  pub All-left : (xs ys : List A) → All P (xs ++ ys) → All P xs
  All-left [] ys p = tt
  All-left (x ∷ xs) ys p = (p.0, All-left xs ys p.1)

  pub All-right : (xs ys : List A) → All P (xs ++ ys) → All P ys
  All-right [] ys p = p
  All-right (x ∷ xs) ys p = All-right xs ys p.1

  pub All-replicate : (n : ℕ) (x : A) → P x → All P (replicate n x)
  All-replicate zero x p = tt
  All-replicate (suc n) x p = (p, All-replicate n x p)

module _ {ℓ} {A : Type ℓ} where
  pub flatten-append : (xs ys : List (List A)) → flatten (xs ++ ys) ≡ flatten xs ++ flatten ys
  unfolding flatten
  flatten-append [] ys = refl
  flatten-append (x ∷ xs) ys = rw (flatten-append xs ys, append_assoc)

  pub length-flatten :
      (n : ℕ) (xs : List (List A))
      → All (λ x. length x ≡ n) xs
      → length (flatten xs) ≡ length xs * n
  unfolding flatten
  length-flatten n [] p = omega arith
  length-flatten n (x ∷ xs) p =
      omega (arith, length-append x (flatten xs), length-flatten n xs p.1, p.0)
