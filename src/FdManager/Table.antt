-- ===== src/FdManager/Table.antt =====
-- The table of descriptors as a partial map: what `set`, `get` and `del` do to it.
use cczoecpp.Common.{
  ℕ, zero, suc, ◌-◌, ◌*◌, ◌/◌, ◌≤◌, ◌<◌, ◌≡◌, ◌≢◌, refl, ap, ◌∙◌, Option, none, some, [], ◌∷◌, ◌++◌,
  Bool, true, false, leb, ltb, length, get_elem?, set, take, replicate, length-append,
  length-replicate, arith, Bool-cases, inl, inr,
}
use cczoecpp.Common.Outcome.{done, fault}
use cczoecpp.FdManager.{FdCtx, FdManager, new_ctx, resize, set_fd, get_fd, del_fd}

-- The context of a descriptor, `none` where there is none.
abbrev pub lookup : FdManager → ℕ → Option FdCtx
lookup s fd = elim (get_elem? s fd) [ none ↦ none | some entry ↦ entry ]

lookup-set_self :
    (s : FdManager) (fd : ℕ) (e : Option FdCtx) → fd < length s → lookup (set s fd e) fd ≡ e
lookup-set_self [] fd e h = absurd (omega arith)
lookup-set_self (x ∷ s) zero e h = refl
lookup-set_self (x ∷ s) (suc fd) e h = lookup-set_self s fd e (omega arith)

lookup-set_other :
    (s : FdManager) (fd other : ℕ) (e : Option FdCtx)
    → other ≢ fd
    → lookup (set s fd e) other ≡ lookup s other
lookup-set_other [] fd other e h = refl
lookup-set_other (x ∷ s) zero zero e h = absurd (h refl)
lookup-set_other (x ∷ s) zero (suc other) e h = refl
lookup-set_other (x ∷ s) (suc fd) zero e h = refl
lookup-set_other (x ∷ s) (suc fd) (suc other) e h = lookup-set_other s fd other e (omega arith)

length-set : (s : FdManager) (fd : ℕ) (e : Option FdCtx) → length (set s fd e) ≡ length s
length-set [] fd e = refl
length-set (x ∷ s) zero e = refl
length-set (x ∷ s) (suc fd) e = ap suc (length-set s fd e)

take-short : (s : FdManager) (n : ℕ) → length s ≤ n → take n s ≡ s
take-short [] zero h = refl
take-short [] (suc n) h = refl
take-short (x ∷ s) zero h = absurd (omega arith)
take-short (x ∷ s) (suc n) h = ap (◌∷◌ x) (take-short s n (omega arith))

lookup-fresh : (s : FdManager) (n fd : ℕ) → lookup (s ++ replicate n none) fd ≡ lookup s fd
lookup-fresh [] zero fd = refl
lookup-fresh [] (suc n) zero = refl
lookup-fresh [] (suc n) (suc fd) = lookup-fresh [] n fd
lookup-fresh (x ∷ s) n zero = refl
lookup-fresh (x ∷ s) n (suc fd) = lookup-fresh s n fd

-- A larger table, with the same entries.
resize_lem :
    (size : ℕ) (s : FdManager)
    → length s ≤ size
    → (length (resize size s) ≡ size) × ((fd : ℕ) → lookup (resize size s) fd ≡ lookup s fd)
unfolding resize
resize_lem size s h = (
  omega (
    arith,
    ap length (take-short s size h),
    length-append (take size s) (replicate (size - length s) none),
    length-replicate {A = Option FdCtx} (size - length s) none,
  ),
  λ fd.
      lookup-fresh (take size s) (size - length s) fd ∙ ap (λ t. lookup t fd) (take-short s size h),
)

-- `set` makes a new context for the descriptor, in a table of at least two entries, and leaves the
-- others; the table never gets shorter, and its access is within it.
pub set_fd_lem :
    (stat : ℕ → Option Bool) (fd : ℕ) (s : FdManager)
    → 2 ≤ length s
    → (t : FdManager) × (set_fd stat fd s ≡ done (new_ctx fd (stat fd)) t)
      × (length s ≤ length t)
      × (fd < length t)
      × (lookup t fd ≡ some (new_ctx fd (stat fd)))
      × ((other : ℕ) → other ≢ fd → lookup t other ≡ lookup s other)
unfolding set_fd
set_fd_lem stat fd s h = elim (Bool-cases (leb (length s) fd)) [
  | inl k ↦
      (let behind : length s ≤ fd = ground arith in
        let (size, same) = resize_lem (fd * 3 / 2) s (omega arith) in
        let t = resize (fd * 3 / 2) s in
        let inside : fd < length t = omega (arith, size) in
        (
          set t fd (some (new_ctx fd (stat fd))),
          ground (arith, k, inside),
          omega (arith, length-set t fd (some (new_ctx fd (stat fd))), size),
          omega (arith, length-set t fd (some (new_ctx fd (stat fd))), inside),
          lookup-set_self t fd (some (new_ctx fd (stat fd))) inside,
          λ other n. lookup-set_other t fd other (some (new_ctx fd (stat fd))) n ∙ same other,
        ))
  | inr k ↦
      (let inside : fd < length s = ground arith in
        (
          set s fd (some (new_ctx fd (stat fd))),
          ground (arith, k, inside),
          omega (arith, length-set s fd (some (new_ctx fd (stat fd)))),
          omega (arith, length-set s fd (some (new_ctx fd (stat fd))), inside),
          lookup-set_self s fd (some (new_ctx fd (stat fd))) inside,
          λ other n. lookup-set_other s fd other (some (new_ctx fd (stat fd))) n,
        ))
]

-- `get` without creation returns the context of the descriptor, null if there is none, and changes
-- nothing; it is never out of bounds.
pub get_fd_lem :
    (stat : ℕ → Option Bool) (fd : ℕ) (s : FdManager)
    → get_fd stat fd false s ≡ done (lookup s fd) s
unfolding get_fd
get_fd_lem stat fd s = ground arith

-- `get` with creation reads out of bounds for every descriptor behind the end of the table.
pub get_fd_faults :
    (stat : ℕ → Option Bool) (fd : ℕ) (s : FdManager)
    → length s ≤ fd
    → get_fd stat fd true s ≡ fault
unfolding get_fd
get_fd_faults stat fd s h = ground (arith, behind s fd h)
  where
    behind : (s : FdManager) (fd : ℕ) → length s ≤ fd → get_elem? s fd ≡ none
    behind [] fd h = refl
    behind (x ∷ s) zero h = absurd (omega arith)
    behind (x ∷ s) (suc fd) h = behind s fd (omega arith)

-- `del` clears the entry of the descriptor and no other.
pub del_fd_lem :
    (fd : ℕ) (s : FdManager)
    → (lookup (del_fd fd s) fd ≡ none)
      × ((other : ℕ) → other ≢ fd → lookup (del_fd fd s) other ≡ lookup s other)
unfolding del_fd
del_fd_lem fd s = elim (Bool-cases (ltb fd (length s))) [
  | inl k ↦
      rw k (lookup-set_self s fd none (ground arith), λ other n. lookup-set_other s fd other none n)
  | inr k ↦ rw k (behind s fd (ground arith), λ other n. refl)
]
  where
    behind : (s : FdManager) (fd : ℕ) → length s ≤ fd → lookup s fd ≡ none
    behind [] fd h = refl
    behind (x ∷ s) zero h = absurd (omega arith)
    behind (x ∷ s) (suc fd) h = behind s fd (omega arith)
