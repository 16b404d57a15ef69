-- ===== src/Address/Order.antt =====
-- The order of addresses: the lexicographic one of the bytes that their length covers.
use Prim.Native.Nat.{Ordering}
use cczoecpp.Common.{
  ℕ, ◌≤◌, ◌≡◌, refl, ap, sym, ◌∙◌, List, length, take, length-take, Bool, true, false, not, ◌==◌,
  arith, Bool-cases, ◌≢◌, ◌↔◌, ◌⊎◌, inl, inr,
}
use cczoecpp.Common.Text.{
  compare_bytes, compare_bytes_self, compare_bytes_eq, compare_bytes-flip, compare_bytes_trans,
  flip, compare_bytes_prefix,
}
use cczoecpp.Address.{Address, get_addr, get_addr_len, less, equal, differs, is_zero}

-- The length stays within the structure.
abbrev pub HasLength : Address → Type 0
HasLength a = get_addr_len a ≤ length (get_addr a)

abbrev pub visible : Address → List ℕ
visible a = take (get_addr_len a) (get_addr a)

abbrev pub is_less : Ordering → Bool
is_less Ordering.lt = true
is_less Ordering.eq = false
is_less Ordering.gt = false

module _ (a b : Address) (h : HasLength a) (k : HasLength b) where
  less-compare : less a b ≡ is_less (compare_bytes (visible a) (visible b))
  unfolding less
  less-compare =
      rw (compare_bytes_prefix (get_addr_len a) (get_addr_len b) (get_addr a) (get_addr b) h k)
        (ground arith)

  equal-compare : equal a b ≡ is_zero (compare_bytes (visible a) (visible b))
  unfolding equal
  equal-compare = elim (Bool-cases (get_addr_len a == get_addr_len b)) [
    | inl e ↦
        let n : get_addr_len a ≡ get_addr_len b = ground arith in
        rw (e, equal) (ap (λ m. is_zero (compare_bytes (visible a) (take m (get_addr b)))) n)
    | inr e ↦
        rw (e, equal) (sym (not_zero (compare_bytes (visible a) (visible b)) refl (ground arith)))
  ]
    where
      same_length :
          compare_bytes (visible a) (visible b) ≡ Ordering.eq → get_addr_len a ≡ get_addr_len b
      same_length e = omega (
        arith,
        ap length (compare_bytes_eq (visible a) (visible b) e),
        length-take (get_addr_len a) (get_addr a),
        length-take (get_addr_len b) (get_addr b),
      )

      not_zero :
          (o : Ordering)
          → compare_bytes (visible a) (visible b) ≡ o
          → get_addr_len a ≢ get_addr_len b
          → is_zero o ≡ false
      not_zero Ordering.lt e n = refl
      not_zero Ordering.eq e n = absurd (n (same_length e))
      not_zero Ordering.gt e n = refl

-- Where the lengths stay within the structures, `operator<` and `operator==` are the lexicographic
-- order and the equality of the bytes that the lengths cover, and `operator!=` is its negation.
pub less_refines :
    (a b : Address)
    → HasLength a
    → HasLength b
    → (less a b ≡ is_less (compare_bytes (visible a) (visible b)))
      × ((equal a b ≡ true) ↔ (visible a ≡ visible b))
      × (differs a b ≡ not (equal a b))
unfolding differs
less_refines a b h k = (
  less-compare a b h k,
  (
    λ e. compare_bytes_eq (visible a) (visible b) (ground (arith, equal-compare a b h k)),
    λ e.
        equal-compare a b h k
        ∙ ap is_zero (ap (compare_bytes (visible a)) (sym e) ∙ compare_bytes_self (visible a)),
  ),
  refl,
)

-- Exactly one of three holds: an address is less than the other, is equal to it, or is greater.
abbrev pub ExactlyOne : Bool → Bool → Bool → Type 0
ExactlyOne p q r =
    ((p ≡ true) × (q ≡ false) × (r ≡ false))
    ⊎ ((p ≡ false) × (q ≡ true) × (r ≡ false))
    ⊎ ((p ≡ false) × (q ≡ false) × (r ≡ true))

one_of : (o : Ordering) → ExactlyOne (is_less o) (is_zero o) (is_less (flip o))
one_of Ordering.lt = inl (refl, refl, refl)
one_of Ordering.eq = inr (inl (refl, refl, refl))
one_of Ordering.gt = inr (inr (refl, refl, refl))

-- Where the lengths stay within the structures, exactly one of these holds of two addresses: the first
-- is less, they are equal, the second is less.
pub less_trichotomy :
    (a b : Address) → HasLength a → HasLength b → ExactlyOne (less a b) (equal a b) (less b a)
less_trichotomy a b h k =
    rw
      (
        less-compare a b h k,
        equal-compare a b h k,
        less-compare b a k h,
        compare_bytes-flip (visible a) (visible b),
      )
      (one_of (compare_bytes (visible a) (visible b)))

is_less_lem : (o : Ordering) → is_less o ≡ true → o ≡ Ordering.lt
is_less_lem Ordering.lt h = refl
is_less_lem Ordering.eq h = ground arith
is_less_lem Ordering.gt h = ground arith

-- Where the lengths stay within the structures, an address below one that is below a third is below
-- the third.
pub less_trans :
    (a b c : Address)
    → HasLength a
    → HasLength b
    → HasLength c
    → less a b ≡ true
    → less b c ≡ true
    → less a c ≡ true
less_trans a b c h k l x y =
    less-compare a c h l
    ∙ ap is_less (
        compare_bytes_trans (visible a) (visible b) (visible c)
          (is_less_lem _ (sym (less-compare a b h k) ∙ x))
          (is_less_lem _ (sym (less-compare b c k l) ∙ y)))
