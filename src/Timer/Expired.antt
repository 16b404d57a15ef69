-- ===== src/Timer/Expired.antt =====
-- `getExpiredCb`: which timers it takes, what it returns of them and what it leaves in the set.
use cczoecpp.Common.{
  ◌+◌, ◌%◌, ◌^◌, none, ◌⊎◌, ℕ, ◌≤◌, ◌<◌, ◌≡◌, ◌≢◌, refl, sym, ap, ap₂, ◌∙◌, subst, List, [], ◌∷◌,
  ◌++◌, map, true, false, All, arith, ◌==◌, Bool-cases, inl, inr, All-left, All-right,
}
use cczoecpp.Common.Outcome.{done}
use cczoecpp.Timer.{
  Timer, Manager, less, put, insert, probe_timer, split_at_bound, split_equal, fire_one, fire,
  expired_and_later, get_expired_cb,
}
use cczoecpp.Timer.Order.{
  Sorted, insert-Sorted, Sorted-put, All-insert, All-distinct, In, In-insert, In-insert_old, All-In,
}

-- A set in order, with no lock held.
pub record IsValid (s : Manager) : Type 0 where
  pub sorted : Sorted s.store s.timers
  pub unlocked : s.locked ≡ false

later_than :
    (store : ℕ → Timer) (now x : ℕ) (l : List ℕ)
    → now ≤ (store x).next
    → All (λ y. less store x y ≡ true) l
    → All (λ y. now ≤ (store y).next) l
later_than store now x [] h all = tt
later_than store now x (y ∷ l) h (k, all) = (ground arith, later_than store now x l h all)

-- The two loops together split the set at `now`.
record Split (store : ℕ → Timer) (now : ℕ) (l : List ℕ) (parts : List ℕ × List ℕ) : Type 0 where
  whole : parts.0 ++ parts.1 ≡ l
  due : All (λ x. (store x).next ≤ now) parts.0
  later : All (λ x. now < (store x).next) parts.1

all_later :
    (store : ℕ → Timer) (now x : ℕ) (l : List ℕ)
    → now < (store x).next
    → All (λ y. less store x y ≡ true) l
    → All (λ y. now < (store y).next) l
all_later store now x [] h all = tt
all_later store now x (y ∷ l) h (k, all) = (ground arith, all_later store now x l h all)

split_equal_lem :
    (store : ℕ → Timer) (now : ℕ) (l : List ℕ)
    → Sorted store l
    → All (λ y. now ≤ (store y).next) l
    → Split store now l (split_equal store now l)
unfolding split_equal
split_equal_lem store now [] sorted all = record { whole = refl; due = tt; later = tt }
split_equal_lem store now (y ∷ l) (above, sorted) (h, all) =
    let rest = split_equal_lem store now l sorted all in
    elim (Bool-cases ((store y).next == now)) [
      | inl k ↦ rw k (record {
        whole = ap (◌∷◌ y) rest.whole;
        due = (ground arith, rest.due);
        later = rest.later;
      })
      | inr k ↦ rw k (record {
        whole = refl;
        due = tt;
        later = (ground arith, all_later store now y l (ground arith) above);
      })
    ]

expired_lem :
    (store : ℕ → Timer) (now probe : ℕ) (l : List ℕ)
    → Sorted store l
    → All (λ y. y ≢ probe) l
    → Split store now l (expired_and_later store now probe l)
unfolding expired_and_later split_at_bound
expired_lem store now probe [] sorted all = split_equal_lem store now [] tt tt
expired_lem store now probe (y ∷ l) (above, sorted) (h, all) =
    let rest = expired_lem store now probe l sorted all in
    elim (Bool-cases (less (put probe (probe_timer now) store) y probe)) [
      | inl k ↦ rw k (record {
        whole = ap (◌∷◌ y) rest.whole;
        due = (ground arith, rest.due);
        later = rest.later;
      })
      | inr k ↦ rw k (
          split_equal_lem store now (y ∷ l) (above, sorted)
            (ground arith, later_than store now y l (ground arith) above))
    ]

-- One timer fires: the set stays in order, with no timer of `rest` in it.
fire_one-Sorted :
    (now x : ℕ) (s : Manager)
    → All (λ y. y ≢ x) s.timers
    → Sorted s.store s.timers
    → Sorted (fire_one now x s).store (fire_one now x s).timers
unfolding fire_one
fire_one-Sorted now x s apart sorted = elim (Bool-cases (s.store x).recurring) [
  | inl h ↦
      rw (h, fire_one) (insert-Sorted _ x s.timers (Sorted-put s.store x _ s.timers apart sorted))
  | inr h ↦ rw (h, fire_one) (Sorted-put s.store x _ s.timers apart sorted)
]

fire_one-All :
    (P : ℕ → Type 0) (now x : ℕ) (s : Manager)
    → P x
    → All P s.timers
    → All P (fire_one now x s).timers
unfolding fire_one
fire_one-All P now x s p all = elim (Bool-cases (s.store x).recurring) [
  | inl h ↦ rw (h, fire_one) (All-insert P _ x s.timers p all)
  | inr h ↦ rw (h, fire_one) all
]

fire_one-store : (now x : ℕ) (s : Manager) (y : ℕ) → y ≢ x → (fire_one now x s).store y ≡ s.store y
unfolding fire_one
fire_one-store now x s y h = ground arith

fire_one-locked : (now x : ℕ) (s : Manager) → (fire_one now x s).locked ≡ s.locked
unfolding fire_one
fire_one-locked now x s = ground arith

-- No address twice.
Distinct : List ℕ → Type 0
Distinct [] = Unit
Distinct (x ∷ l) = All (λ y. y ≢ x) l × Distinct l

-- No address of the one list is in the other.
Apart : List ℕ → List ℕ → Type 0
Apart l timers = All (λ x. All (λ y. y ≢ x) timers) l

fire_one-Apart :
    (now x : ℕ) (l : List ℕ) (s : Manager)
    → All (λ y. y ≢ x) l
    → Apart l s.timers
    → Apart l (fire_one now x s).timers
unfolding Apart
fire_one-Apart now x [] s other apart = tt
fire_one-Apart now x (y ∷ l) s (h, other) (k, apart) =
    (fire_one-All (λ z. z ≢ y) now x s (λ e. h (sym e)) k, fire_one-Apart now x l s other apart)

same_cbs :
    (now x : ℕ) (l : List ℕ) (s : Manager)
    → All (λ y. y ≢ x) l
    → map (λ y. ((fire_one now x s).store y).cb) l ≡ map (λ y. (s.store y).cb) l
same_cbs now x [] s other = refl
same_cbs now x (y ∷ l) s (h, other) =
    ap₂ (λ (t : Timer) r. t.cb ∷ r) (fire_one-store now x s y h) (same_cbs now x l s other)

record Fired (now : ℕ) (l : List ℕ) (s : Manager) : Type 0 where
  returned : (fire now l s).0 ≡ map (λ x. (s.store x).cb) l
  sorted : Sorted (fire now l s).1.store (fire now l s).1.timers
  same_lock : (fire now l s).1.locked ≡ s.locked

fire_lem :
    (now : ℕ) (l : List ℕ) (s : Manager)
    → Distinct l
    → Apart l s.timers
    → Sorted s.store s.timers
    → Fired now l s
unfolding fire Distinct Apart
fire_lem now [] s distinct apart sorted = record {
  returned = refl;
  sorted = sorted;
  same_lock = refl;
}
fire_lem now (x ∷ l) s (other, distinct) (h, apart) sorted =
    let rest =
      fire_lem now l (fire_one now x s) distinct (fire_one-Apart now x l s other apart)
        (fire_one-Sorted now x s h sorted) in
    record {
      returned = ap (◌∷◌ (s.store x).cb) (rest.returned ∙ same_cbs now x l s other);
      sorted = rest.sorted;
      same_lock = rest.same_lock ∙ fire_one-locked now x s;
    }

-- Firing other timers does not touch a timer.
record Outside (now y : ℕ) (l : List ℕ) (s : Manager) : Type 0 where
  same : (fire now l s).1.store y ≡ s.store y
  stays : In y s.timers → In y (fire now l s).1.timers
  absent : All (λ z. z ≢ y) s.timers → All (λ z. z ≢ y) (fire now l s).1.timers

fire_one-In : (now x y : ℕ) (s : Manager) → In y s.timers → In y (fire_one now x s).timers
unfolding fire_one
fire_one-In now x y s m = elim (Bool-cases (s.store x).recurring) [
  | inl h ↦ rw (h, fire_one) (In-insert_old _ x y s.timers m)
  | inr h ↦ rw (h, fire_one) m
]

fire-Outside : (now y : ℕ) (l : List ℕ) (s : Manager) → All (λ x. x ≢ y) l → Outside now y l s
unfolding fire
fire-Outside now y [] s other = record { same = refl; stays = λ m. m; absent = λ all. all }
fire-Outside now y (x ∷ l) s (h, other) =
    let rest = fire-Outside now y l (fire_one now x s) other in
    record {
      same = rest.same ∙ fire_one-store now x s y (λ e. h (sym e));
      stays = λ m. rest.stays (fire_one-In now x y s m);
      absent = λ all. rest.absent (fire_one-All (λ z. z ≢ y) now x s h all);
    }

-- What has become of a timer that was due: one that recurs is in the set again, at its new time; the
-- other is in it no longer, and its callback is cleared.
abbrev pub Fate : ℕ → (ℕ → Timer) → Manager → ℕ → Type 0
Fate now old t x = elim (old x).recurring [
  | true ↦ In x t.timers × (t.store x ≡ record (old x) { next = (now + (old x).ms) % 2 ^ 64 })
  | false ↦ All (λ y. y ≢ x) t.timers × (t.store x ≡ record (old x) { cb = none })
]

put_here : (x : ℕ) (t : Timer) (store : ℕ → Timer) → put x t store x ≡ t
put_here x t store = ground arith

fire_one-Fate :
    (now x : ℕ) (s : Manager) → All (λ y. y ≢ x) s.timers → Fate now s.store (fire_one now x s) x
unfolding fire_one
fire_one-Fate now x s apart = elim (Bool-cases (s.store x).recurring) [
  | inl h ↦
      let again = put x (record (s.store x) { next = (now + (s.store x).ms) % 2 ^ 64 }) s.store in
      let e : fire_one now x s ≡ record s { store = again; timers = insert again x s.timers } =
        simp (h, fire_one) in
      subst (λ (t : Manager). Fate now s.store t x) (sym e)
        (rw (h, Fate)
          (
            In-insert again x s.timers,
            put_here x (record (s.store x) { next = (now + (s.store x).ms) % 2 ^ 64 }) s.store,
          ))
  | inr h ↦
      let cleared = put x (record (s.store x) { cb = none }) s.store in
      let e : fire_one now x s ≡ record s { store = cleared } = simp (h, fire_one) in
      subst (λ (t : Manager). Fate now s.store t x) (sym e)
        (rw (h, Fate) (apart, put_here x (record (s.store x) { cb = none }) s.store))
]

-- Firing others afterwards keeps it.
Fate-outside :
    (now x : ℕ) (l : List ℕ) (old : ℕ → Timer) (s : Manager)
    → All (λ y. y ≢ x) l
    → Fate now old s x
    → Fate now old (fire now l s).1 x
Fate-outside now x l old s other fate =
    let out = fire-Outside now x l s other in
    elim (Bool-cases (old x).recurring) [
      | inl h ↦ let (m, e) = rw (h, Fate) at fate in rw (h, Fate) (out.stays m, out.same ∙ e)
      | inr h ↦ let (m, e) = rw (h, Fate) at fate in rw (h, Fate) (out.absent m, out.same ∙ e)
    ]

Fates-old :
    (now x : ℕ) (l : List ℕ) (s t : Manager)
    → All (λ y. y ≢ x) l
    → All (Fate now (fire_one now x s).store t) l
    → All (Fate now s.store t) l
Fates-old now x [] s t other fates = tt
Fates-old now x (y ∷ l) s t (h, other) (fate, fates) = (
  subst (λ (o : Timer). Fate now (λ z. o) t y) (fire_one-store now x s y h) fate,
  Fates-old now x l s t other fates,
)

fire-Fate :
    (now : ℕ) (l : List ℕ) (s : Manager)
    → Distinct l
    → Apart l s.timers
    → All (Fate now s.store (fire now l s).1) l
unfolding fire Distinct Apart
fire-Fate now [] s distinct apart = tt
fire-Fate now (x ∷ l) s (other, distinct) (h, apart) =
    let u = fire_one now x s in
    (
      Fate-outside now x l s.store u other (fire_one-Fate now x s h),
      Fates-old now x l s (fire now l u).1 other
          (fire-Fate now l u distinct (fire_one-Apart now x l s other apart)),
    )

fire-All :
    (P : ℕ → Type 0) (now : ℕ) (l : List ℕ) (s : Manager)
    → All P l
    → All P s.timers
    → All P (fire now l s).1.timers
unfolding fire
fire-All P now [] s ps all = all
fire-All P now (x ∷ l) s (p, ps) all =
    fire-All P now l (fire_one now x s) ps (fire_one-All P now x s p all)

All-weaken : (P Q : ℕ → Type 0) (l : List ℕ) → ((y : ℕ) → P y → Q y) → All P l → All Q l
All-weaken P Q [] f all = tt
All-weaken P Q (y ∷ l) f (p, all) = (f y p, All-weaken P Q l f all)

all_in : (l : List ℕ) → All (λ y. In y l) l
all_in [] = tt
all_in (y ∷ l) =
    (inl refl, All-weaken (λ z. In z l) (λ z. In z (y ∷ l)) l (λ z m. inr m) (all_in l))

Apart-at : (y : ℕ) (l timers : List ℕ) → Apart l timers → In y timers → All (λ x. x ≢ y) l
unfolding Apart
Apart-at y [] timers apart m = tt
Apart-at y (x ∷ l) timers (h, apart) m =
    (λ e. All-In (λ z. z ≢ x) y timers h m (sym e), Apart-at y l timers apart m)

all_stay :
    (now : ℕ) (due later : List ℕ) (s : Manager)
    → Apart due later
    → (rest : List ℕ) → All (λ y. In y later) rest
    → s.timers ≡ later
    → All (λ y. In y (fire now due s).1.timers × ((fire now due s).1.store y ≡ s.store y)) rest
all_stay now due later s apart [] inside e = tt
all_stay now due later s apart (y ∷ rest) (m, inside) e =
    let out = fire-Outside now y due s (Apart-at y due later apart m) in
    ((out.stays (subst (In y) (sym e) m), out.same), all_stay now due later s apart rest inside e)

-- What a sorted list is, in two parts.
parts_lem :
    (store : ℕ → Timer) (xs ys : List ℕ)
    → Sorted store (xs ++ ys)
    → Distinct xs × Apart xs ys × Sorted store ys
unfolding Distinct Apart
parts_lem store [] ys sorted = (tt, tt, sorted)
parts_lem store (x ∷ xs) ys (above, sorted) =
    let (distinct, apart, rest) = parts_lem store xs ys sorted in
    let other = All-distinct store x (xs ++ ys) above in
    ((All-left _ xs ys other, distinct), (All-right _ xs ys other, apart), rest)

ran_lem :
    (s : Manager) (now probe : ℕ)
    → s.locked ≡ false
    → (l : List ℕ) → s.timers ≡ l
    → get_expired_cb now probe s ≡ (
        let parts = expired_and_later s.store now probe s.timers in
        let fired = fire now parts.0 (record s { timers = parts.1 }) in done fired.0 fired.1)
unfolding get_expired_cb expired_and_later split_at_bound split_equal fire
ran_lem s now probe unlocked [] e =
    none_set
    ∙ ap₂ done refl (λ i. record s { timers = e i })
    ∙ sym (
        ap
          (λ l.
            let parts = expired_and_later s.store now probe l in
            let fired = fire now parts.0 (record s { timers = parts.1 }) in done fired.0 fired.1)
          e)
  where
    none_set : get_expired_cb now probe s ≡ done [] s
    none_set = ground (arith, unlocked, e)
ran_lem s now probe unlocked (x ∷ l) e = ground (arith, unlocked, e)

-- In a valid state, with the address of the compared timer not in the set, `getExpiredCb` takes the timers
-- that are due and returns the callback of each, in the order of the set. Of those that are due, each that
-- recurs is in the set again with its time counted from now, and each other is out of the set with its
-- callback cleared; those of a later time stay as they were; nothing else is in the set, and it is in
-- order.
pub get_expired_cb_lem :
    (s : Manager) (now probe : ℕ)
    → IsValid s
    → All (λ y. y ≢ probe) s.timers
    → (due : List ℕ) × (later : List ℕ) × (t : Manager) × (s.timers ≡ due ++ later)
      × All (λ x. (s.store x).next ≤ now) due
      × All (λ x. now < (s.store x).next) later
      × (get_expired_cb now probe s ≡ done (map (λ x. (s.store x).cb) due) t)
      × All (Fate now s.store t) due
      × All (λ y. In y t.timers × (t.store y ≡ s.store y)) later
      × All (λ y. In y due ⊎ In y later) t.timers
      × IsValid t
unfolding get_expired_cb
get_expired_cb_lem s now probe v fresh =
    let (due, later) = expired_and_later s.store now probe s.timers in
    let split = expired_lem s.store now probe s.timers v.sorted fresh in
    let (distinct, apart, rest) =
      parts_lem s.store due later (subst (Sorted s.store) (sym split.whole) v.sorted) in
    let u = record s { timers = later } in
    let fired = fire_lem now due u distinct apart rest in
    (
      due,
      later,
      (fire now due u).1,
      sym split.whole,
      split.due,
      split.later,
      ran_lem s now probe v.unlocked s.timers refl
          ∙ ap (λ cbs. done cbs (fire now due u).1) fired.returned,
      fire-Fate now due u distinct apart,
      all_stay now due later u apart later (all_in later) refl,
      fire-All (λ y. In y due ⊎ In y later) now due u
          (All-weaken (λ y. In y due) _ due (λ y m. inl m) (all_in due))
          (All-weaken (λ y. In y later) _ later (λ y m. inr m) (all_in later)),
      record { sorted = fired.sorted; unlocked = fired.same_lock ∙ v.unlocked },
    )
