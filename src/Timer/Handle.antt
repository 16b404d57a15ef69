-- ===== src/Timer/Handle.antt =====
-- What a handle to a timer does: `cancel`, `reset` and `refresh`; and `addTimer` with the time
-- that is left.
use cczoecpp.Common.{
  Option, ap, ◌⊎◌, inl, inr, ℕ, suc, ◌+◌, ◌-◌, ◌%◌, ◌^◌, ◌≤◌, ◌≡◌, ◌≢◌, refl, sym, subst, List, [],
  ◌∷◌, none, some, Bool, true, false, All, arith, if◌then◌else◌,
}
use cczoecpp.Common.Outcome.{done, fault}
use cczoecpp.Timer.{
  Timer, Manager, put, in_front, less, insert, new_timer, insert_timer, add_timer, get_next_timer,
  cancel, reset, refresh,
}
use cczoecpp.Timer.Order.{
  Sorted, insert-Sorted, Sorted-put, In, In-insert, In-insert_old, All-insert, erase_lem,
}
use cczoecpp.Timer.Expired.{IsValid}

-- A timer that is set has its callback and is in the set.
pub record IsArmed (x : ℕ) (s : Manager) : Type 0 where
  pub member : In x s.timers
  pub callback : ℕ
  pub has_callback : (s.store x).cb ≡ some callback

put_self : (x : ℕ) (t : Timer) (store : ℕ → Timer) → put x t store x ≡ t
put_self x t store = ground arith

-- `cancel` takes an armed timer out of the set and clears its callback, and every other timer
-- stays in the set as it was.
pub cancel_lem :
    (x : ℕ) (s : Manager)
    → IsValid s
    → IsArmed x s
    → (t : Manager) × (cancel x s ≡ done true t)
      × IsValid t
      × All (λ y. y ≢ x) t.timers
      × ((t.store x).cb ≡ none)
      × ((y : ℕ) → y ≢ x → In y s.timers → In y t.timers × (t.store y ≡ s.store y))
unfolding cancel
cancel_lem x s v armed =
    let (left, erased) = erase_lem s.store x s.timers v.sorted armed.member in
    (
      record s { store = put x (record (s.store x) { cb = none }) s.store; timers = left },
      ground (arith, v.unlocked, armed.has_callback, erased.found),
      record {
        sorted = Sorted-put s.store x _ left erased.gone erased.sorted;
        unlocked = v.unlocked;
      },
      erased.gone,
      ground arith,
      λ y other member. (erased.others y other member, ground arith),
    )

-- `reset` of an armed timer takes the write lock while it holds it, which is undefined behaviour.
pub reset_faults :
    (x now ms : ℕ) (from_now : Bool) (s : Manager)
    → IsValid s
    → IsArmed x s
    → reset x now ms from_now s ≡ fault
unfolding reset insert_timer
reset_faults x now ms from_now s v armed =
    let (left, erased) = erase_lem s.store x s.timers v.sorted armed.member in
    ground (arith, v.unlocked, armed.has_callback, erased.found)

-- `refresh` puts an armed timer back into the set with its new time, but without its callback, and
-- a later `cancel` does nothing.
pub refresh_disarms :
    (x now : ℕ) (s : Manager)
    → IsValid s
    → IsArmed x s
    → (t : Manager) × (refresh x now s ≡ done true t)
      × IsValid t
      × ((t.store x).next ≡ (now + (s.store x).ms) % 2 ^ 64)
      × ((t.store x).cb ≡ none)
      × (cancel x t ≡ done false t)
unfolding refresh cancel
refresh_disarms x now s v armed =
    let (left, erased) = erase_lem s.store x s.timers v.sorted armed.member in
    let again =
      put x (record (s.store x) { cb = none; next = (now + (s.store x).ms) % 2 ^ 64 }) s.store in
    let cleared : (again x).cb ≡ none = ground arith in
    (
      record s { store = again; timers = insert again x left },
      ground (arith, v.unlocked, armed.has_callback, erased.found),
      record {
        sorted = insert-Sorted again x left (Sorted-put s.store x _ left erased.gone erased.sorted);
        unlocked = v.unlocked;
      },
      ground arith,
      cleared,
      ground (arith, v.unlocked, cleared),
    )

-- `addTimer` of a new object returns it and puts it into the set, with its callback, which may be empty,
-- and the time that is now and its milliseconds, as 64 bits. Every timer of the set stays in it as it
-- was, nothing else comes in, and the set stays in order.
pub add_timer_lem :
    (x now ms : ℕ) (cb : Option ℕ) (recurring : Bool) (s : Manager)
    → IsValid s
    → All (λ y. y ≢ x) s.timers
    → (t : Manager) × (add_timer x now ms cb recurring s ≡ done x t)
      × IsValid t
      × In x t.timers
      × ((t.store x).next ≡ (now + ms) % 2 ^ 64)
      × ((t.store x).ms ≡ ms)
      × ((t.store x).cb ≡ cb)
      × ((t.store x).recurring ≡ recurring)
      × ((y : ℕ) → y ≢ x → In y s.timers → In y t.timers × (t.store y ≡ s.store y))
      × All (λ y. (y ≡ x) ⊎ In y s.timers) t.timers
unfolding add_timer insert_timer new_timer
add_timer_lem x now ms cb recurring s v fresh =
    let store = put x (new_timer now ms cb recurring) s.store in
    (
      record s {
        store = store;
        timers = insert store x s.timers;
        notified = if in_front store x s.timers then suc s.notified else s.notified;
      },
      simp (v.unlocked) refl,
      record {
        sorted = insert-Sorted store x s.timers (Sorted-put s.store x _ s.timers fresh v.sorted);
        unlocked = v.unlocked;
      },
      In-insert store x s.timers,
      ap (λ (t : Timer). t.next) (put_self x (new_timer now ms cb recurring) s.store),
      ap (λ (t : Timer). t.ms) (put_self x (new_timer now ms cb recurring) s.store),
      ap (λ (t : Timer). t.cb) (put_self x (new_timer now ms cb recurring) s.store),
      ap (λ (t : Timer). t.recurring) (put_self x (new_timer now ms cb recurring) s.store),
      λ y other m. (In-insert_old store x y s.timers m, ground arith),
      All-insert (λ y. (y ≡ x) ⊎ In y s.timers) store x s.timers (inl refl) (all_inside s.timers),
    )
  where
    weaken :
        (y : ℕ) (l k : List ℕ) → All (λ z. (z ≡ x) ⊎ In z l) k → All (λ z. (z ≡ x) ⊎ In z (y ∷ l)) k
    weaken y l [] all = tt
    weaken y l (z ∷ k) (h, all) = (elim h [ inl e ↦ inl e | inr m ↦ inr (inr m) ], weaken y l k all)

    all_inside : (l : List ℕ) → All (λ y. (y ≡ x) ⊎ In y l) l
    all_inside [] = tt
    all_inside (y ∷ l) = (inr (inl refl), weaken y l l (all_inside l))

no_sooner :
    (store : ℕ → Timer) (now x d : ℕ) (l : List ℕ)
    → d ≤ (store x).next - now
    → All (λ y. less store x y ≡ true) l
    → All (λ y. d ≤ (store y).next - now) l
no_sooner store now x d [] h all = tt
no_sooner store now x d (y ∷ l) h (k, all) = (ground arith, no_sooner store now x d l h all)

-- `getNextTimer` returns the time until the first timer of the set expires, 0 if it is due, and no
-- timer expires sooner.
pub get_next_timer_lem :
    (now x : ℕ) (l : List ℕ) (s : Manager)
    → IsValid s
    → s.timers ≡ x ∷ l
    → (d : ℕ) × (get_next_timer now s ≡ done d s)
      × (d ≡ (s.store x).next - now)
      × All (λ y. d ≤ (s.store y).next - now) s.timers
unfolding get_next_timer
get_next_timer_lem now x l s v e =
    let sorted = subst (Sorted s.store) e v.sorted in
    (
      (s.store x).next - now,
      ground (arith, v.unlocked, e),
      refl,
      subst (All (λ y. (s.store x).next - now ≤ (s.store y).next - now)) (sym e)
          (omega arith, no_sooner s.store now x ((s.store x).next - now) l (omega arith) sorted.0),
    )
