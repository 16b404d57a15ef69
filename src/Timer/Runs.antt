-- ===== src/Timer/Runs.antt =====
-- A set of two timers, and the theorems at it.
use cczoecpp.Timer.Expired.{IsValid, Fate, get_expired_cb_lem}
use cczoecpp.Timer.Handle.{IsArmed, cancel_lem, add_timer_lem}
use cczoecpp.Timer.{Manager, add_timer, get_expired_cb, cancel}
use cczoecpp.Timer.Order.{In}
use cczoecpp.Common.{
  ◌+◌, ◌%◌, ◌^◌, ◌⊎◌, ℕ, ◌≤◌, ◌<◌, ◌≡◌, ◌≢◌, refl, List, [], ◌∷◌, ◌++◌, map, true, false, All,
  arith, ◌==◌, inl, inr, none, some, if◌then◌else◌,
}
use cczoecpp.Common.Outcome.{done}

-- Two timers: one that recurs, and one that does not.
abbrev two_timers : Manager
two_timers = record {
  store = λ x.
      if x == 1
      then record { recurring = true; ms = 10; next = 10; cb = some 21 }
      else record { recurring = false; ms = 20; next = 20; cb = some 22 };
  timers = 1 ∷ 2 ∷ [];
  locked = false;
  notified = 0;
}

two_timers-IsValid : IsValid two_timers
two_timers-IsValid = record { sorted = ((refl, tt), (tt, tt)); unlocked = refl }

two_timers-IsArmed : IsArmed 2 two_timers
two_timers-IsArmed = record { member = inr (inl refl); callback = 22; has_callback = refl }

get_expired_cb_lem_example :
    (due : List ℕ) × (later : List ℕ) × (t : Manager) × (two_timers.timers ≡ due ++ later)
    × All (λ x. (two_timers.store x).next ≤ 15) due
    × All (λ x. 15 < (two_timers.store x).next) later
    × (get_expired_cb 15 9 two_timers ≡ done (map (λ x. (two_timers.store x).cb) due) t)
    × All (Fate 15 two_timers.store t) due
    × All (λ y. In y t.timers × (t.store y ≡ two_timers.store y)) later
    × All (λ y. In y due ⊎ In y later) t.timers
    × IsValid t
get_expired_cb_lem_example = get_expired_cb_lem two_timers 15 9 two_timers-IsValid (ground arith)

cancel_lem_example :
    (t : Manager) × (cancel 2 two_timers ≡ done true t)
    × IsValid t
    × All (λ y. y ≢ 2) t.timers
    × ((t.store 2).cb ≡ none)
    × ((y : ℕ) → y ≢ 2 → In y two_timers.timers → In y t.timers × (t.store y ≡ two_timers.store y))
cancel_lem_example = cancel_lem 2 two_timers two_timers-IsValid two_timers-IsArmed

add_timer_lem_example :
    (t : Manager) × (add_timer 3 5 2 (some 31) false two_timers ≡ done 3 t)
    × IsValid t
    × In 3 t.timers
    × ((t.store 3).next ≡ (5 + 2) % 2 ^ 64)
    × ((t.store 3).ms ≡ 2)
    × ((t.store 3).cb ≡ some 31)
    × ((t.store 3).recurring ≡ false)
    × ((y : ℕ) → y ≢ 3 → In y two_timers.timers → In y t.timers × (t.store y ≡ two_timers.store y))
    × All (λ y. (y ≡ 3) ⊎ In y two_timers.timers) t.timers
add_timer_lem_example =
    add_timer_lem 3 5 2 (some 31) false two_timers two_timers-IsValid (ground arith)
