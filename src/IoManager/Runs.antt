-- ===== src/IoManager/Runs.antt =====
-- A manager with one descriptor, and the theorems at it.
use cczoecpp.IoManager.Register.{flag, accepts_add, count, IsValid, add_event_lem}
use cczoecpp.IoManager.Idle.{left_of, work_if, just, occur_lem}
use cczoecpp.IoManager.{
  add, Event, has, FdContext, new_context, IoManager, contexts_resize, Op, with_context, occur,
  add_event, reading,
}
use cczoecpp.Common.{
  ◌++◌, ℕ, ◌+◌, ◌≡◌, refl, none, some, [], ◌∷◌, Bool, true, false, if◌then◌else◌, get_elem?, arith,
  inl,
}
use cczoecpp.Common.Outcome.{done}

-- A kernel that accepts all, and the contexts of the examples.
abbrev accept : Op → ℕ → Event → Bool
accept op fd events = true

abbrev no_contexts : IoManager
no_contexts = record { contexts = []; pending = 0; scheduled = [] }

no_contexts-IsValid : IsValid no_contexts
unfolding count
no_contexts-IsValid = record { backed = tt; counted = refl; bounded = omega arith }

abbrev waiting : FdContext
waiting = record new_context {
  events = just reading;
  on_read = record { scheduler = some 1; fiber = none; cb = some 8 };
}

abbrev one_context : IoManager
one_context = record { contexts = waiting ∷ []; pending = 1; scheduled = [] }

one_context-IsValid : IsValid one_context
unfolding count
one_context-IsValid = record {
  backed = ((λ h. (1, refl), λ h. ground arith), tt);
  counted = refl;
  bounded = omega arith;
}

free_4 :
    (c : FdContext)
    → get_elem? (with_context 4 no_contexts).contexts 4 ≡ some c
    → has c.events reading ≡ false
unfolding with_context contexts_resize
free_4 c h = ground (arith, h)

add_event_lem_example :
    (c : FdContext) × (d : FdContext) × (t : IoManager) × (get_elem?
        (with_context 4 no_contexts).contexts
        4
      ≡ some c)
    × (add_event accept 4 reading (some 8) (some 1) 2 no_contexts
        ≡ done (if accepts_add accept 4 reading c then 0 else 1) t)
    × IsValid t
    × (get_elem? t.contexts 4 ≡ some d)
    × (d.events ≡ (if accepts_add accept 4 reading c then add c.events reading else c.events))
    × (t.pending
        ≡ (if accepts_add accept 4 reading c then no_contexts.pending + 1 else no_contexts.pending))
    × (t.scheduled ≡ no_contexts.scheduled)
add_event_lem_example =
    add_event_lem accept 4 reading (some 8) 1 2 no_contexts no_contexts-IsValid (omega arith)
      (inl (omega arith)) free_4

occur_lem_example :
    (d : FdContext) × (t : IoManager) × (occur 0 (just reading) false one_context ≡ done tt t)
    × IsValid t
    × (get_elem? t.contexts 0 ≡ some d)
    × (d.events ≡ left_of (just reading) waiting.events)
    × (t.pending + (flag (just reading).read + flag (just reading).write) ≡ one_context.pending)
    × (t.scheduled
        ≡ one_context.scheduled
          ++ (work_if (just reading).read waiting.on_read
              ++ work_if (just reading).write waiting.on_write))
occur_lem_example =
    occur_lem 0 (just reading) waiting one_context one_context-IsValid refl (λ h. refl) (λ h. h)
