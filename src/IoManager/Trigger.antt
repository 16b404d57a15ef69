-- ===== src/IoManager/Trigger.antt =====
-- What `delEvent` and `cancelEvent` do to a registered event.
use cczoecpp.Common.{
  List, [], ◌∷◌, ◌++◌, append-nil, sym, Option, ℕ, ◌+◌, ◌≤◌, ◌≡◌, refl, none, some, Bool, true,
  if◌then◌else◌, get_elem?, set, arith, Bool-cases, inl, inr,
}
use cczoecpp.Common.Outcome.{done}
use cczoecpp.IoManager.{
  IoManager, Event, Kind, reading, writing, has, remove, any, EventContext, empty_context,
  FdContext, Op, ctl_mod, ctl_del, get_event_context, set_event_context, decrement, unregister,
  del_event, task_of, enqueue, Task, call, run,
}
use cczoecpp.IoManager.Register.{
  IsValid, IsBacked, count_of, small_count, replaced, clear_flag, IsBacked-remove, All-get,
  count-set,
}

-- One event less.
pub one_less :
    (fd : ℕ) (k : Kind) (c : FdContext) (e : EventContext) (s : IoManager)
    → IsValid s
    → get_elem? s.contexts fd ≡ some c
    → has c.events k ≡ true
    → (decrement s.pending + 1 ≡ s.pending)
      × (decrement s.pending + count_of c
          ≡ s.pending + count_of (set_event_context k e (record c { events = remove c.events k })))
one_less fd k c e s v found on =
    let fact = clear_flag k c e on in
    let some_event : 1 ≤ s.pending = omega (
      arith,
      v.counted,
      count-set s.contexts fd c (set_event_context k e (record c { events = remove c.events k }))
          found,
      fact,
    ) in
    omega (arith, small_count s v, fact, some_event)

-- `delEvent` of a registered event returns 0 with one event less registered, or 1 with as many as
-- before. The state stays valid, and nothing is scheduled.
pub del_event_lem :
    (epoll_ctl : Op → ℕ → Event → Bool) (fd : ℕ) (k : Kind) (c : FdContext) (s : IoManager)
    → IsValid s
    → get_elem? s.contexts fd ≡ some c
    → has c.events k ≡ true
    → (r : ℕ) × (t : IoManager) × (del_event epoll_ctl fd k s ≡ done r t)
      × IsValid t
      × (t.pending + 1 ≡ s.pending + r)
      × (t.scheduled ≡ s.scheduled)
unfolding del_event unregister
del_event_lem epoll_ctl fd k c s v found on =
    let left = remove c.events k in
    let c' = set_event_context k empty_context (record c { events = left }) in
    let t = record s { contexts = set s.contexts fd c'; pending = decrement s.pending } in
    elim (Bool-cases (epoll_ctl (if any left then ctl_mod else ctl_del) fd left)) [
      | inl accepts ↦ (
        0,
        t,
        ground (arith, found, on, accepts),
        replaced fd c c' s t v found
            (IsBacked-remove k c empty_context (All-get s.contexts fd c v.backed found)) refl
            ((one_less fd k c empty_context s v found on).1),
        omega (arith, (one_less fd k c empty_context s v found on).0),
        refl,
      )
      | inr refuses ↦ (1, s, ground (arith, found, on, refuses), v, refl, refl)
    ]

pub has_scheduler :
    (k : Kind) (c : FdContext)
    → IsBacked c
    → has c.events k ≡ true
    → (n : ℕ) × ((get_event_context k c).scheduler ≡ some n)
has_scheduler reading c (r, w) h = r h
has_scheduler writing c (r, w) h = w h

-- The context does not depend on the flags.
pub same_context :
    (k : Kind) (c : FdContext) (e : Event)
    → get_event_context k (record c { events = e }) ≡ get_event_context k c
same_context reading c e = refl
same_context writing c e = refl

pub removed_twice : (k : Kind) (e : Event) → remove (remove e k) k ≡ remove e k
removed_twice reading e = refl
removed_twice writing e = refl

-- The work that an event context stands for: its callback, or its fiber if there is none.
abbrev pub work : EventContext → List (ℕ × Task)
work e = elim e.scheduler [
  | none ↦ []
  | some n ↦ elim e.cb [
    | some cb ↦ (n, call cb) ∷ []
    | none ↦ elim e.fiber [ none ↦ [] | some fiber ↦ (n, run fiber) ∷ [] ]
  ]
]

pub enqueue-work :
    (n : ℕ) (e : EventContext) (queue : List (ℕ × Task))
    → e.scheduler ≡ some n
    → enqueue n (task_of e) queue ≡ queue ++ work e
enqueue-work n e queue h = go e.cb refl e.fiber refl
  where
    go :
        (cb : Option ℕ)
        → e.cb ≡ cb
        → (fiber : Option ℕ) → e.fiber ≡ fiber
        → enqueue n (task_of e) queue ≡ queue ++ work e
    go (some cb) f fiber g = rw (h, f, work, task_of, enqueue)
    go none f (some fiber) g = rw (h, f, g, work, task_of, enqueue)
    go none f none g = rw (h, f, g, work, task_of, enqueue) (sym (append-nil queue))

-- The operation of `epoll_ctl` that takes one event of a context out, and whether it succeeds.
abbrev pub accepts_del : (Op → ℕ → Event → Bool) → ℕ → Kind → FdContext → Bool
accepts_del epoll_ctl fd k c =
    epoll_ctl (if any (remove c.events k) then ctl_mod else ctl_del) fd (remove c.events k)
