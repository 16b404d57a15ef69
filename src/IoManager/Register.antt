-- ===== src/IoManager/Register.antt =====
-- What `addEvent`, `delEvent` and `cancelEvent` keep: the count of pending events, and a scheduler
-- for each of them.
use native.Mathlib.Nat.{mod-eq_of_lt}
use cczoecpp.Common.{
  ℕ, zero, suc, ◌+◌, ◌-◌, ◌*◌, ◌/◌, ◌^◌, ◌≤◌, ◌<◌, ◌≡◌, refl, sym, ap, ◌∙◌, subst, Option, none,
  some, List, [], ◌∷◌, ◌++◌, Bool, true, false, if◌then◌else◌, ltb, length, get_elem?, set, take,
  replicate, All, All-append, All-replicate, length-append, length-replicate, arith, Bool-cases,
  inl, inr, ◌⊎◌,
}
use cczoecpp.Common.Outcome.{done}
use cczoecpp.IoManager.{
  IoManager, Event, Kind, reading, writing, has, add, remove, any, EventContext, new_context,
  FdContext, Op, ctl_add, ctl_mod, get_event_context, set_event_context, hold, contexts_resize,
  increment, register, with_context, add_event,
}

abbrev pub flag : Bool → ℕ
flag true = 1
flag false = 0

abbrev pub count_of : FdContext → ℕ
count_of c = flag c.events.read + flag c.events.write

-- How many events are registered.
unfoldable pub count : List FdContext → ℕ
count [] = 0
count (c ∷ cs) = count_of c + count cs

-- An event that is registered has a scheduler.
abbrev pub IsBacked : FdContext → Type 0
IsBacked c =
    (c.events.read ≡ true → (n : ℕ) × (c.on_read.scheduler ≡ some n))
    × (c.events.write ≡ true → (n : ℕ) × (c.on_write.scheduler ≡ some n))

pub record IsValid (s : IoManager) : Type 0 where
  pub backed : All IsBacked s.contexts
  pub counted : s.pending ≡ count s.contexts
  pub bounded : length s.contexts ≤ 2 ^ 32

pub count-le : (cs : List FdContext) → count cs ≤ 2 * length cs
unfolding count
count-le [] = omega arith
count-le (c ∷ cs) = ground (arith, count-le cs)

pub count-set :
    (cs : List FdContext) (i : ℕ) (c c' : FdContext)
    → get_elem? cs i ≡ some c
    → count (set cs i c') + count_of c ≡ count cs + count_of c'
unfolding count
count-set [] i c c' h = ground arith
count-set (d ∷ cs) zero c c' h = ground arith
count-set (d ∷ cs) (suc i) c c' h = ground (arith, count-set cs i c c' h)

pub length-set : (cs : List FdContext) (i : ℕ) (c : FdContext) → length (set cs i c) ≡ length cs
length-set [] i c = refl
length-set (d ∷ cs) zero c = refl
length-set (d ∷ cs) (suc i) c = ap suc (length-set cs i c)

pub All-set :
    (cs : List FdContext) (i : ℕ) (c : FdContext)
    → All IsBacked cs
    → IsBacked c
    → All IsBacked (set cs i c)
All-set [] i c all b = tt
All-set (d ∷ cs) zero c (h, all) b = (b, all)
All-set (d ∷ cs) (suc i) c (h, all) b = (h, All-set cs i c all b)

pub All-get :
    (cs : List FdContext) (i : ℕ) (c : FdContext)
    → All IsBacked cs
    → get_elem? cs i ≡ some c
    → IsBacked c
All-get [] i c all h = ground arith
All-get (d ∷ cs) zero c (b, all) h = subst IsBacked same b
  where
    same : d ≡ c
    same = ground arith
All-get (d ∷ cs) (suc i) c (b, all) h = All-get cs i c all h

count-fresh : (n : ℕ) → count (replicate n new_context) ≡ 0
unfolding count
count-fresh zero = refl
count-fresh (suc n) = omega (arith, count-fresh n)

count-append : (cs ds : List FdContext) → count (cs ++ ds) ≡ count cs + count ds
unfolding count
count-append [] ds = omega arith
count-append (c ∷ cs) ds = omega (arith, count-append cs ds)

IsBacked-new : IsBacked new_context
IsBacked-new = (λ h. ground arith, λ h. ground arith)

-- `getEventContext` and the flags are of one event only.
pub set_flag :
    (k : Kind) (c : FdContext) (e : EventContext)
    → has c.events k ≡ false
    → count_of (set_event_context k e (record c { events = add c.events k })) ≡ count_of c + 1
set_flag reading c e h = ground arith
set_flag writing c e h = ground arith

pub IsBacked-add :
    (k : Kind) (c : FdContext) (cb : Option ℕ) (scheduler fiber : ℕ)
    → IsBacked c
    → IsBacked (
        set_event_context k
          (hold cb (some scheduler) fiber (get_event_context k c))
          (record c { events = add c.events k }))
IsBacked-add reading c none scheduler fiber (r, w) = (λ h. (scheduler, refl), w)
IsBacked-add reading c (some cb) scheduler fiber (r, w) = (λ h. (scheduler, refl), w)
IsBacked-add writing c none scheduler fiber (r, w) = (r, λ h. (scheduler, refl))
IsBacked-add writing c (some cb) scheduler fiber (r, w) = (r, λ h. (scheduler, refl))

-- The flags of a context do not depend on what is held.
pub events-set :
    (k : Kind) (e : EventContext) (c : FdContext) → (set_event_context k e c).events ≡ c.events
events-set reading e c = refl
events-set writing e c = refl

pub get-set :
    (cs : List FdContext) (i : ℕ) (c c' : FdContext)
    → get_elem? cs i ≡ some c
    → get_elem? (set cs i c') i ≡ some c'
get-set [] i c c' h = ground arith
get-set (d ∷ cs) zero c c' h = refl
get-set (d ∷ cs) (suc i) c c' h = get-set cs i c c' h

pub clear_flag :
    (k : Kind) (c : FdContext) (e : EventContext)
    → has c.events k ≡ true
    → count_of (set_event_context k e (record c { events = remove c.events k })) + 1 ≡ count_of c
clear_flag reading c e h = ground arith
clear_flag writing c e h = ground arith

pub IsBacked-remove :
    (k : Kind) (c : FdContext) (e : EventContext)
    → IsBacked c
    → IsBacked (set_event_context k e (record c { events = remove c.events k }))
IsBacked-remove reading c e (r, w) = (λ h. ground arith, w)
IsBacked-remove writing c e (r, w) = (r, λ h. ground arith)

get_some :
    (cs : List FdContext) (i : ℕ) → i < length cs → (c : FdContext) × (get_elem? cs i ≡ some c)
get_some [] i h = absurd (omega arith)
get_some (d ∷ cs) zero h = (d, refl)
get_some (d ∷ cs) (suc i) h = get_some cs i (omega arith)

take-short : (cs : List FdContext) (n : ℕ) → length cs ≤ n → take n cs ≡ cs
take-short [] zero h = refl
take-short [] (suc n) h = refl
take-short (c ∷ cs) zero h = absurd (omega arith)
take-short (c ∷ cs) (suc n) h = ap (◌∷◌ c) (take-short cs n (omega arith))

-- Where `fd * 1.5` is behind `fd`, the lookup of `addEvent` finds a context.
pub with_context-IsValid :
    (fd : ℕ) (s : IoManager)
    → IsValid s
    → fd < 2 ^ 31
    → (2 ≤ fd) ⊎ (fd < length s.contexts)
    → IsValid (with_context fd s)
      × ((with_context fd s).pending ≡ s.pending)
      × ((with_context fd s).scheduled ≡ s.scheduled)
      × ((c : FdContext) × (get_elem? (with_context fd s).contexts fd ≡ some c))
unfolding with_context contexts_resize
with_context-IsValid fd s v small h = elim (Bool-cases (ltb fd (length s.contexts))) [
  | inl k ↦ rw k (v, refl, refl, get_some s.contexts fd (ground arith))
  | inr k ↦ rw k (
    record {
      backed =
          All-append _ (take (fd * 3 / 2) s.contexts) _
            (subst (All IsBacked) (sym (old k)) v.backed)
            (All-replicate _ (fd * 3 / 2 - length s.contexts) new_context IsBacked-new);
      counted =
          v.counted
          ∙ sym (
              count-append _ _
              ∙ (λ i. count (old k i) + count-fresh (fd * 3 / 2 - length s.contexts) i)
              ∙ omega arith);
      bounded = omega (arith, size k);
    },
    refl,
    refl,
    get_some _ fd (omega (arith, size k, more k)),
  )
]
  where
    more : ltb fd (length s.contexts) ≡ false → (length s.contexts ≤ fd) × (fd < fd * 3 / 2)
    more k = ground arith

    old : ltb fd (length s.contexts) ≡ false → take (fd * 3 / 2) s.contexts ≡ s.contexts
    old k = take-short s.contexts (fd * 3 / 2) (omega (arith, more k))

    size :
        ltb fd (length s.contexts) ≡ false
        → length
            (take (fd * 3 / 2) s.contexts ++ replicate (fd * 3 / 2 - length s.contexts) new_context)
          ≡ fd * 3 / 2
    size k = omega (
      arith,
      more k,
      length-append (take (fd * 3 / 2) s.contexts)
          (replicate (fd * 3 / 2 - length s.contexts) new_context),
      length-replicate (fd * 3 / 2 - length s.contexts) new_context,
      ap length (old k),
    )

-- A context takes the place of another one.
pub replaced :
    (fd : ℕ) (c c' : FdContext) (s t : IoManager)
    → IsValid s
    → get_elem? s.contexts fd ≡ some c
    → IsBacked c'
    → t.contexts ≡ set s.contexts fd c'
    → t.pending + count_of c ≡ s.pending + count_of c'
    → IsValid t
replaced fd c c' s t v found b e p = record {
  backed = subst (All IsBacked) (sym e) (All-set s.contexts fd c' v.backed b);
  counted = omega (arith, p, v.counted, ap count e, count-set s.contexts fd c c' found);
  bounded = omega (arith, ap length e, length-set s.contexts fd c', v.bounded);
}

pub small_count : (s : IoManager) → IsValid s → s.pending < 2 ^ 34
small_count s v = omega (arith, v.counted, v.bounded, count-le s.contexts)

-- The operation of `epoll_ctl` that registers one more event of a context, and whether it succeeds.
abbrev pub accepts_add : (Op → ℕ → Event → Bool) → ℕ → Kind → FdContext → Bool
accepts_add epoll_ctl fd k c =
    epoll_ctl (if any c.events then ctl_mod else ctl_add) fd (add c.events k)

-- On a thread with a scheduler, in a valid state, `addEvent` of an event that is not registered, on a
-- descriptor from 2 on or one that has a context, returns 0 if `epoll_ctl` accepts the event, with the
-- event registered and counted, and 1 if not, with nothing registered. Nothing is scheduled, and the
-- state stays valid: every registered event has a scheduler, and `m_pendingEventCount` is their number.
pub add_event_lem :
    (epoll_ctl : Op → ℕ → Event → Bool) (fd : ℕ) (k : Kind) (cb : Option ℕ) (scheduler fiber : ℕ)
    (s : IoManager)
    → IsValid s
    → fd < 2 ^ 31
    → (2 ≤ fd) ⊎ (fd < length s.contexts)
    → ((c : FdContext)
        → get_elem? (with_context fd s).contexts fd ≡ some c
        → has c.events k ≡ false)
    → (c : FdContext) × (d : FdContext) × (t : IoManager) × (get_elem?
          (with_context fd s).contexts
          fd
        ≡ some c)
      × (add_event epoll_ctl fd k cb (some scheduler) fiber s
          ≡ done (if accepts_add epoll_ctl fd k c then 0 else 1) t)
      × IsValid t
      × (get_elem? t.contexts fd ≡ some d)
      × (d.events ≡ (if accepts_add epoll_ctl fd k c then add c.events k else c.events))
      × (t.pending ≡ (if accepts_add epoll_ctl fd k c then s.pending + 1 else s.pending))
      × (t.scheduled ≡ s.scheduled)
unfolding add_event register
add_event_lem epoll_ctl fd k cb scheduler fiber s v small h free =
    let (v', same, same_queue, (c, found)) = with_context-IsValid fd s v small h in
    let e = hold cb (some scheduler) fiber (get_event_context k c) in
    let c' = set_event_context k e (record c { events = add c.events k }) in
    let u = with_context fd s in
    let up : increment u.pending ≡ u.pending + 1 = mod-eq_of_lt (omega (arith, small_count u v')) in
    let t = record u { contexts = set u.contexts fd c'; pending = increment u.pending } in
    elim (Bool-cases (accepts_add epoll_ctl fd k c)) [
      | inl accepts ↦ (
        c,
        c',
        t,
        found,
        ground (arith, found, free c found, accepts),
        replaced fd c c' u t v' found
            (IsBacked-add k c cb scheduler fiber (All-get u.contexts fd c v'.backed found)) refl
            (omega (arith, up, set_flag k c e (free c found))),
        get-set u.contexts fd c c' found,
        rw accepts (events-set k e (record c { events = add c.events k })),
        rw accepts (omega (arith, up, same)),
        same_queue,
      )
      | inr refuses ↦ (
        c,
        c,
        u,
        found,
        ground (arith, found, free c found, refuses),
        v',
        found,
        rw refuses refl,
        rw refuses same,
        same_queue,
      )
    ]
