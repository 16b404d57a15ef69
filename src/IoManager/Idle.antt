-- ===== src/IoManager/Idle.antt =====
-- What `idle` does with the events that `epoll_wait` returns.
use cczoecpp.Common.{
  ℕ, ◌<◌, ◌≡◌, ◌∙◌, refl, Option, none, some, List, [], ◌++◌, Bool, true, false, get_elem?, set,
  arith, ap, sym, ◌+◌, if◌then◌else◌, not, ◌&&◌, append-nil, append_assoc,
}
use cczoecpp.IoManager.Register.{IsValid, flag, get-set, All-get, IsBacked-remove, replaced}
use cczoecpp.IoManager.Trigger.{work, enqueue-work, one_less, has_scheduler}
use cczoecpp.Common.Outcome.{done, fault, ◌>>=◌, >>=-done}
use cczoecpp.IoManager.{
  IoManager, Event, Kind, reading, writing, has, remove, FdContext, EventContext, Task, Op,
  get_event_context, set_event_context, decrement, trigger, trigger_event, trigger_if, occur,
  add_event, with_context, contexts_resize,
}

-- The other event.
abbrev pub other : Kind → Kind
other reading = writing
other writing = reading

-- Only the flag `k`.
abbrev pub just : Kind → Event
just reading = record { read = true; write = false }
just writing = record { read = false; write = true }

-- The context and the manager behind the trigger of an event.
abbrev pub step : Kind → FdContext → FdContext
step k c =
    set_event_context k (record (get_event_context k c) { scheduler = none })
      (record c { events = remove c.events k })

abbrev pub triggered : ℕ → Kind → FdContext → IoManager → IoManager
triggered fd k c s = record s {
  contexts = set s.contexts fd (step k c);
  pending = decrement s.pending;
  scheduled = s.scheduled ++ work (get_event_context k c);
}

module _ (fd : ℕ) (c : FdContext) (s : IoManager) (v : IsValid s)
    (found : get_elem? s.contexts fd ≡ some c) where
  trigger_lem :
      (k : Kind)
      → has c.events k ≡ true
      → (trigger_if true fd k c s ≡ done (step k c) (triggered fd k c s))
        × IsValid (triggered fd k c s)
        × (decrement s.pending + 1 ≡ s.pending)
  unfolding trigger_if trigger trigger_event
  trigger_lem k on =
      let (n, backed) = has_scheduler k c (All-get s.contexts fd c v.backed found) on in
      let e = get_event_context k c in
      (
        rw (backed, ◌>>=◌)
            (ap
              (λ queue. done (step k c) (record s {
                contexts = set s.contexts fd (step k c);
                pending = decrement s.pending;
                scheduled = queue;
              }))
              (enqueue-work n e s.scheduled backed)),
        replaced fd c (step k c) s (triggered fd k c s) v found
            (IsBacked-remove k c _ (All-get s.contexts fd c v.backed found)) refl
            ((one_less fd k c (record e { scheduler = none }) s v found on).1),
        (one_less fd k c (record e { scheduler = none }) s v found on).0,
      )

-- What an event that occurs alone finds and leaves.
abbrev pub left_of : Event → Event → Event
left_of e registered = record {
  read = registered.read && not e.read;
  write = registered.write && not e.write;
}

abbrev pub work_if : Bool → EventContext → List (ℕ × Task)
work_if b e = if b then work e else []

abbrev Occurred : ℕ → Event → FdContext → IoManager → Type 0
Occurred fd e c s =
    (d : FdContext) × (t : IoManager) × (occur fd e false s ≡ done tt t)
    × IsValid t
    × (get_elem? t.contexts fd ≡ some d)
    × (d.events ≡ left_of e c.events)
    × (t.pending + (flag e.read + flag e.write) ≡ s.pending)
    × (t.scheduled ≡ s.scheduled ++ (work_if e.read c.on_read ++ work_if e.write c.on_write))

by_flags :
    (r w : Bool) (fd : ℕ) (c : FdContext) (s : IoManager)
    → IsValid s
    → get_elem? s.contexts fd ≡ some c
    → (r ≡ true → c.events.read ≡ true)
    → (w ≡ true → c.events.write ≡ true)
    → Occurred fd (record { read = r; write = w }) c s
unfolding occur trigger_if
by_flags false false fd c s v found reads writes =
    (c, s, rw (found, occur), v, found, ground arith, omega arith, sym (append-nil s.scheduled))
by_flags true false fd c s v found reads writes =
    let (ran, valid, less) = trigger_lem fd c s v found reading (reads refl) in
    (
      step reading c,
      triggered fd reading c s,
      rw (found, reads refl, occur) (>>=-done (trigger_if true fd reading c) _ ran),
      valid,
      get-set s.contexts fd c (step reading c) found,
      ground arith,
      less,
      ap (λ queue. s.scheduled ++ queue) (sym (append-nil (work c.on_read))),
    )
by_flags false true fd c s v found reads writes =
    let (ran, valid, less) = trigger_lem fd c s v found writing (writes refl) in
    (
      step writing c,
      triggered fd writing c s,
      rw (found, writes refl, occur) (>>=-done (trigger_if true fd writing c) _ ran),
      valid,
      get-set s.contexts fd c (step writing c) found,
      ground arith,
      less,
      refl,
    )
by_flags true true fd c s v found reads writes =
    let (ran, valid, less) = trigger_lem fd c s v found reading (reads refl) in
    let t = triggered fd reading c s in
    let d = step reading c in
    let here = get-set s.contexts fd c d found in
    let (ran_too, valid_too, less_too) = trigger_lem fd d t valid here writing (writes refl) in
    (
      step writing d,
      triggered fd writing d t,
      rw (found, reads refl, occur)
          (>>=-done (trigger_if true fd reading c) _ ran
            ∙ >>=-done (trigger_if true fd writing d) _ ran_too),
      valid_too,
      get-set t.contexts fd d (step writing d) here,
      ground arith,
      omega (arith, less, less_too),
      append_assoc s.scheduled (work c.on_read) (work c.on_write),
    )

-- In a valid state, when events of a descriptor occur that are all registered, without EPOLLERR and
-- EPOLLHUP, what waits for reading is given to its scheduler and behind it what waits for writing; these
-- events and no others are no longer registered, and the state stays valid with as many events less.
pub occur_lem :
    (fd : ℕ) (e : Event) (c : FdContext) (s : IoManager)
    → IsValid s
    → get_elem? s.contexts fd ≡ some c
    → (e.read ≡ true → c.events.read ≡ true)
    → (e.write ≡ true → c.events.write ≡ true)
    → (d : FdContext) × (t : IoManager) × (occur fd e false s ≡ done tt t)
      × IsValid t
      × (get_elem? t.contexts fd ≡ some d)
      × (d.events ≡ left_of e c.events)
      × (t.pending + (flag e.read + flag e.write) ≡ s.pending)
      × (t.scheduled ≡ s.scheduled ++ (work_if e.read c.on_read ++ work_if e.write c.on_write))
occur_lem fd e c s v found reads writes = by_flags e.read e.write fd c s v found reads writes

-- EPOLLERR or EPOLLHUP on a descriptor with one event registered, whose other event has no
-- scheduler, calls a null pointer: both events are triggered.
pub hup_faults :
    (fd : ℕ) (k : Kind) (e : Event) (c : FdContext) (s : IoManager)
    → get_elem? s.contexts fd ≡ some c
    → c.events ≡ just k
    → (get_event_context (other k) c).scheduler ≡ none
    → occur fd e true s ≡ fault
unfolding occur trigger_if trigger trigger_event
hup_faults fd reading e c s found only unset = ground (arith, found, only, unset)
hup_faults fd writing e c s found only unset = ground (arith, found, only, unset)

-- While there are no contexts, `addEvent` for the descriptors 0 and 1 reads out of bounds: `fd * 1.5`
-- is not behind `fd`.
pub add_event_faults :
    (epoll_ctl : Op → ℕ → Event → Bool) (fd : ℕ) (k : Kind) (cb scheduler : Option ℕ) (fiber : ℕ)
    (s : IoManager)
    → fd < 2
    → s.contexts ≡ []
    → add_event epoll_ctl fd k cb scheduler fiber s ≡ fault
unfolding add_event with_context contexts_resize
add_event_faults epoll_ctl fd k cb scheduler fiber s h e = ground (arith, e)
