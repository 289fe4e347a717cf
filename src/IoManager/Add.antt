-- ===== src/IoManager/Add.antt =====
-- AddEvent and ContextResize (gudov/iomanager.cpp).
use gudov.Common.{take_all}
use gudov.Common.{
  ◌⊎◌, ◌≢◌, inl, inr, ℕ, zero, suc, ◌+◌, ◌-◌, ◌/◌, ◌%◌, ◌^◌, ◌≤◌, ◌<◌, ◌≡◌, refl, sym, ap, subst,
  arith, ◌∙◌,
}
use gudov.Common.{
  Bool, true, false, Option, some, none, List, [], ◌∷◌, ◌++◌, length, get_elem?, set, replicate,
  All,
}
use gudov.Common.{
  if◌then◌else◌, Bool-cases, ltb, All-append, get_elem?-lt, length-append, length-replicate,
}
use gudov.IoManager.{
  Event, no_event, read_event, write_event, EventContext, FdContext, IoManager, returns,
  assert_failed, EpollCtl,
}
use gudov.IoManager.{
  no_context, new_context, epoll_ctl_add, epoll_ctl_mod, has_event, with_event, any_event,
  get_context, put_context,
}
use gudov.IoManager.{
  context_resize, above, may_wait, context_for, is_empty, filled, add_event_to, add_event,
  new_io_manager,
}
use gudov.IoManager.Valid.{
  IsValid, Coherent, Slot, runnable, total, count, bit, put-IsValid, Coherent-at,
}

new-Coherent : (n : ℕ) → All Coherent (replicate n new_context)
new-Coherent zero = tt
new-Coherent (suc n) = (record { reads = refl; writes = refl }, new-Coherent n)

total-append : (xs ys : List FdContext) → total (xs ++ ys) ≡ total xs + total ys
total-append [] ys = omega arith
total-append (x ∷ xs) ys = omega (arith, total-append xs ys)

total-new : (n : ℕ) → total (replicate n new_context) ≡ 0
unfolding count bit
total-new zero = refl
total-new (suc n) = omega (arith, total-new n)

-- Below 2 ^ 31 the cast keeps the size.
above_small : (size fd : ℕ) → size < 2 ^ 31 → above size fd ≡ ltb fd size
unfolding above
above_small size fd h =
    let low : size % 2 ^ 32 ≡ size = omega arith in
    let small : ltb size (2 ^ 31) ≡ true = ground arith in rw (low, small) refl

-- The contexts behind the old ones are new.
behind :
    (cs : List FdContext) (n fd : ℕ) (c : FdContext)
    → length cs ≤ fd
    → get_elem? (cs ++ replicate n new_context) fd ≡ some c
    → some c ≡ some new_context
behind [] zero fd c h e = absurd (cc)
behind [] (suc n) zero c h e = sym e
behind [] (suc n) (suc fd) c h e = behind [] n fd c (omega arith) e
behind (x ∷ cs) n zero c h e = absurd (omega arith)
behind (x ∷ cs) n (suc fd) c h e = behind cs n fd c (omega arith) e

-- The table that AddEvent looks into, with the context it finds: the one that was there, or a new one.
record Room (m : IoManager) (fd : ℕ) : Type 0 where
  table : List FdContext
  runs : context_for fd m.fd_contexts ≡ some table
  context : FdContext
  at : get_elem? table fd ≡ some context
  origin : (get_elem? m.fd_contexts fd ≡ some context) ⊎ (some context ≡ some new_context)
  valid : IsValid (record m { fd_contexts = table })

room :
    (m : IoManager) (fd : ℕ)
    → IsValid m
    → 2 ≤ length m.fd_contexts
    → length m.fd_contexts < 2 ^ 31
    → fd < 1431655766
    → Room m fd
unfolding context_for context_resize
room m fd v two small bound = elim (Bool-cases (ltb fd (length m.fd_contexts))) [
  | inr t ↦
      let past : length m.fd_contexts ≤ fd = ground arith in
      let more = replicate (fd + fd / 2 - length m.fd_contexts) new_context in
      let whole = take_all m.fd_contexts (fd + fd / 2) (omega arith) in
      let size : length (m.fd_contexts ++ more) ≡ fd + fd / 2 = omega (
        arith,
        length-append m.fd_contexts more,
        length-replicate (fd + fd / 2 - length m.fd_contexts) new_context,
      ) in
      let first : above (length m.fd_contexts) fd ≡ false = above_small _ fd small ∙ t in
      let second : above (length (m.fd_contexts ++ more)) fd ≡ true =
        above_small _ fd (omega (arith, size)) ∙ ground (arith, size) in
      let (c, g) = get_elem?-lt (m.fd_contexts ++ more) fd (omega (arith, size)) in
      record {
        table = m.fd_contexts ++ more;
        runs = rw (first, whole, second) refl;
        context = c;
        at = g;
        origin = inr (behind m.fd_contexts (fd + fd / 2 - length m.fd_contexts) fd c past g);
        valid = record {
          coherent = All-append Coherent m.fd_contexts more v.coherent (new-Coherent _);
          pending_lem = omega (
            arith,
            v.pending_lem,
            total-append m.fd_contexts more,
            total-new (fd + fd / 2 - length m.fd_contexts),
          );
          fits = v.fits;
        };
      }
  | inl t ↦
      let first : above (length m.fd_contexts) fd ≡ true = above_small _ fd small ∙ t in
      let (c, g) = get_elem?-lt m.fd_contexts fd (ground arith) in
      record {
        table = m.fd_contexts;
        runs = rw first refl;
        context = c;
        at = g;
        origin = inl g;
        valid = v;
      }
]

-- A registered event is one of the table before the call.
registered :
    (event : Event) (m : IoManager) (fd : ℕ) (c : FdContext)
    → (get_elem? m.fd_contexts fd ≡ some c) ⊎ (some c ≡ some new_context)
    → has_event event c ≡ true
    → get_elem? m.fd_contexts fd ≡ some c
registered event m fd c (inl e) h = e
registered event m fd c (inr e) h = absurd (none_new event h (cc))
  where
    none_new : (event : Event) → has_event event c ≡ true → c ≡ new_context → ⊥
    none_new no_event h e = unfold has_event in cc
    none_new read_event h e = unfold has_event in cc
    none_new write_event h e = unfold has_event in cc

free :
    (event : Event) (c : FdContext)
    → event ≢ no_event
    → Coherent c
    → has_event event c ≡ false
    → get_context event c ≡ some no_context
unfolding has_event get_context
free no_event c n h e = absurd (n refl)
free read_event c n h e =
    let slot : c.read ≡ no_context = subst (λ t. Slot t c.read) e h.reads in ap some slot
free write_event c n h e =
    let slot : c.write ≡ no_context = subst (λ t. Slot t c.write) e h.writes in ap some slot

filled-Slot : (s running : ℕ) (callback : Option ℕ) → Slot true (filled (some s) running callback)
unfolding filled runnable
filled-Slot s running none = (s, refl, refl)
filled-Slot s running (some f) = (s, refl, refl)

added-Coherent :
    (event : Event) (c : FdContext) (s running : ℕ) (callback : Option ℕ)
    → Coherent c
    → Coherent (put_context event (filled (some s) running callback) (with_event event c))
unfolding put_context with_event
added-Coherent no_event c s running callback h = h
added-Coherent read_event c s running callback h = record {
  reads = filled-Slot s running callback;
  writes = h.writes;
}
added-Coherent write_event c s running callback h = record {
  reads = h.reads;
  writes = filled-Slot s running callback;
}

count-added :
    (event : Event) (c : FdContext) (e : EventContext)
    → event ≢ no_event
    → has_event event c ≡ false
    → count (put_context event e (with_event event c)) ≡ suc (count c)
unfolding has_event put_context with_event count bit
count-added no_event c e n h = absurd (n refl)
count-added read_event c e n h = rw h (omega arith)
count-added write_event c e n h = rw h (omega arith)

-- The manager with an event registered, in a table
added : IoManager → List FdContext → ℕ → Event → FdContext → EventContext → IoManager
added m cs fd event c e = record m {
  fd_contexts = set cs fd (put_context event e (with_event event c));
  pending_event_cnt = (m.pending_event_cnt + 1) % 2 ^ 64;
}

added-IsValid :
    (m : IoManager) (cs : List FdContext) (fd : ℕ) (event : Event) (c : FdContext) (s running : ℕ)
    (callback : Option ℕ)
    → IsValid (record m { fd_contexts = cs })
    → get_elem? cs fd ≡ some c
    → event ≢ no_event
    → has_event event c ≡ false
    → m.pending_event_cnt + 1 < 2 ^ 64
    → IsValid (added m cs fd event c (filled (some s) running callback))
unfolding added
added-IsValid m cs fd event c s running callback v at n fresh bound =
    let h = Coherent-at _ fd c v at in
    let more = count-added event c (filled (some s) running callback) n fresh in
    let wrapped : (m.pending_event_cnt + 1) % 2 ^ 64 ≡ m.pending_event_cnt + 1 = omega arith in
    put-IsValid (record m { fd_contexts = cs }) fd c _ ((m.pending_event_cnt + 1) % 2 ^ 64)
      m.scheduled v at (added-Coherent event c s running callback h) (omega (arith, more, wrapped))
      (omega (arith, wrapped))

-- Without a callback the fiber must run.
may_wait-false :
    (callback : Option ℕ) (is_running : Bool)
    → may_wait is_running callback ≡ false
    → (callback ≡ none) × (is_running ≡ false)
may_wait-false none b e = (refl, e)
may_wait-false (some f) b e = absurd (cc)

-- AddEvent of READ or WRITE on a valid IOManager, of a thread that has a scheduler: two of its assertions can
-- fail, that the event is not registered for the file descriptor yet, and, without a callback, that the
-- fiber is running. Otherwise it returns and leaves a valid IOManager, in which nothing was scheduled. The
-- table has two contexts at least and fewer than 2 ^ 31, its count may still grow, and the file descriptor
-- is below 1431655766, from where on fd * 1.5 is not an int.
pub add_event-IsValid :
    (m : IoManager) (epoll_ctl : EpollCtl) (fd : ℕ) (event : Event) (s running : ℕ)
    (is_running : Bool) (callback : Option ℕ)
    → IsValid m
    → 2 ≤ length m.fd_contexts
    → length m.fd_contexts < 2 ^ 31
    → fd < 1431655766
    → event ≢ no_event
    → m.pending_event_cnt + 1 < 2 ^ 64
    → ((add_event epoll_ctl fd event (some s) running is_running callback m ≡ assert_failed)
        × (((c : FdContext) × (get_elem? m.fd_contexts fd ≡ some c) × (has_event event c ≡ true))
            ⊎ ((callback ≡ none) × (is_running ≡ false))))
      ⊎ ((m' : IoManager) × (done : Bool) × (add_event epoll_ctl fd event
              (some s)
              running
              is_running
              callback
              m
            ≡ returns (m', done))
          × IsValid m'
          × (m'.scheduled ≡ m.scheduled))
unfolding add_event add_event_to
add_event-IsValid m epoll_ctl fd event s running is_running callback v two small low n bound =
    let r = room m fd v two small low in
    let h = Coherent-at _ fd r.context r.valid r.at in
    elim (Bool-cases (has_event event r.context)) [
      | inl has ↦ inl (
        rw (r.runs, r.at, has, add_event) refl,
        inl (r.context, registered event m fd r.context r.origin has, has),
      )
      | inr fresh ↦
          elim (Bool-cases (
            epoll_ctl (if any_event r.context then epoll_ctl_mod else epoll_ctl_add) fd
              (with_event event r.context).has_read (with_event event r.context).has_write)) [
                | inl failed ↦ inr (
                    rw (r.runs, r.at, fresh, failed, add_event)
                      (record m { fd_contexts = r.table }, false, refl, r.valid, refl))
                | inr fine ↦ elim (Bool-cases (may_wait is_running callback)) [
                  | inr stopped ↦ inl (
                    rw
                        (
                          r.runs,
                          r.at,
                          fresh,
                          fine,
                          free event r.context n h fresh,
                          stopped,
                          add_event,
                        )
                        (unfold is_empty in refl),
                    inr (may_wait-false callback is_running stopped),
                  )
                  | inl waiting ↦ inr (
                      rw
                        (
                          r.runs,
                          r.at,
                          fresh,
                          fine,
                          free event r.context n h fresh,
                          waiting,
                          add_event,
                        )
                        (
                          added m r.table fd event r.context (filled (some s) running callback),
                          true,
                          unfold is_empty added in refl,
                          added-IsValid m r.table fd event r.context s running callback r.valid r.at
                              n fresh bound,
                          unfold added in refl,
                        ))
                ]
              ]
    ]

-- A new IOManager is valid, with contexts for 32 file descriptors and no event.
new_io_manager-IsValid : IsValid new_io_manager × (length new_io_manager.fd_contexts ≡ 32)
unfolding new_io_manager context_resize
new_io_manager-IsValid = (
  record { coherent = new-Coherent 32; pending_lem = sym (total-new 32); fits = omega arith },
  length-replicate 32 new_context,
)
