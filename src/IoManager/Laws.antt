-- ===== src/IoManager/Laws.antt =====
-- AddEvent, DelEvent, CancelEvent, CancelAll and the event loop of Idle (gudov/iomanager.cpp).
use gudov.Common.{ℕ, ◌+◌, ◌≤◌, ◌≡◌, ◌⊎◌, inl, inr, refl, subst, arith, ◌∙◌}
use gudov.Common.{Bool, true, false, not, ◌&&◌, some, [], ◌∷◌, ◌++◌, get_elem?, set}
use gudov.Common.{Bool-cases, Option-cases, sub64, sub64-eq_sub}
use gudov.IoManager.{Event, read_event, write_event, FdContext, IoManager, Task, returns, EpollCtl}
use gudov.IoManager.{
  has_event, without_event, op_left, put_context, trigger_if, cancel_event, del_event,
}
use gudov.IoManager.Valid.{
  IsValid, cleared, Coherent-at, put-IsValid, cleared-Coherent, count-cleared, count-le-total,
  triggered,
}

-- DelEvent on a valid IOManager returns, and leaves it valid; it schedules nothing.
del_event-IsValid :
    (m : IoManager) (epoll_ctl : EpollCtl) (fd : ℕ) (event : Event)
    → IsValid m
    → (m' : IoManager) × (done : Bool) × (del_event epoll_ctl fd event m ≡ returns (m', done))
      × IsValid m'
      × (m'.scheduled ≡ m.scheduled)
unfolding del_event
del_event-IsValid m epoll_ctl fd event v = elim (Option-cases (get_elem? m.fd_contexts fd)) [
  | inl e ↦ rw (e, del_event) (m, false, refl, v, refl)
  | inr (c, g) ↦ elim (Bool-cases (has_event event c)) [
    | inr absent ↦ rw (g, absent, del_event) (m, false, refl, v, refl)
    | inl has ↦
        elim (Bool-cases (
          epoll_ctl (op_left (without_event event c)) fd (without_event event c).has_read
            (without_event event c).has_write)) [
              | inl failed ↦ rw (g, has, failed, del_event) (m, false, refl, v, refl)
              | inr fine ↦
                  rw (g, has, fine, del_event)
                    (
                      record m {
                        fd_contexts = set m.fd_contexts fd (cleared event c);
                        pending_event_cnt = sub64 m.pending_event_cnt 1;
                      },
                      true,
                      refl,
                      removed c g has,
                      refl,
                    )
            ]
  ]
]
  where
    removed :
        (c : FdContext)
        → get_elem? m.fd_contexts fd ≡ some c
        → has_event event c ≡ true
        → IsValid (record m {
          fd_contexts = set m.fd_contexts fd (cleared event c);
          pending_event_cnt = sub64 m.pending_event_cnt 1;
        })
    removed c g has =
        let fewer = count-cleared event c has in
        let some_pending : 1 ≤ m.pending_event_cnt =
          omega (arith, fewer, count-le-total m.fd_contexts fd c g, v.pending_lem) in
        let less_one = sub64-eq_sub m.pending_event_cnt 1 some_pending v.fits in
        put-IsValid m fd c (cleared event c) (sub64 m.pending_event_cnt 1) m.scheduled v g
          (cleared-Coherent event c (Coherent-at m fd c v g)) (omega (arith, less_one, fewer))
          (omega (arith, less_one, v.fits))

-- CancelEvent on a valid IOManager always returns: no assertion of TriggerEvent fails, and no null
-- scheduler is used. It leaves a valid IOManager; when it returns true, one task was scheduled and one
-- event less is pending, and when it returns false nothing changed.
pub cancel_event-IsValid :
    (m : IoManager) (epoll_ctl : EpollCtl) (fd : ℕ) (event : Event)
    → IsValid m
    → (m' : IoManager) × (done : Bool) × (cancel_event epoll_ctl fd event m ≡ returns (m', done))
      × IsValid m'
      × (((done ≡ false) × (m' ≡ m))
          ⊎ ((done ≡ true)
              × (m'.pending_event_cnt + 1 ≡ m.pending_event_cnt)
              × ((t : Task) × (m'.scheduled ≡ m.scheduled ++ (t ∷ [])))))
unfolding cancel_event
cancel_event-IsValid m epoll_ctl fd event v = elim (Option-cases (get_elem? m.fd_contexts fd)) [
  | inl e ↦ rw (e, cancel_event) (m, false, refl, v, inl (refl, refl))
  | inr (c, g) ↦ elim (Bool-cases (has_event event c)) [
    | inr absent ↦ rw (g, absent, cancel_event) (m, false, refl, v, inl (refl, refl))
    | inl has ↦
        elim (Bool-cases (
          epoll_ctl (op_left (without_event event c)) fd (without_event event c).has_read
            (without_event event c).has_write)) [
              | inl failed ↦ rw (g, has, failed, cancel_event) (m, false, refl, v, inl (refl, refl))
              | inr fine ↦
                  let t = triggered m fd event c v g has in
                  rw (g, has, fine, t.runs, cancel_event)
                    (t.state, true, refl, t.valid, inr (refl, t.pending, (t.task, t.scheduled)))
            ]
  ]
]

-- A guarded trigger: the context it leaves, and its flags.
pub record Went (m : IoManager) (fd : ℕ) (event : Event) (c : FdContext) (b r w : Bool)
    : Type 0 where
  pub state : IoManager
  pub context : FdContext
  pub runs : trigger_if b fd event (m, c) ≡ returns (state, context)
  pub valid : IsValid state
  pub at : get_elem? state.fd_contexts fd ≡ some context
  pub reads : context.has_read ≡ r
  pub writes : context.has_write ≡ w

module _ (m : IoManager) (fd : ℕ) (c : FdContext) (v : IsValid m)
    (g : get_elem? m.fd_contexts fd ≡ some c) where
  stays : (event : Event) → Went m fd event c false c.has_read c.has_write
  unfolding trigger_if
  stays event = record {
    state = m;
    context = c;
    runs = refl;
    valid = v;
    at = g;
    reads = refl;
    writes = refl;
  }

  triggers_read : c.has_read ≡ true → Went m fd read_event c true false c.has_write
  unfolding trigger_if
  triggers_read e =
      let t = triggered m fd read_event c v g (unfold has_event in e) in
      record {
        state = t.state;
        context = cleared read_event c;
        runs = t.runs;
        valid = t.valid;
        at = t.at;
        reads = unfold put_context without_event in refl;
        writes = unfold put_context without_event in refl;
      }

  triggers_write : c.has_write ≡ true → Went m fd write_event c true c.has_read false
  unfolding trigger_if
  triggers_write e =
      let t = triggered m fd write_event c v g (unfold has_event in e) in
      record {
        state = t.state;
        context = cleared write_event c;
        runs = t.runs;
        valid = t.valid;
        at = t.at;
        reads = unfold put_context without_event in refl;
        writes = unfold put_context without_event in refl;
      }

-- Both guards in turn, each true only where its event is registered.
pub record Both (m : IoManager) (fd : ℕ) (c : FdContext) (b d : Bool) : Type 0 where
  pub first : Went m fd read_event c b (c.has_read && not b) c.has_write
  pub second :
      Went first.state fd write_event first.context d (c.has_read && not b) (c.has_write && not d)

pub both :
    (m : IoManager) (fd : ℕ) (c : FdContext) (b d : Bool)
    → IsValid m
    → get_elem? m.fd_contexts fd ≡ some c
    → (b && not c.has_read) ≡ false
    → (d && not c.has_write) ≡ false
    → Both m fd c b d
both m fd c b d v g hb hd = record { first = one b hb; second = two (one b hb) d hd }
  where
    one :
        (b : Bool)
        → (b && not c.has_read) ≡ false
        → Went m fd read_event c b (c.has_read && not b) c.has_write
    one false h =
        subst (λ r. Went m fd read_event c false r c.has_write) (ground arith)
          (stays m fd c v g read_event)
    one true h =
        let e : c.has_read ≡ true = ground (arith, h) in
        subst (λ r. Went m fd read_event c true r c.has_write) (ground arith)
          (triggers_read m fd c v g e)

    two :
        {b : Bool}
        → (p : Went m fd read_event c b (c.has_read && not b) c.has_write) → (d : Bool)
        → (d && not c.has_write) ≡ false
        → Went p.state fd write_event p.context d (c.has_read && not b) (c.has_write && not d)
    two p false h =
        let q = stays p.state fd p.context p.valid p.at write_event in
        record {
          state = q.state;
          context = q.context;
          runs = q.runs;
          valid = q.valid;
          at = q.at;
          reads = q.reads ∙ p.reads;
          writes = q.writes ∙ p.writes ∙ ground arith;
        }
    two p true h =
        let e : c.has_write ≡ true = ground (arith, h) in
        let q = triggers_write p.state fd p.context p.valid p.at (p.writes ∙ e) in
        record {
          state = q.state;
          context = q.context;
          runs = q.runs;
          valid = q.valid;
          at = q.at;
          reads = q.reads ∙ p.reads;
          writes = q.writes ∙ ground arith;
        }
