-- ===== src/IoManager/Loop.antt =====
-- CancelAll, and the loop of Idle over what epoll_wait reports (gudov/iomanager.cpp).
use gudov.Common.{ℕ, ◌≡◌, ◌⊎◌, inl, inr, refl, arith}
use gudov.Common.{Bool, true, false, not, ◌&&◌, ◌||◌, some, get_elem?}
use gudov.Common.{if◌then◌else◌, Bool-cases, Option-cases}
use gudov.IoManager.{read_event, FdContext, IoManager, returns, assert_failed, EpollCtl}
use gudov.IoManager.{
  epoll_ctl_del, epoll_ctl_mod, any_event, has_event, trigger, trigger_if, trigger_event,
  cancel_all,
}
use gudov.IoManager.{Reported, real_read, real_write, handle_event}
use gudov.IoManager.Valid.{IsValid}
use gudov.IoManager.Laws.{Both, both}

-- CancelAll on a valid IOManager always returns: its assertions hold and no null scheduler is used. It
-- leaves a valid IOManager; when it returns false nothing changed, and when it returns true the file
-- descriptor has no event left.
pub cancel_all-IsValid :
    (m : IoManager) (epoll_ctl : EpollCtl) (fd : ℕ)
    → IsValid m
    → (m' : IoManager) × (done : Bool) × (cancel_all epoll_ctl fd m ≡ returns (m', done))
      × IsValid m'
      × (((done ≡ false) × (m' ≡ m))
          ⊎ ((done ≡ true)
              × ((c' : FdContext) × (get_elem? m'.fd_contexts fd ≡ some c')
                  × (any_event c' ≡ false))))
unfolding cancel_all
cancel_all-IsValid m epoll_ctl fd v = elim (Option-cases (get_elem? m.fd_contexts fd)) [
  | inl e ↦ rw (e, cancel_all) (m, false, refl, v, inl (refl, refl))
  | inr (c, g) ↦ elim (Bool-cases (any_event c)) [
    | inr absent ↦ rw (g, absent, cancel_all) (m, false, refl, v, inl (refl, refl))
    | inl has ↦ elim (Bool-cases (epoll_ctl epoll_ctl_del fd false false)) [
      | inl failed ↦ rw (g, has, failed, cancel_all) (m, false, refl, v, inl (refl, refl))
      | inr fine ↦
          let p = both m fd c c.has_read c.has_write v g (ground arith) (ground arith) in
          let gone = empty p in
          rw (g, has, fine, p.first.runs, p.first.writes, p.second.runs, gone, cancel_all)
            (
              p.second.state,
              true,
              refl,
              p.second.valid,
              inr (refl, (p.second.context, p.second.at, gone)),
            )
    ]
  ]
]
  where
    empty :
        {c : FdContext}
        → (p : Both m fd c c.has_read c.has_write) → any_event p.second.context ≡ false
    empty {c} p = unfold any_event in rw (p.second.reads, p.second.writes) (ground arith)

-- One round of the loop of Idle on a valid IOManager, for a report of a file descriptor whose events
-- are all still registered: the round returns, and leaves a valid IOManager.
pub handle_event-IsValid :
    (m : IoManager) (epoll_ctl : EpollCtl) (fd : ℕ) (r : Reported) (c : FdContext)
    → IsValid m
    → get_elem? m.fd_contexts fd ≡ some c
    → (real_read r c && not c.has_read) ≡ false
    → (real_write r c && not c.has_write) ≡ false
    → (m' : IoManager) × (handle_event epoll_ctl fd r c m ≡ returns m') × IsValid m'
unfolding handle_event
handle_event-IsValid m epoll_ctl fd r c v g hr hw =
    elim (Bool-cases ((c.has_read && real_read r c) || (c.has_write && real_write r c))) [
      | inr idle ↦ rw idle (m, refl, v)
      | inl busy ↦
          elim (Bool-cases (
            epoll_ctl
              (if (c.has_read && not (real_read r c)) || (c.has_write && not (real_write r c))
                then epoll_ctl_mod
                else epoll_ctl_del)
              fd (c.has_read && not (real_read r c)) (c.has_write && not (real_write r c)))) [
                | inl failed ↦ rw (busy, failed) (m, refl, v)
                | inr fine ↦
                    let p = both m fd c (real_read r c) (real_write r c) v g hr hw in
                    rw (busy, fine, p.first.runs, p.second.runs)
                      (p.second.state, refl, p.second.valid)
              ]
    ]

trigger_unregistered :
    (m : IoManager) (fd : ℕ) (c : FdContext)
    → c.has_read ≡ false
    → trigger fd read_event c m ≡ assert_failed
unfolding trigger trigger_event has_event
trigger_unregistered m fd c e = rw (e, trigger, trigger_event) refl

-- When only WRITE is registered for the file descriptor and both EPOLLIN and EPOLLOUT are reported (as
-- when READ was deleted after epoll_wait returned), and epoll_ctl succeeds, the assertion of
-- TriggerEvent(READ) fails: the reported events are not masked by the registered ones.
pub handle_event_stale :
    (m : IoManager) (epoll_ctl : EpollCtl) (fd : ℕ) (r : Reported) (c : FdContext)
    → c.has_read ≡ false
    → c.has_write ≡ true
    → r.epoll_in ≡ true
    → r.epoll_out ≡ true
    → epoll_ctl epoll_ctl_del fd false false ≡ false
    → handle_event epoll_ctl fd r c m ≡ assert_failed
unfolding handle_event real_read real_write trigger_if
handle_event_stale m epoll_ctl fd r c nr w i o fine =
    simp (nr, w, i, o, fine, trigger_unregistered m fd c nr) refl
