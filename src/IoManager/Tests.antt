-- ===== src/IoManager/Tests.antt =====
-- The theorems about IOManager (gudov/iomanager.cpp) at a concrete table of contexts.
use gudov.Common.{
  Option, ℕ, ◌&&◌, ◌+◌, ◌≡◌, ◌≢◌, ◌⊎◌, refl, arith, Bool, true, false, some, none, [], ◌∷◌, ◌++◌,
  get_elem?,
}
use gudov.IoManager.{
  no_event, read_event, write_event, FdContext, IoManager, Task, EpollCtl, returns, assert_failed,
}
use gudov.IoManager.{no_context, new_context, has_event, any_event, add_event, cancel_event}
use gudov.IoManager.{cancel_all, Reported, real_read, real_write, handle_event}
use gudov.IoManager.Valid.{IsValid, runnable, count, bit}
use gudov.IoManager.Laws.{cancel_event-IsValid}
use gudov.IoManager.Loop.{cancel_all-IsValid, handle_event-IsValid, handle_event_stale}
use gudov.IoManager.Add.{add_event-IsValid}

abbrev epoll_succeeds : EpollCtl
epoll_succeeds op fd r w = false

-- READ by a fiber and WRITE by a callback.
abbrev busy : FdContext
busy = record {
  read = record { scheduler = some 1; fiber = some 5; callback = none };
  write = record { scheduler = some 1; fiber = none; callback = some 6 };
  has_read = true;
  has_write = true;
}

-- WRITE only
abbrev writing : FdContext
writing = record busy { read = no_context; has_read = false }

abbrev table : IoManager
table = record {
  fd_contexts = new_context ∷ busy ∷ writing ∷ [];
  pending_event_cnt = 3;
  scheduled = [];
}

table-IsValid : IsValid table
unfolding runnable count bit
table-IsValid = record {
  coherent = (
    record { reads = refl; writes = refl },
    (
      record { reads = (1, refl, refl); writes = (1, refl, refl) },
      (record { reads = refl; writes = (1, refl, refl) }, tt),
    ),
  );
  pending_lem = refl;
  fits = omega arith;
}

read-ne-no_event : read_event ≢ no_event
read-ne-no_event e = cc

-- An error on the file descriptor of `busy`
abbrev hang_up : Reported
hang_up = record { epoll_in = false; epoll_out = false; epoll_err = false; epoll_hup = true }

abbrev both_ready : Reported
both_ready = record { epoll_in = true; epoll_out = true; epoll_err = false; epoll_hup = false }

add_event-IsValid_example :
    ((add_event epoll_succeeds 40 read_event (some 1) 9 true none table ≡ assert_failed)
      × (((c : FdContext) × (get_elem? table.fd_contexts 40 ≡ some c)
            × (has_event read_event c ≡ true))
          ⊎ ((◌≡◌ {A = Option ℕ} none none) × (true ≡ false))))
    ⊎ ((m' : IoManager) × (done : Bool) × (add_event epoll_succeeds 40 read_event
            (some 1)
            9
            true
            none
            table
          ≡ returns (m', done))
        × IsValid m'
        × (m'.scheduled ≡ []))
add_event-IsValid_example =
    add_event-IsValid table epoll_succeeds 40 read_event 1 9 true none table-IsValid (omega arith)
      (omega arith) (omega arith) read-ne-no_event (omega arith)

cancel_event-IsValid_example :
    (m' : IoManager) × (done : Bool) × (cancel_event epoll_succeeds 1 write_event table
      ≡ returns (m', done))
    × IsValid m'
    × (((done ≡ false) × (m' ≡ table))
        ⊎ ((done ≡ true)
            × (m'.pending_event_cnt + 1 ≡ 3)
            × ((t : Task) × (m'.scheduled ≡ [] ++ (t ∷ [])))))
cancel_event-IsValid_example = cancel_event-IsValid table epoll_succeeds 1 write_event table-IsValid

cancel_all-IsValid_example :
    (m' : IoManager) × (done : Bool) × (cancel_all epoll_succeeds 1 table ≡ returns (m', done))
    × IsValid m'
    × (((done ≡ false) × (m' ≡ table))
        ⊎ ((done ≡ true)
            × ((c' : FdContext) × (get_elem? m'.fd_contexts 1 ≡ some c') × (any_event c' ≡ false))))
cancel_all-IsValid_example = cancel_all-IsValid table epoll_succeeds 1 table-IsValid

reads_registered : (real_read hang_up busy && false) ≡ false
unfolding real_read
reads_registered = refl

writes_registered : (real_write hang_up busy && false) ≡ false
unfolding real_write
writes_registered = refl

handle_event-IsValid_example :
    (m' : IoManager) × (handle_event epoll_succeeds 1 hang_up busy table ≡ returns m') × IsValid m'
handle_event-IsValid_example =
    handle_event-IsValid table epoll_succeeds 1 hang_up busy table-IsValid refl reads_registered
      writes_registered

handle_event_stale_example : handle_event epoll_succeeds 2 both_ready writing table ≡ assert_failed
handle_event_stale_example =
    handle_event_stale table epoll_succeeds 2 both_ready writing refl refl refl refl refl
