-- ===== src/FdManager/Tests.antt =====
-- The theorems about FdManager (gudov/fdmanager.cpp) at a concrete table.
use gudov.Common.{◌≡◌, ◌⊎◌, arith, true, false, some, none, [], ◌∷◌, ◌==◌, if◌then◌else◌}
use gudov.Common.Int.{pos}
use gudov.FdManager.{FdCtx, Fstat, FdTable, at_fd, grow_to, get}
use gudov.FdManager.Laws.{Created, get_cases, grow_to-none}

-- File descriptor 1 is a socket, 2 a file, and no other is open.
abbrev stat : Fstat
stat fd = if fd == 1 then some true else if fd == 2 then some false else none

abbrev socket : FdCtx
socket = record {
  is_init = true;
  is_socket = true;
  sys_nonblock = true;
  user_nonblock = false;
  fd = 1;
  recv_timeout = 500;
  send_timeout = 700;
}

abbrev small : FdTable
small = none ∷ some socket ∷ []

get_cases_example :
    ((c : FdCtx) × (at_fd 2 small ≡ some c) × (get stat (pos 2) true small ≡ some (some c, small)))
    ⊎ (((at_fd 2 small ≡ none)
          × (true ≡ false)
          × (get stat (pos 2) true small ≡ some (none, small)))
        ⊎ ((at_fd 2 small ≡ none)
            × (true ≡ true)
            × Created stat 2 small (get stat (pos 2) true small)))
get_cases_example = get_cases stat 2 true small (omega arith) (omega arith) (omega arith)

grow_to-none_example : grow_to 5 2000000000 small ≡ none
grow_to-none_example = grow_to-none 5 2000000000 small (omega arith) (omega arith) (omega arith)
