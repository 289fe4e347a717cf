-- ===== src/FdManager.antt =====
-- gudov/fdmanager.h, gudov/fdmanager.cpp: the contexts of file descriptors and the table of them.
-- fstat, fcntl and the value of SO_RCVTIMEO are arguments. A table entry is a shared pointer, here the
-- context itself; `none` is nullptr. Get and Del hold the lock for their length, so each is one step.
pub mod Laws
pub mod Tests
use gudov.Common.{
  ltb, ℕ, zero, suc, ◌+◌, ◌-◌, ◌/◌, ◌%◌, ◌^◌, Bool, true, false, not, Option, none, some,
}
use gudov.Common.{List, length, get_elem?, set, take, replicate, ◌++◌, leb, ◌==◌, if◌then◌else◌}
use gudov.Common.Int.{ℤ, pos, negsuc}

pub record FdCtx : Type 0 where
  pub is_init : Bool
  pub is_socket : Bool
  pub sys_nonblock : Bool
  pub user_nonblock : Bool
  pub fd : ℕ
  pub recv_timeout : ℕ
  pub send_timeout : ℕ

-- fstat: `none` is -1, and otherwise whether it is a socket.
abbrev pub Fstat : Type 0
Fstat = ℕ → Option Bool

abbrev pub is_some_socket : Option Bool → Bool
is_some_socket none = false
is_some_socket (some b) = b

abbrev pub succeeded : Option Bool → Bool
succeeded none = false
succeeded (some b) = true

-- Init of a context that is not initialised
unfoldable pub init : Fstat → FdCtx → FdCtx
init fstat c = record c {
  recv_timeout = 2 ^ 64 - 1;
  send_timeout = 2 ^ 64 - 1;
  is_init = succeeded (fstat c.fd);
  is_socket = is_some_socket (fstat c.fd);
  sys_nonblock = is_some_socket (fstat c.fd);
  user_nonblock = false;
}

-- Whether Init sets O_NONBLOCK: on a socket where F_GETFL does not show it.
unfoldable pub sets_nonblock : Fstat → (ℕ → Bool) → ℕ → Bool
sets_nonblock fstat nonblock fd = if is_some_socket (fstat fd) then not (nonblock fd) else false

unfoldable pub new_fd_ctx : Fstat → ℕ → FdCtx
new_fd_ctx fstat fd = init fstat (record {
  is_init = false;
  is_socket = false;
  sys_nonblock = false;
  user_nonblock = false;
  fd = fd;
  recv_timeout = 2 ^ 64 - 1;
  send_timeout = 2 ^ 64 - 1;
})

unfoldable pub set_timeout : ℕ → ℕ → ℕ → FdCtx → FdCtx
set_timeout so_rcvtimeo type v c =
    if type == so_rcvtimeo then record c { recv_timeout = v } else record c { send_timeout = v }

unfoldable pub get_timeout : ℕ → ℕ → FdCtx → ℕ
get_timeout so_rcvtimeo type c = if type == so_rcvtimeo then c.recv_timeout else c.send_timeout

abbrev pub FdTable : Type 0
FdTable = List (Option FdCtx)

-- data_.resize(64)
unfoldable pub new_fd_table : FdTable
new_fd_table = replicate 64 none

-- data_[fd], where that is in range
unfoldable pub at_fd : ℕ → FdTable → Option FdCtx
at_fd fd table = elim (get_elem? table fd) [ none ↦ none | some entry ↦ entry ]

unfoldable pub resize : ℕ → FdTable → FdTable
resize size table = take size table ++ replicate (size - length table) none

-- `fd >= static_cast<int>(size)`: the lowest 32 bits of the size, which are a negative int from 2 ^ 31 on
unfoldable pub reaches : ℕ → ℕ → Bool
reaches fd size = let low : ℕ = size % 2 ^ 32 in if ltb low (2 ^ 31) then leb low fd else true

-- `while (fd >= static_cast<int>(data_.size())) data_.resize(fd * 1.5);` with a bound on its rounds; `none` when they
-- do not do.
unfoldable pub grow_to : ℕ → ℕ → FdTable → Option FdTable
grow_to zero fd table = none
grow_to (suc fuel) fd table =
    let rest = grow_to fuel fd (resize (fd + fd / 2) table) in
    if reaches fd (length table) then rest else some table

-- Get on the write side: a new context is made and stored.
unfoldable pub create : Fstat → ℕ → FdTable → Option (Option FdCtx × FdTable)
create fstat fd table = elim (grow_to 2 fd table) [
  | none ↦ none
  | some grown ↦ some (some (new_fd_ctx fstat fd), set grown fd (some (new_fd_ctx fstat fd)))
]

unfoldable pub get : Fstat → ℤ → Bool → FdTable → Option (Option FdCtx × FdTable)
get fstat (negsuc n) auto_create table = some (none, table)
get fstat (pos fd) auto_create table =
    if leb (length table) fd
    then (if auto_create then create fstat fd table else some (none, table))
    else elim (at_fd fd table) [
      | some ctx ↦ some (some ctx, table)
      | none ↦ if auto_create then create fstat fd table else some (none, table)
    ]

-- Del of a file descriptor that is not negative
unfoldable pub del : ℕ → FdTable → FdTable
del fd table = if leb (length table) fd then table else set table fd none
