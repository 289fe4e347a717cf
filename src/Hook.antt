-- ===== src/Hook.antt =====
-- gudov/hook.cpp: doIO, connectWithTimeout, the sleeps, fcntl, ioctl and setsockopt. What the system calls
-- answer, whether AddEvent fails and the errno that it then leaves, and whether the timer of a wait has gone off before the fiber is resumed
-- are parameters, by the number of the call; so is whether the descriptor is closed, which IsClose asks the
-- kernel. The numbers of errno are those of Linux.
pub mod Laws
pub mod Calls
mod Tests
use gudov.Common.{
  ℕ, zero, suc, ◌+◌, ◌*◌, ◌/◌, ◌%◌, ◌==◌, Bool, true, false, not, ◌&&◌, ◌||◌, if◌then◌else◌,
}
use gudov.Common.{Option, none, some, List, [], ◌∷◌, ◌++◌}
use gudov.Common.Int.{ℤ, pos, negsuc}
use gudov.FdManager.{FdCtx, get_timeout, set_timeout}

-- What a system call returned, and errno
pub record Answer : Type 0 where
  pub value : ℤ
  pub errno : ℕ

abbrev pub is_failure : ℤ → Bool
is_failure (pos n) = false
is_failure (negsuc zero) = true
is_failure (negsuc (suc n)) = false

abbrev pub interrupted : Answer → Bool
interrupted a = is_failure a.value && a.errno == 4

abbrev pub would_block : Answer → Bool
would_block a = is_failure a.value && a.errno == 11

-- What a hooked call does, in order
pub data Action : Type 0 where
  calls : Action
  adds_timer : ℕ → Action
  adds_event : Action
  yields : Action
  cancels_timer : Action

-- `timeout != (uint64_t)-1`
abbrev pub limited : ℕ → Bool
limited timeout = not (timeout == 18446744073709551615)

abbrev pub failed : ℕ → Answer
failed errno = record { value = negsuc 0; errno = errno }

abbrev pub timer_added : ℕ → List Action
timer_added timeout = if limited timeout then adds_timer timeout ∷ [] else []

abbrev pub timer_cancelled : ℕ → List Action
timer_cancelled timeout = if limited timeout then cancels_timer ∷ [] else []

abbrev pub prefixed : List Action → Option (Answer × List Action) → Option (Answer × List Action)
prefixed front none = none
prefixed front (some (a, actions)) = some (a, front ++ actions)

module _ (call : ℕ → Answer) (event_fails : ℕ → Bool) (event_errno : ℕ → ℕ)
    (expired : ℕ → Bool) where
  -- What doIO returns when AddEvent has failed: -1, and the errno that epoll_ctl, the log and Cancel left
  abbrev pub unregistered : ℕ → Answer
  unregistered n = record { value = (call n).value; errno = event_errno n }

  -- The loops of doIO from `retry` on: `none` while they still run, and otherwise the answer, with what was
  -- done.
  unfoldable pub try_io : ℕ → ℕ → ℕ → Option (Answer × List Action)
  try_io zero timeout n = none
  try_io (suc fuel) timeout n =
      let rest = try_io fuel timeout (suc n) in
      let waited =
        calls ∷ (timer_added timeout ++ (adds_event ∷ yields ∷ timer_cancelled timeout)) in
      if interrupted (call n)
      then prefixed (calls ∷ []) rest
      else if not (would_block (call n))
      then some (call n, calls ∷ [])
      else if event_fails n
      then some
          (unregistered n, calls ∷ (timer_added timeout ++ (adds_event ∷ timer_cancelled timeout)))
      else if limited timeout && expired n
      then some (failed 110, waited)
      else prefixed waited rest

  unfoldable pub do_io : ℕ → Bool → Bool → ℕ → ℕ → Option FdCtx → Option (Answer × List Action)
  do_io fuel hook_enable closed so_rcvtimeo timeout_so none = some (call 0, calls ∷ [])
  do_io fuel hook_enable closed so_rcvtimeo timeout_so (some ctx) =
      if not hook_enable
      then some (call 0, calls ∷ [])
      else if closed
      then some (failed 9, [])
      else if not ctx.is_socket || ctx.user_nonblock
      then some (call 0, calls ∷ [])
      else try_io fuel (get_timeout so_rcvtimeo timeout_so ctx) 0

-- connectWithTimeout: `answer` is connect's, `event_fails` AddEvent's, and `so_error` what getsockopt gives
-- for SO_ERROR, `none` when it fails; its errno is left out then.
unfoldable pub connect_with_timeout :
    Bool → Bool → Option FdCtx → Answer → Bool → Bool → Option ℕ → ℕ → Answer
connect_with_timeout hook_enable closed ctx answer event_fails expired so_error timeout =
    let checked : Answer = elim so_error [
      | none ↦ failed 0
      | some zero ↦ record { value = pos 0; errno = 0 }
      | some (suc e) ↦ failed (suc e)
    ] in
    if not hook_enable then answer else elim ctx [
      | none ↦ failed 9
      | some c ↦
          (if closed
            then failed 9
            else if not c.is_socket || c.user_nonblock
            then answer
            else if not (is_failure answer.value && answer.errno == 115)
            then answer
            else if not event_fails && (limited timeout && expired)
            then failed 110
            else checked)
    ]

-- The timers of the sleeps, in milliseconds: `seconds * 1000` is on 32 bits.
unfoldable pub sleep_timer : ℕ → ℕ
sleep_timer seconds = seconds * 1000 % 4294967296

unfoldable pub usleep_timer : ℕ → ℕ
usleep_timer usec = usec / 1000

-- tv_sec and tv_nsec that are not negative and do not leave an int
unfoldable pub nanosleep_timer : ℕ → ℕ → ℕ
nanosleep_timer sec nsec = sec * 1000 + nsec / 1000000

-- fcntl with F_SETFL: the O_NONBLOCK that the kernel gets, and the context
unfoldable pub fcntl_setfl : Bool → Bool → Option FdCtx → Bool × Option FdCtx
fcntl_setfl nonblock closed none = (nonblock, none)
fcntl_setfl nonblock closed (some ctx) =
    if closed || not ctx.is_socket
    then (nonblock, some ctx)
    else (ctx.sys_nonblock, some (record ctx { user_nonblock = nonblock }))

-- fcntl with F_GETFL: the O_NONBLOCK that the caller gets, `kernel` being the kernel's
unfoldable pub fcntl_getfl : Bool → Bool → Option FdCtx → Bool
fcntl_getfl kernel closed none = kernel
fcntl_getfl kernel closed (some ctx) =
    if closed || not ctx.is_socket then kernel else ctx.user_nonblock

-- ioctl with FIONBIO
unfoldable pub ioctl_fionbio : Bool → Bool → Option FdCtx → Option FdCtx
ioctl_fionbio nonblock closed none = none
ioctl_fionbio nonblock closed (some ctx) =
    if closed || not ctx.is_socket then some ctx else some (record ctx { user_nonblock = nonblock })

-- setsockopt with SO_RCVTIMEO or SO_SNDTIMEO on SOL_SOCKET
unfoldable pub setsockopt_timeout : Bool → ℕ → ℕ → ℕ → ℕ → Option FdCtx → Option FdCtx
setsockopt_timeout hook_enable so_rcvtimeo optname sec usec none = none
setsockopt_timeout hook_enable so_rcvtimeo optname sec usec (some ctx) =
    if not hook_enable
    then some ctx
    else some (set_timeout so_rcvtimeo optname (sec * 1000 + usec / 1000) ctx)
