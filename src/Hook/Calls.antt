-- ===== src/Hook/Calls.antt =====
-- The sleeps, fcntl and connect of gudov/hook.cpp.
use gudov.Common.{ℕ, ◌*◌, ◌<◌, ◌≡◌, ◌⊎◌, leb, refl, inl, inr, arith}
use gudov.Common.{Bool, true, false, not, ◌||◌, Bool-cases, Option, none, some}
use gudov.Common.Int.{pos}
use gudov.FdManager.{FdCtx}
use gudov.Hook.{failed, connect_with_timeout, sleep_timer, fcntl_setfl, fcntl_getfl}

-- The timer of a sleep is as long as it was asked for up to 4,294,967 seconds, and too short for any
-- longer sleep.
sleep_timer_lem :
    (seconds : ℕ)
    → ((seconds < 4294968) × (sleep_timer seconds ≡ seconds * 1000))
      ⊎ ((4294967 < seconds) × (sleep_timer seconds < seconds * 1000))
unfolding sleep_timer
sleep_timer_lem seconds = elim (Bool-cases (leb seconds 4294967)) [
  | inl t ↦ inl (ground arith, ground arith)
  | inr t ↦ inr (ground arith, ground arith)
]

-- O_NONBLOCK is what the program set, on any descriptor: F_GETFL reports what F_SETFL was given, whether
-- the descriptor is hooked or not, when the kernel reports what it was given itself. On a socket that is
-- known and open the kernel is given the system's own flag.
fcntl_getfl-fcntl_setfl :
    (nonblock closed : Bool) (ctx : Option FdCtx)
    → fcntl_getfl (fcntl_setfl nonblock closed ctx).0 closed (fcntl_setfl nonblock closed ctx).1
      ≡ nonblock
unfolding fcntl_getfl fcntl_setfl
fcntl_getfl-fcntl_setfl nonblock closed none = refl
fcntl_getfl-fcntl_setfl nonblock closed (some ctx) =
    elim (Bool-cases (closed || not ctx.is_socket)) [
      | inl t ↦ rw (t, t) refl
      | inr t ↦ rw t (rw t refl)
    ]

-- A connect that is in progress and cannot be waited for, since AddEvent fails, is reported as done: SO_ERROR
-- is 0 then, and the result is 0 as it is for a connection that was made.
connect_with_timeout_lem :
    (ctx : FdCtx) (timeout : ℕ) (expired : Bool)
    → ctx.is_socket ≡ true
    → ctx.user_nonblock ≡ false
    → connect_with_timeout true false (some ctx) (failed 115) true expired (some 0) timeout
      ≡ connect_with_timeout true false
          (some ctx)
          (record { value = pos 0; errno = 0 })
          false
          expired
          (some 0)
          timeout
unfolding connect_with_timeout
connect_with_timeout_lem ctx timeout expired s u = rw (s, u) refl
