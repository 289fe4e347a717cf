-- ===== src/Hook/Laws.antt =====
-- What the hooked calls of gudov/hook.cpp answer, and what they leave behind.
use gudov.Common.{ℕ, zero, suc, ◌+◌, ◌<◌, ◌≡◌, refl, ap, ◌∙◌, arith}
use gudov.Common.{
  Bool, true, false, not, ◌&&◌, ◌||◌, if◌then◌else◌, Option, none, some, List, [], ◌∷◌, ◌++◌,
}
use gudov.FdManager.{FdCtx, get_timeout}
use gudov.Hook.{
  Answer, interrupted, would_block, Action, calls, adds_timer, adds_event, yields, cancels_timer,
  limited,
}
use gudov.Hook.{unregistered, failed, timer_added, timer_cancelled, prefixed, try_io, do_io}

-- How many timers the actions add, and how many they cancel
unfoldable pub added : List Action → ℕ
added [] = 0
added (adds_timer t ∷ xs) = suc (added xs)
added (calls ∷ xs) = added xs
added (adds_event ∷ xs) = added xs
added (yields ∷ xs) = added xs
added (cancels_timer ∷ xs) = added xs

unfoldable pub cancelled : List Action → ℕ
cancelled [] = 0
cancelled (cancels_timer ∷ xs) = suc (cancelled xs)
cancelled (calls ∷ xs) = cancelled xs
cancelled (adds_event ∷ xs) = cancelled xs
cancelled (yields ∷ xs) = cancelled xs
cancelled (adds_timer t ∷ xs) = cancelled xs

-- As many timers were cancelled as added, where there is a result.
abbrev pub Balanced : Option (Answer × List Action) → Type 0
Balanced none = Unit
Balanced (some (a, actions)) = cancelled actions ≡ added actions

module _ (call : ℕ → Answer) (event_fails : ℕ → Bool) (event_errno : ℕ → ℕ)
    (expired : ℕ → Bool) where
  -- One turn of the loops, by what its tests say
  step :
      (again blocks fails late : Bool)
      → ℕ
      → ℕ
      → Option (Answer × List Action)
      → Option (Answer × List Action)
  step again blocks fails late timeout n rest =
      let waited =
        calls ∷ (timer_added timeout ++ (adds_event ∷ yields ∷ timer_cancelled timeout)) in
      if again
      then prefixed (calls ∷ []) rest
      else if not blocks
      then some (call n, calls ∷ [])
      else if fails
      then some (
        unregistered call event_fails event_errno expired n,
        calls ∷ (timer_added timeout ++ (adds_event ∷ timer_cancelled timeout)),
      )
      else if late
      then some (failed 110, waited)
      else prefixed waited rest

  try_io-step :
      (fuel timeout n : ℕ)
      → try_io call event_fails event_errno expired (suc fuel) timeout n
        ≡ step
            (interrupted (call n))
            (would_block (call n))
            (event_fails n)
            (limited timeout && expired n)
            timeout
            n
            (try_io call event_fails event_errno expired fuel timeout (suc n))
  unfolding try_io step
  try_io-step fuel timeout n = refl

  step-Balanced :
      (again blocks fails late : Bool) (timeout n : ℕ) (rest : Option (Answer × List Action))
      → Balanced rest
      → Balanced (step again blocks fails late timeout n rest)
  unfolding step
  step-Balanced true blocks fails late timeout n none h = tt
  step-Balanced true blocks fails late timeout n (some (a, xs)) h = unfold added cancelled in h
  step-Balanced false false fails late timeout n rest h = unfold added cancelled in refl
  step-Balanced false true true late timeout n rest h =
      unfold added cancelled in timed (limited timeout)
    where
      timed :
          (b : Bool)
          → cancelled (
              (if b then adds_timer timeout ∷ [] else [])
              ++ (adds_event ∷ (if b then cancels_timer ∷ [] else [])))
            ≡ added (
                (if b then adds_timer timeout ∷ [] else [])
                ++ (adds_event ∷ (if b then cancels_timer ∷ [] else [])))
      timed true = unfold added cancelled in refl
      timed false = unfold added cancelled in refl
  step-Balanced false true false true timeout n rest h =
      unfold added cancelled in timed (limited timeout)
    where
      timed :
          (b : Bool)
          → cancelled (
              (if b then adds_timer timeout ∷ [] else [])
              ++ (adds_event ∷ yields ∷ (if b then cancels_timer ∷ [] else [])))
            ≡ added (
                (if b then adds_timer timeout ∷ [] else [])
                ++ (adds_event ∷ yields ∷ (if b then cancels_timer ∷ [] else [])))
      timed true = unfold added cancelled in refl
      timed false = unfold added cancelled in refl
  step-Balanced false true false false timeout n none h = tt
  step-Balanced false true false false timeout n (some (a, xs)) h =
      unfold added cancelled in timed (limited timeout)
    where
      timed :
          (b : Bool)
          → cancelled (
              ((if b then adds_timer timeout ∷ [] else [])
                ++ (adds_event ∷ yields ∷ (if b then cancels_timer ∷ [] else [])))
              ++ xs)
            ≡ added (
                ((if b then adds_timer timeout ∷ [] else [])
                  ++ (adds_event ∷ yields ∷ (if b then cancels_timer ∷ [] else [])))
                ++ xs)
      timed true = unfold added cancelled in ap suc h
      timed false = unfold added cancelled in h

  try_io-Balanced :
      (fuel timeout n : ℕ) → Balanced (try_io call event_fails event_errno expired fuel timeout n)
  try_io-Balanced zero timeout n = unfold try_io in tt
  try_io-Balanced (suc fuel) timeout n = rw (try_io-step fuel timeout n) (
      step-Balanced (interrupted (call n)) (would_block (call n)) (event_fails n)
        (limited timeout && expired n) timeout n
        (try_io call event_fails event_errno expired fuel timeout (suc n))
        (try_io-Balanced fuel timeout (suc n)))

  -- A hooked call that has answered has cancelled every timer that it added, whatever the system calls, the
  -- event loop and the timers did, and however often it was repeated.
  pub do_io-Balanced :
      (fuel so_rcvtimeo timeout_so : ℕ) (hook_enable closed : Bool) (ctx : Option FdCtx)
      → Balanced (
          do_io call event_fails event_errno expired fuel hook_enable closed so_rcvtimeo timeout_so
            ctx)
  unfolding do_io
  do_io-Balanced fuel so_rcvtimeo timeout_so hook_enable closed none =
      unfold added cancelled in refl
  do_io-Balanced fuel so_rcvtimeo timeout_so hook_enable closed (some ctx) =
      go (not hook_enable) closed (not ctx.is_socket || ctx.user_nonblock)
    where
      once : Balanced (some (call 0, calls ∷ []))
      once = unfold added cancelled in refl

      go :
          (off shut plain : Bool)
          → Balanced (
              if off
              then some (call 0, calls ∷ [])
              else if shut
              then some (failed 9, [])
              else if plain
              then some (call 0, calls ∷ [])
              else try_io call event_fails event_errno expired fuel
                  (get_timeout so_rcvtimeo timeout_so ctx)
                  0)
      go true shut plain = once
      go false true plain = unfold added cancelled in refl
      go false false true = once
      go false false false = try_io-Balanced fuel (get_timeout so_rcvtimeo timeout_so ctx) 0

  -- Whether the call goes on after its n-th try
  abbrev pub goes_on : ℕ → ℕ → Bool
  goes_on timeout n =
      interrupted (call n)
      || (would_block (call n) && (not (event_fails n) && not (limited timeout && expired n)))

  -- Its last try answers: with what the system call did, with that and the errno that a failed AddEvent
  -- left, or that the wait was too long
  abbrev pub last_answer : ℕ → ℕ → Answer
  last_answer timeout n =
      if interrupted (call n) || not (would_block (call n))
      then call n
      else if event_fails n
      then record { value = (call n).value; errno = event_errno n }
      else failed 110

  abbrev pub answer_of : Option (Answer × List Action) → Option Answer
  answer_of none = none
  answer_of (some (a, actions)) = some a

  step-answer :
      (again blocks fails late : Bool) (timeout n : ℕ) (rest : Option (Answer × List Action))
      → answer_of (step again blocks fails late timeout n rest) ≡ (
          if again || (blocks && (not fails && not late))
          then answer_of rest
          else some (
              if again || not blocks
              then call n
              else if fails
              then unregistered call event_fails event_errno expired n
              else failed 110))
  unfolding step
  step-answer true blocks fails late timeout n none = refl
  step-answer true blocks fails late timeout n (some r) = refl
  step-answer false false fails late timeout n rest = refl
  step-answer false true true late timeout n rest = refl
  step-answer false true false true timeout n rest = refl
  step-answer false true false false timeout n none = refl
  step-answer false true false false timeout n (some r) = refl

  -- A hooked call is repeated as long as it is interrupted, or would block and its wait neither fails nor
  -- takes longer than its timeout; then it answers, in one turn more, with what the last system call did;
  -- with the value of that call and the errno that AddEvent left, if that failed; or with -1 and ETIMEDOUT, if the wait took too
  -- long.
  pub try_io-answer :
      (tries fuel timeout n : ℕ)
      → ((i : ℕ) → i < tries → goes_on timeout (n + i) ≡ true)
      → goes_on timeout (n + tries) ≡ false
      → tries < fuel
      → answer_of (try_io call event_fails event_errno expired fuel timeout n)
        ≡ some (last_answer timeout (n + tries))
  try_io-answer tries zero timeout n h e lt = absurd (omega arith)
  try_io-answer zero (suc fuel) timeout n h e lt =
      let z : n + 0 ≡ n = omega arith in
      let f : goes_on timeout n ≡ false = rw⁻¹ z e in
      rw (z, try_io-step fuel timeout n)
        (step-answer (interrupted (call n)) (would_block (call n)) (event_fails n)
            (limited timeout && expired n) timeout n
            (try_io call event_fails event_errno expired fuel timeout (suc n))
          ∙ rw f refl)
  try_io-answer (suc tries) (suc fuel) timeout n h e lt =
      let z : n + suc tries ≡ suc n + tries = omega arith in
      let start : n + 0 ≡ n = omega arith in
      let f : goes_on timeout n ≡ true = rw⁻¹ start (h 0 (omega arith)) in
      let shifted : (i : ℕ) → i < tries → goes_on timeout (suc n + i) ≡ true =
        λ i k. let y : n + suc i ≡ suc n + i = omega arith in rw⁻¹ y (h (suc i) (omega arith)) in
      let g : goes_on timeout (suc n + tries) ≡ false = rw⁻¹ z e in
      rw (z, try_io-step fuel timeout n)
        (step-answer (interrupted (call n)) (would_block (call n)) (event_fails n)
            (limited timeout && expired n) timeout n
            (try_io call event_fails event_errno expired fuel timeout (suc n))
          ∙ rw f (try_io-answer tries fuel timeout (suc n) shifted g (omega arith)))
