-- ===== src/ThreadPool/DynamicPool/Views.antt =====
-- DynamicThreadPool: what the places of the calls and the threads say.
use database_concurrency_con.Prelude.{
  ℕ, ◌≡◌, ◌≢◌, Bool, true, false, not, Option, none, some, refl, arith,
}
use database_concurrency_con.ThreadPool.DynamicPool.{
  Call, unmade, returned, failed, counting, asserting, setting, signalling, deciding,
  unlocking_call, Stage, starting, testing, dozing, asleep, woken, unlocking, running, clearing,
  pushing, signalled, Use, uncreated, cleared, idle, reserved, loaded,
}

-- The `task_` of a thread in use.
abbrev pub slot : Use → Option ℕ
slot uncreated = none
slot cleared = none
slot idle = none
slot (reserved t) = none
slot (loaded t) = some t

-- The thread that a call has before it gives it the task.
abbrev pub reserving : Call → Option ℕ
reserving unmade = none
reserving returned = none
reserving failed = none
reserving (counting i) = some i
reserving (asserting i) = some i
reserving (setting i) = some i
reserving (signalling i) = none
reserving (deciding i) = none
reserving (unlocking_call i) = none

-- Whether a call still has its task.
abbrev pub is_early : Call → Bool
is_early unmade = true
is_early returned = false
is_early failed = false
is_early (counting i) = true
is_early (asserting i) = true
is_early (setting i) = true
is_early (signalling i) = false
is_early (deciding i) = false
is_early (unlocking_call i) = false

-- The thread whose mutex a call has.
abbrev pub locked_by : Call → Option ℕ
locked_by unmade = none
locked_by returned = none
locked_by failed = none
locked_by (counting i) = none
locked_by (asserting i) = none
locked_by (setting i) = none
locked_by (signalling i) = none
locked_by (deciding i) = some i
locked_by (unlocking_call i) = some i

-- Whether a thread has its mutex.
abbrev pub is_locking : Stage → Bool
is_locking starting = false
is_locking testing = true
is_locking dozing = true
is_locking asleep = false
is_locking woken = false
is_locking unlocking = true
is_locking running = false
is_locking clearing = false
is_locking pushing = false

-- Whether a thread sleeps, or is about to.
abbrev pub is_drowsy : Stage → Bool
is_drowsy starting = false
is_drowsy testing = false
is_drowsy dozing = true
is_drowsy asleep = true
is_drowsy woken = false
is_drowsy unlocking = false
is_drowsy running = false
is_drowsy clearing = false
is_drowsy pushing = false

abbrev pub has_task : Use → Bool
has_task uncreated = false
has_task cleared = false
has_task idle = false
has_task (reserved t) = false
has_task (loaded t) = true

abbrev pub is_cleared : Use → Bool
is_cleared uncreated = false
is_cleared cleared = true
is_cleared idle = false
is_cleared (reserved t) = false
is_cleared (loaded t) = false

-- Whether a thread is not made yet, or about to push itself.
abbrev is_absent : Use → Bool
is_absent uncreated = true
is_absent cleared = true
is_absent idle = false
is_absent (reserved t) = false
is_absent (loaded t) = false

-- Whether a thread can be there while it is used for that.
abbrev pub fits : Stage → Use → Bool
fits starting u = not (is_cleared u)
fits testing u = not (is_absent u)
fits dozing u = not (is_absent u)
fits asleep u = not (is_absent u)
fits woken u = not (is_absent u)
fits unlocking u = has_task u
fits running u = has_task u
fits clearing u = has_task u
fits pushing u = is_cleared u

-- The task that a thread has not run yet.
abbrev pub pending : Stage → Use → Option ℕ
pending starting u = slot u
pending testing u = slot u
pending dozing u = slot u
pending asleep u = slot u
pending woken u = slot u
pending unlocking u = slot u
pending running u = slot u
pending clearing u = none
pending pushing u = none

pub has_task-loaded : (u : Use) → has_task u ≡ true → (t : ℕ) × (u ≡ loaded t)
has_task-loaded uncreated e = ground (arith, e)
has_task-loaded cleared e = ground (arith, e)
has_task-loaded idle e = ground (arith, e)
has_task-loaded (reserved t) e = ground (arith, e)
has_task-loaded (loaded t) e = (t, refl)

pub is_cleared-cleared : (u : Use) → is_cleared u ≡ true → u ≡ cleared
is_cleared-cleared uncreated e = ground (arith, e)
is_cleared-cleared cleared e = refl
is_cleared-cleared idle e = ground (arith, e)
is_cleared-cleared (reserved t) e = ground (arith, e)
is_cleared-cleared (loaded t) e = ground (arith, e)

pub slot-loaded : (u : Use) (t : ℕ) → slot u ≡ some t → u ≡ loaded t
slot-loaded uncreated t e = ground (arith, e)
slot-loaded cleared t e = ground (arith, e)
slot-loaded idle t e = ground (arith, e)
slot-loaded (reserved a) t e = ground (arith, e)
slot-loaded (loaded a) t e = ground (arith, e)

absent_cleared : (u : Use) → is_absent u ≡ false → not (is_cleared u) ≡ true
absent_cleared uncreated e = refl
absent_cleared cleared e = ground (arith, e)
absent_cleared idle e = refl
absent_cleared (reserved t) e = refl
absent_cleared (loaded t) e = refl

pub present : (u : Use) → u ≢ uncreated → not (is_cleared u) ≡ true → not (is_absent u) ≡ true
present uncreated n e = absurd (n refl)
present cleared n e = e
present idle n e = refl
present (reserved t) n e = refl
present (loaded t) n e = refl

-- A thread that neither has a task nor is about to push itself can be given another use.
pub refits :
    (p : Stage) (u u' : Use)
    → slot u ≡ none
    → is_cleared u ≡ false
    → is_absent u' ≡ false
    → fits p u ≡ true
    → (fits p u' ≡ true) × (pending p u' ≡ slot u')
refits starting u u' e c c' f = (absent_cleared u' c', refl)
refits testing u u' e c c' f = (rw c' refl, refl)
refits dozing u u' e c c' f = (rw c' refl, refl)
refits asleep u u' e c c' f = (rw c' refl, refl)
refits woken u u' e c c' f = (rw c' refl, refl)
refits unlocking u u' e c c' f = let (t, l) = has_task-loaded u f in ground (arith, rw l at e)
refits running u u' e c c' f = let (t, l) = has_task-loaded u f in ground (arith, rw l at e)
refits clearing u u' e c c' f = let (t, l) = has_task-loaded u f in ground (arith, rw l at e)
refits pushing u u' e c c' f = ground (arith, f, c)

pub pending-slot : (p : Stage) (u : Use) → slot u ≡ none → pending p u ≡ none
pending-slot starting u e = e
pending-slot testing u e = e
pending-slot dozing u e = e
pending-slot asleep u e = e
pending-slot woken u e = e
pending-slot unlocking u e = e
pending-slot running u e = e
pending-slot clearing u e = refl
pending-slot pushing u e = refl

pub is_drowsy-pending : (p : Stage) (u : Use) → is_drowsy p ≡ true → pending p u ≡ slot u
is_drowsy-pending starting u e = ground (arith, e)
is_drowsy-pending testing u e = ground (arith, e)
is_drowsy-pending dozing u e = refl
is_drowsy-pending asleep u e = refl
is_drowsy-pending woken u e = ground (arith, e)
is_drowsy-pending unlocking u e = ground (arith, e)
is_drowsy-pending running u e = ground (arith, e)
is_drowsy-pending clearing u e = ground (arith, e)
is_drowsy-pending pushing u e = ground (arith, e)

pub drowsy_after : (p : Stage) → is_drowsy (signalled p) ≡ true → p ≡ dozing
drowsy_after starting e = ground (arith, e)
drowsy_after testing e = ground (arith, e)
drowsy_after dozing e = refl
drowsy_after asleep e = ground (arith, e)
drowsy_after woken e = ground (arith, e)
drowsy_after unlocking e = ground (arith, e)
drowsy_after running e = ground (arith, e)
drowsy_after clearing e = ground (arith, e)
drowsy_after pushing e = ground (arith, e)

-- A signal changes nothing else of a thread.
pub signalled_same :
    (p : Stage) (u : Use)
    → (fits (signalled p) u ≡ fits p u)
      × (pending (signalled p) u ≡ pending p u)
      × (is_locking (signalled p) ≡ is_locking p)
signalled_same starting u = (refl, refl, refl)
signalled_same testing u = (refl, refl, refl)
signalled_same dozing u = (refl, refl, refl)
signalled_same asleep u = (refl, refl, refl)
signalled_same woken u = (refl, refl, refl)
signalled_same unlocking u = (refl, refl, refl)
signalled_same running u = (refl, refl, refl)
signalled_same clearing u = (refl, refl, refl)
signalled_same pushing u = (refl, refl, refl)
