-- ===== src/Process.antt =====
-- A process of the simulation, between its system calls: what semop, msgsnd and msgrcv do, how a
-- call is interrupted by a signal, and the loops `while (call == -1) { if (errno == EINTR) ... }`
-- in which every process wraps its calls (src/director.c, src/operator.c, src/user.c,
-- src/erogatore_ticket.c).
-- The rest of the system is a script of events: what the other processes do to the shared state,
-- which signals arrive, and when a call completes or fails. A theorem about all scripts is one
-- about all interleavings with calls and reads. `trace` is a log of the process's own effects,
-- newest first; the program does not keep it.
pub mod Post
pub mod Logs
pub mod Quiet
pub mod Runs
pub mod Interrupted
pub mod Guarded
pub mod Preserving
pub mod Keeping
pub mod Waiting
pub mod Sleeping
use operative_system_project.Prelude.{
  ℕ, List, Bool, ◌∷◌, if◌then◌else◌, ◌++◌, ltb, [], length, set, get_or, ◌+◌, ◌==◌, ◌-◌, true, none,
  false, some,
}
use operative_system_project.Shared.{Shared, Message, take_message}
use operative_system_project.Stats.{Update}
use operative_system_project.Queue.{QueueTicket}
use operative_system_project.Prelude.Int.{ℤ}

pub data Signal : Type 0 where
  sigusr1 sigusr2 sigterm sigint : Signal

-- One effect of the process on what is shared.
pub data Act (D : Type 0) : Type 0 where
  raised lowered : ℕ → Act D
  sent received : Message → Act D
  counted : Update D → Act D
  pushed : ℕ → QueueTicket → Act D
  popped : ℕ → Act D
  signalled : Signal → List ℤ → Act D
  wrote slept : Act D

pub data Event (D : Type 0) : Type 0 where
  grant : Event D
  turn : (Shared D → Shared D) → Event D
  interrupted handled : Signal → Event D
  broken : Event D

-- A process with its flags, of type `F`.
pub record World (F D : Type 0) : Type 0 where
  pub flags : F
  pub shared : Shared D
  pub script : List (Event D)
  pub trace : List (Act D)

-- `exited` is exit(EXIT_FAILURE); `blocked` is a call that still waits at the end of the script.
pub data Outcome (F D A : Type 0) : Type 0 where
  returned : A → World F D → Outcome F D A
  exited blocked : World F D → Outcome F D A

abbrev pub Proc : Type 0 → Type 0 → Type 0 → Type 0
Proc F D A = World F D → Outcome F D A

-- What one try of a call finds: it completes, it would have to wait, or it is refused.
pub data Attempt (D A : Type 0) : Type 0 where
  done : A → Shared D → Act D → Attempt D A
  waits fails : Attempt D A

-- How a retried call ends: its result, or given up on a signal, or failed.
pub data Answer (A : Type 0) : Type 0 where
  got : A → Answer A
  stopped failed : Answer A

module _ {F D : Type 0} where
  abbrev pub and_then : {A B : Type 0} → Outcome F D A → (A → Proc F D B) → Outcome F D B
  and_then (returned a w) f = f a w
  and_then (exited w) f = exited w
  and_then (blocked w) f = blocked w

  infixl 5 ◌>>=◌ ◌>>◌
  abbrev pub ◌>>=◌ : {A B : Type 0} → Proc F D A → (A → Proc F D B) → Proc F D B
  ◌>>=◌ m f w = and_then (m w) f

  abbrev pub ◌>>◌ : {B : Type 0} → Proc F D (Unit {0}) → Proc F D B → Proc F D B
  ◌>>◌ m k = m >>= λ _. k

  abbrev pub ret : {A : Type 0} → A → Proc F D A
  ret a w = returned a w

  abbrev pub exit_failure : {A : Type 0} → Proc F D A
  exit_failure w = exited w

  -- The shared state as it stands.
  abbrev pub peek : Proc F D (Shared D)
  peek w = returned w.shared w

  -- The flags of the process.
  abbrev pub own_flags : Proc F D F
  own_flags w = returned w.flags w

  -- A write to shared memory.
  abbrev pub commit : (Shared D → Shared D) → Act D → Proc F D (Unit {0})
  commit g act w = returned tt (record w { shared = g w.shared; trace = act ∷ w.trace })

  module _ (handle : Signal → F → F) where
    -- while (call == -1) { if (errno == EINTR) { if (stop) give up; continue; } fail }
    unfoldable pub retry_over :
        {A : Type 0}
        → (F → Bool)
        → (Shared D → Attempt D A)
        → F
        → Shared D
        → List (Act D)
        → List (Event D)
        → Outcome F D (Answer A)
    retry_over stop call f s t [] =
        blocked (record { flags = f; shared = s; script = []; trace = t })
    retry_over stop call f s t (grant ∷ es) = elim (call s) [
      | done a s' act ↦
          returned (got a) (record { flags = f; shared = s'; script = es; trace = act ∷ t })
      | waits ↦ retry_over stop call f s t es
      | fails ↦ returned failed (record { flags = f; shared = s; script = es; trace = t })
    ]
    retry_over stop call f s t (turn g ∷ es) = retry_over stop call f (g s) t es
    retry_over stop call f s t (handled sig ∷ es) = retry_over stop call (handle sig f) s t es
    retry_over stop call f s t (interrupted sig ∷ es) = elim (stop (handle sig f)) [
      | true ↦
          returned stopped (record { flags = handle sig f; shared = s; script = es; trace = t })
      | false ↦ retry_over stop call (handle sig f) s t es
    ]
    retry_over stop call f s t (broken ∷ es) =
        returned failed (record { flags = f; shared = s; script = es; trace = t })

    unfoldable pub retry :
        {A : Type 0} → (F → Bool) → (Shared D → Attempt D A) → Proc F D (Answer A)
    retry stop call w = retry_over stop call w.flags w.shared w.trace w.script

    -- A read of shared memory outside a critical section: others may have run just before.
    unfoldable pub observe_over :
        F → Shared D → List (Act D) → List (Event D) → Outcome F D (Shared D)
    observe_over f s t (turn g ∷ es) = observe_over f (g s) t es
    observe_over f s t (handled sig ∷ es) = observe_over (handle sig f) s t es
    observe_over f s t es = returned s (record { flags = f; shared = s; script = es; trace = t })

    unfoldable pub observe : Proc F D (Shared D)
    observe w = observe_over w.flags w.shared w.trace w.script

module _ {F D : Type 0} where
  -- What the callers of a semaphore operation do with its result: exit unless it is 0.
  abbrev pub require : Proc F D (Answer (Unit {0})) → Proc F D (Unit {0})
  require m = m >>= elim [ got _ ↦ ret tt | stopped ↦ exit_failure | failed ↦ exit_failure ]

module _ {D : Type 0} where
  -- semop with one operation of +1 or -1, and no flags.
  unfoldable pub raise : ℕ → Shared D → Attempt D (Unit {0})
  raise n s =
      if ltb n (length s.sems)
      then done tt (record s { sems = set s.sems n (get_or s.sems n 0 + 1) }) (raised n)
      else fails

  unfoldable pub lower : ℕ → Shared D → Attempt D (Unit {0})
  lower n s =
      if ltb n (length s.sems)
      then if get_or s.sems n 0 == 0
        then waits
        else done tt (record s { sems = set s.sems n (get_or s.sems n 0 - 1) }) (lowered n)
      else fails

  -- msgsnd: the message goes to the end of the queue. That the queue is full shows as a call that
  -- the script does not grant yet.
  unfoldable pub send : Message → Shared D → Attempt D (Unit {0})
  send m s = done tt (record s { mailbox = s.mailbox ++ m ∷ [] }) (sent m)

  -- msgrcv of the oldest message of a type.
  unfoldable pub receive : ℤ → Shared D → Attempt D Message
  receive t s = elim (take_message t s.mailbox) [
    | none ↦ waits
    | some (m, rest) ↦ done m (record s { mailbox = rest }) (received m)
  ]
