-- ===== src/Process/Logs.antt =====
-- What a part of a process logs, over every script, and that it keeps what the others keep. These
-- rules serve all processes: they differ in their signal handlers and in when a signal makes them
-- give up a call.
use operative_system_project.Prelude.{
  ℕ, ◌≡◌, List, ◌∷◌, length, ◌++◌, arith, [], ap, Bool, set, get_or, ◌+◌, ◌-◌, length-set, true,
}
use operative_system_project.Shared.{Shared, Message, seats}
use operative_system_project.Process.{
  World, Act, raise, lower, send, done, raised, lowered, sent, Proc, Answer, commit, Signal, got,
  ◌>>◌, require, stopped, ret, retry, failed, observe, ◌>>=◌, receive, received, slept,
}
use operative_system_project.Process.Post.{Post, Post-bind, At, retry-Post, Post-mono, observe-Post}
use operative_system_project.Prelude.Int.{ℤ}

-- A property of the shared state that fixes the number of seats, and that no semaphore operation
-- and no message can break.
pub record IsKept {D : Type 0} (n : ℕ) (I : Shared D → Type 0) : Type 0 where
  pub fixed : (s : Shared D) → I s → seats s ≡ n
  pub by_sems :
      (s : Shared D) (sems : List ℕ)
      → length sems ≡ length s.sems
      → I s
      → I (record s { sems = sems })
  pub by_mailbox : (s : Shared D) (ms : List Message) → I s → I (record s { mailbox = ms })

module _ {D : Type 0} where
  pub raise_done :
      (k : ℕ) (s s' : Shared D) (a : Unit) (act : Act D)
      → raise k s ≡ done a s' act
      → (act ≡ raised k)
        × (sems : List ℕ) × (length sems ≡ length s.sems)
        × (s' ≡ record s { sems = sems })
  unfolding raise
  raise_done k s s' a act h =
      (ground arith, set s.sems k (get_or s.sems k 0 + 1), length-set s.sems k _, ground arith)

  pub lower_done :
      (k : ℕ) (s s' : Shared D) (a : Unit) (act : Act D)
      → lower k s ≡ done a s' act
      → (act ≡ lowered k)
        × (sems : List ℕ) × (length sems ≡ length s.sems)
        × (s' ≡ record s { sems = sems })
  unfolding lower
  lower_done k s s' a act h =
      (ground arith, set s.sems k (get_or s.sems k 0 - 1), length-set s.sems k _, ground arith)

  pub send_done :
      (m : Message) (s s' : Shared D) (a : Unit) (act : Act D)
      → send m s ≡ done a s' act
      → (act ≡ sent m) × (s' ≡ record s { mailbox = s.mailbox ++ m ∷ [] })
  unfolding send
  send_done m s s' a act h = (ground arith, ground arith)

  pub receive_done :
      (t : ℤ) (s s' : Shared D) (m : Message) (act : Act D)
      → receive t s ≡ done m s' act
      → (rest : List Message) × (s' ≡ record s { mailbox = rest })
  unfolding receive
  receive_done t s s' m act h = (s'.mailbox, ground arith)

  pub slept_done :
      (s s' : Shared D) (a : Unit {0}) (act : Act D)
      → done tt s slept ≡ done a s' act
      → (s ≡ s') × (slept ≡ act)
  slept_done s s' a act d = (ground arith, ground arith)

  pub receive_act :
      (t : ℤ) (s s' : Shared D) (m : Message) (act : Act D)
      → receive t s ≡ done m s' act
      → act ≡ received m
  unfolding receive
  receive_act t s s' m act h = ground arith

module _ {F D : Type 0} (I : Shared D → Type 0) where
  -- Every run of `m` from a state with log `t` returns with the log `u`, if it returns, and keeps
  -- `I` in any case.
  abbrev pub Logs : (t u : List (Act D)) → Proc F D (Unit {0}) → Type 0
  Logs t u m = (w : World F D) → At I t w → Post (λ _ w'. At I u w') (λ w'. I w'.shared) (m w)

  abbrev Answered : List (Act D) → Answer (Unit {0}) → World F D → Type 0
  Answered u (got a) w = At I u w
  Answered u stopped w = I w.shared
  Answered u failed w = I w.shared

  -- Two steps after another.
  pub Logs-then :
      (t u v : List (Act D)) (m k : Proc F D (Unit {0}))
      → Logs t u m
      → Logs u v k
      → Logs t v (m >> k)
  Logs-then t u v m k first second w at =
      Post-bind (λ _ w'. At I u w') (λ _ w'. At I v w') (λ w'. I w'.shared) (m w) (λ _. k)
        (first w at) (λ a w' at'. second w' at')

  require-Answered :
      (u : List (Act D)) (a : Answer (Unit {0})) (w : World F D)
      → Answered u a w
      → Post (λ _ w'. At I u w') (λ w'. I w'.shared) (require (ret a) w)
  require-Answered u (got a) w h = h
  require-Answered u stopped w h = h
  require-Answered u failed w h = h

  pub commit-Logs :
      (g : Shared D → Shared D) (act : Act D) (t : List (Act D))
      → ((s : Shared D) → I s → I (g s))
      → Logs t (act ∷ t) (commit g act)
  commit-Logs g act t h w at = record {
    logged = ap (λ u. act ∷ u) at.logged;
    holds = h w.shared at.holds;
    kept = at.kept;
  }

module _ {F D : Type 0} (handle : Signal → F → F) (stop : F → Bool) (n : ℕ) (I : Shared D → Type 0)
    (keep : IsKept n I) where
  pub require_up :
      (k : ℕ) (t : List (Act D)) → Logs I t (raised k ∷ t) (require (retry handle stop (raise k)))
  require_up k t w at =
      Post-bind (Answered I (raised k ∷ t)) (λ _ w'. At I (raised k ∷ t) w') (λ w'. I w'.shared)
        (retry handle stop (raise k) w) _
        (retry-Post handle I stop (raise k) (Answered I (raised k ∷ t)) (λ w'. I w'.shared) t
          (λ f s s' a act es i es_keep d.
            let (e, sems, len, q) = raise_done k s s' a act d in
            record {
              logged = ap (λ x. x ∷ t) e;
              holds = rw q (keep.by_sems s sems len i);
              kept = es_keep;
            })
          (λ w' at' e. at'.holds) (λ w' at'. at'.holds) (λ w' at'. at'.holds) w at)
        (require-Answered I (raised k ∷ t))

  pub require_down :
      (k : ℕ) (t : List (Act D)) → Logs I t (lowered k ∷ t) (require (retry handle stop (lower k)))
  require_down k t w at =
      Post-bind (Answered I (lowered k ∷ t)) (λ _ w'. At I (lowered k ∷ t) w') (λ w'. I w'.shared)
        (retry handle stop (lower k) w) _
        (retry-Post handle I stop (lower k) (Answered I (lowered k ∷ t)) (λ w'. I w'.shared) t
          (λ f s s' a act es i es_keep d.
            let (e, sems, len, q) = lower_done k s s' a act d in
            record {
              logged = ap (λ x. x ∷ t) e;
              holds = rw q (keep.by_sems s sems len i);
              kept = es_keep;
            })
          (λ w' at' e. at'.holds) (λ w' at'. at'.holds) (λ w' at'. at'.holds) w at)
        (require-Answered I (lowered k ∷ t))

  -- How a call that sends ends: the message is logged, or a signal has stopped the call, or it
  -- has failed.
  abbrev pub Sends : Message → List (Act D) → Answer (Unit {0}) → World F D → Type 0
  Sends m t (got a) w = At I (sent m ∷ t) w
  Sends m t stopped w = At I t w × (stop w.flags ≡ true)
  Sends m t failed w = I w.shared

  pub send-Post :
      (m : Message) (t : List (Act D)) (w : World F D)
      → At I t w
      → Post (Sends m t) (λ w'. I w'.shared) (retry handle stop (send m) w)
  send-Post m t =
      retry-Post handle I stop (send m) (Sends m t) (λ w'. I w'.shared) t
        (λ f s s' a act es i k d.
          let (e, q) = send_done m s s' a act d in
          record { logged = ap (λ x. x ∷ t) e; holds = rw q (keep.by_mailbox s _ i); kept = k })
        (λ w' at e. (at, e)) (λ w' at. at.holds) (λ w' at. at.holds)

  -- A read of shared memory, and what is done with it.
  pub observe_then :
      {B : Type 0} (f : Shared D → Proc F D B) (R : B → World F D → Type 0) (t : List (Act D))
      (w : World F D)
      → At I t w
      → ((w' : World F D) → At I t w' → Post R (λ w''. I w''.shared) (f w'.shared w'))
      → Post R (λ w''. I w''.shared) ((observe handle >>= f) w)
  observe_then f R t w at next =
      Post-bind (λ s w'. (s ≡ w'.shared) × At I t w') R (λ w'. I w'.shared) (observe handle w) f
        (Post-mono (λ s w'. (s ≡ w'.shared) × At I t w') (λ s w'. (s ≡ w'.shared) × At I t w')
          (At I t) (λ w'. I w'.shared) (observe handle w) (observe-Post handle I t w at)
          (λ s w' h. h) (λ w' h. h.holds))
        (λ s w' h. rw h.0 (next w' h.1))
