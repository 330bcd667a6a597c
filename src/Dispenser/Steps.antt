-- ===== src/Dispenser/Steps.antt =====
-- What the parts of enqueue_user_request of src/erogatore_ticket.c log, over every script.
use operative_system_project.Prelude.{ℕ, ◌≡◌, ◌<◌, List, ◌∷◌, Bool, ◌⊎◌, set, true, inl, inr}
use operative_system_project.Commons.{service_count, user_reply_base, UserReplyStatus}
use operative_system_project.Commons.Semaphores.{stats_mutex_sem}
use operative_system_project.Shared.{Shared, Message}
use operative_system_project.Process.{stopped, failed, World, Act, raised, lowered, sent, ◌>>◌}
use operative_system_project.Process.Post.{Post, Post-bind, At}
use operative_system_project.Process.Logs.{
  IsKept, Logs, Logs-then, require_down, require_up, Sends, commit-Logs, send-Post,
}
use operative_system_project.Queue
use operative_system_project.Dispenser.{
  Flags, lock_stats, unlock_stats, count_request, sem_down, sem_up, mark_request, mark_not_served,
  ℤ, refuse, count_not_served, counted, requests, refuses, send_user_reply, QueueTicket,
  handle_ticket_signal, commit, user_reply, pos, queue_of, got, ◌+ℤ◌,
}
use operative_system_project.Stats.{Update}

-- A property of the shared state that the dispenser keeps, and that fixes the number of seats.
pub record IsPreserved {D : Type 0} (n : ℕ) (I : Shared D → Type 0) : Type 0 where
  pub calls : IsKept n I
  pub by_request :
      (s : Shared D) (service : ℕ)
      → service < service_count
      → I s
      → I (record s { stats = count_request service s.stats })
  pub by_refusal :
      (s : Shared D) (service : ℕ)
      → service < service_count
      → I s
      → I (record s { stats = count_not_served service s.stats })
  pub by_push :
      (s : Shared D) (service : ℕ) (t : QueueTicket)
      → service < service_count
      → I s
      → I (record s { queues = set s.queues service (Queue.push (queue_of service s) t).1 })

-- What mark_request and mark_not_served log, with `n` counters.
abbrev pub counting : {D : Type 0} → ℕ → Update D → List (Act D) → List (Act D)
counting n u t = raised (stats_mutex_sem n) ∷ counted u ∷ lowered (stats_mutex_sem n) ∷ t

-- The answer to a request that is turned down.
abbrev pub refusal : ℤ → ℕ → Message
refusal pid service = user_reply (record {
  mtype = pos user_reply_base +ℤ pid;
  status = UserReplyStatus.not_served;
  service = service;
})

-- A refusal is counted and answered, or counted only, when SIGTERM has come.
abbrev pub Refused :
    {D : Type 0} → ℕ → (Shared D → Type 0) → ℤ → ℕ → List (Act D) → World Flags D → Type 0
Refused n I pid service t w =
    At I (sent (refusal pid service) ∷ counting n (refuses service) t) w
    ⊎ (At I (counting n (refuses service) t) w × (w.flags.terminate_requested ≡ true))

module _ {D : Type 0} (n : ℕ) (I : Shared D → Type 0) (keep : IsPreserved n I) where
  abbrev stats_sem : ℕ
  stats_sem = stats_mutex_sem n

  abbrev gives_up : Flags → Bool
  gives_up f = f.terminate_requested

  lock_stats-Logs : (t : List (Act D)) → Logs I t (lowered stats_sem ∷ t) lock_stats
  unfolding lock_stats sem_down
  lock_stats-Logs t w at =
      rw (keep.calls.fixed w.shared at.holds)
        (require_down handle_ticket_signal gives_up n I keep.calls stats_sem t w at)

  unlock_stats-Logs : (t : List (Act D)) → Logs I t (raised stats_sem ∷ t) unlock_stats
  unfolding unlock_stats sem_up
  unlock_stats-Logs t w at =
      rw (keep.calls.fixed w.shared at.holds)
        (require_up handle_ticket_signal gives_up n I keep.calls stats_sem t w at)

  critical_section :
      (g : Shared D → Shared D) (u : Update D) (t : List (Act D))
      → ((s : Shared D) → I s → I (g s))
      → Logs I t (counting n u t) (lock_stats >> (commit g (counted u) >> unlock_stats))
  critical_section g u t h =
      Logs-then I t (lowered stats_sem ∷ t) (counting n u t) lock_stats
        (commit g (counted u) >> unlock_stats) (lock_stats-Logs t)
        (Logs-then I (lowered stats_sem ∷ t) (counted u ∷ lowered stats_sem ∷ t) (counting n u t)
          (commit g (counted u)) unlock_stats
          (commit-Logs I g (counted u) (lowered stats_sem ∷ t) h)
          (unlock_stats-Logs (counted u ∷ lowered stats_sem ∷ t)))

  module _ (service : ℕ) (exists : service < service_count) where
    pub mark_request-Logs :
        (t : List (Act D)) → Logs I t (counting n (requests service) t) (mark_request service)
    unfolding mark_request
    mark_request-Logs t =
        critical_section _ (requests service) t λ s i. keep.by_request s service exists i

    pub mark_not_served-Logs :
        (t : List (Act D)) → Logs I t (counting n (refuses service) t) (mark_not_served service)
    unfolding mark_not_served
    mark_not_served-Logs t =
        critical_section _ (refuses service) t λ s i. keep.by_refusal s service exists i

    pub refuse-Post :
        (pid : ℤ) (t : List (Act D)) (w : World Flags D)
        → At I t w
        → Post (λ _ w'. Refused n I pid service t w') (λ w'. I w'.shared) (refuse pid service w)
    unfolding refuse send_user_reply
    refuse-Post pid t w at =
        Post-bind (λ _ w'. At I (counting n (refuses service) t) w')
          (λ _ w'. Refused n I pid service t w') (λ w'. I w'.shared) (mark_not_served service w) _
          (mark_not_served-Logs t w at)
          (λ _ w' at'.
            Post-bind
              (Sends handle_ticket_signal gives_up n I keep.calls (refusal pid service)
                (counting n (refuses service) t))
              (λ _ w''. Refused n I pid service t w'') (λ w''. I w''.shared) _ _
              (send-Post handle_ticket_signal gives_up n I keep.calls (refusal pid service)
                (counting n (refuses service) t) w' at')
              (elim [
                | got _ ↦ (λ w'' h. inl h)
                | stopped ↦ (λ w'' h. inr h)
                | failed ↦ (λ w'' h. h)
              ]))
