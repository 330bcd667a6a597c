-- ===== src/Shared/Tests.antt =====
-- A small simulation on which the processes are tried: one counter, one worker, all mutexes free.
use operative_system_project.Prelude.{
  ℕ, [], ◌∷◌, replicate, true, false, ◌+◌, ◌/◌, ◌<◌, arith, refl, zero, suc, get_or,
  get_or-replicate_in, ◌≡◌, ap, ◌∙◌,
}
use operative_system_project.Prelude.Int.{pos, negsuc, pos_part}
use operative_system_project.Stats.{Floating, zero_stats}
use operative_system_project.Commons.{
  SimulationParameter, WorkerInfo, TerminationCause, service_count,
}
use operative_system_project.Queue.{reset, ServiceQueue, QueueTicket, push}
use operative_system_project.Queue.Fifo
use operative_system_project.Shared.{Shared, no_worker, no_queue, queue_of}
use operative_system_project.Queue.Invariant.{IsValid, reset-IsValid, push-IsValid}
use operative_system_project.Commons.Semaphores.{total_sems, stats_mutex_sem}
use operative_system_project.Shared.Soundness.{IsSound}
use operative_system_project.Stats.Consistency.{zero_stats-IsConsistent}
use operative_system_project.Queue.Refinement.{contents, push_refines, contents-reset}
use operative_system_project.Process.Quiet.{IsReady}

-- Minutes are whole here.
instance pub whole_minutes : Floating ℕ
whole_minutes = record { of_int = pos_part; add = λ a b. a + b; divide = λ a b. a / b }

abbrev pub small_parameters : SimulationParameter
small_parameters = record {
  nof_worker_seats = pos 1;
  nof_workers = pos 1;
  nof_users = pos 1;
  nof_pause = pos 1;
  p_serv_min = pos 20;
  p_serv_max = pos 80;
  sim_duration = pos 5;
  n_nano_seconds = pos 100;
  explode_threshold = pos 10;
  current_day = 1;
  day_active = true;
  termination_cause = TerminationCause.running;
}

abbrev pub small_worker : WorkerInfo
small_worker = record {
  pid = pos 20;
  service = 2;
  pauses_taken = 0;
  pauses_today = 0;
  active_today = false;
  active_ever = false;
  current_counter = negsuc 0;
}

abbrev pub empty_queue : ServiceQueue
empty_queue = reset (record { entries = []; head = 0; tail = 0; length = 0 })

-- The counter offers service 2.
abbrev pub small_office : Shared ℕ
small_office = record {
  config = small_parameters;
  counters = record { counter_id = 0; service = pos 2; worker_pid = negsuc 0 } ∷ [];
  workers = small_worker ∷ [];
  users = record { pid = pos 30; go_probability = pos 50 } ∷ [];
  stats = zero_stats;
  queues = replicate 6 empty_queue;
  sems = 1 ∷ 1 ∷ 1 ∷ 1 ∷ 1 ∷ 1 ∷ 1 ∷ 0 ∷ 0 ∷ 0 ∷ 0 ∷ 0 ∷ 0 ∷ 0 ∷ 0 ∷ 1 ∷ 0 ∷ 0 ∷ 0 ∷ 1 ∷ [];
  mailbox = [];
}

small_workers : (j : ℕ) → (get_or small_office.workers j no_worker).service < service_count
small_workers zero = omega arith
small_workers (suc j) = omega arith

pub small_office-IsSound : IsSound 1 small_office
unfolding total_sems replicate
small_office-IsSound = record {
  fixed = refl;
  sem_set = refl;
  six_queues = refl;
  valid_queues = λ i h. get_or-replicate_in IsValid 6 i empty_queue no_queue h (reset-IsValid _);
  consistent = zero_stats-IsConsistent;
  known_services = small_workers;
}

-- The same with a user who waits for service 2.
abbrev pub waiting_ticket : QueueTicket
waiting_ticket = record { user_pid = pos 30; user_index = pos 0; requested_at_ns = pos 100 }

abbrev pub line_queue : ServiceQueue
line_queue = (push empty_queue waiting_ticket).1

abbrev pub waiting_office : Shared ℕ
waiting_office = record small_office {
  queues = empty_queue ∷ empty_queue ∷ line_queue ∷ empty_queue ∷ empty_queue ∷ empty_queue ∷ [];
  sems = 1 ∷ 1 ∷ 1 ∷ 1 ∷ 1 ∷ 1 ∷ 1 ∷ 0 ∷ 0 ∷ 1 ∷ 0 ∷ 0 ∷ 0 ∷ 0 ∷ 0 ∷ 1 ∷ 0 ∷ 0 ∷ 0 ∷ 1 ∷ [];
}

pub waiting_office-IsReady : IsReady 1 waiting_office
unfolding total_sems stats_mutex_sem
waiting_office-IsReady = record { fixed = refl; sem_set = refl; stats_free = omega arith }

pub line_queue-IsValid : IsValid line_queue
line_queue-IsValid = push-IsValid waiting_ticket (reset-IsValid _)

pub contents-line_queue : contents line_queue ≡ waiting_ticket ∷ []
unfolding Fifo.push
contents-line_queue =
    ap (λ p. p.1) (push_refines waiting_ticket (reset-IsValid _))
    ∙ ap (λ f. (Fifo.push f waiting_ticket).1) (contents-reset _)

pub waiting_office-IsValid : (i : ℕ) → i < service_count → IsValid (queue_of i waiting_office)
waiting_office-IsValid zero h = reset-IsValid _
waiting_office-IsValid (suc zero) h = reset-IsValid _
waiting_office-IsValid (suc (suc zero)) h = line_queue-IsValid
waiting_office-IsValid (suc (suc (suc zero))) h = reset-IsValid _
waiting_office-IsValid (suc (suc (suc (suc zero)))) h = reset-IsValid _
waiting_office-IsValid (suc (suc (suc (suc (suc zero))))) h = reset-IsValid _
waiting_office-IsValid (suc (suc (suc (suc (suc (suc i)))))) h = absurd (omega (arith, h))
