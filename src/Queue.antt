-- ===== src/Queue.antt =====
-- The service queue of src/headers/commons.h: a ring of MAX_COUNT_QUEUE tickets in shared memory.
-- `head`, `tail` and `length` are C ints that the code never makes negative, so they are numbers
-- here, and the test `length <= 0` of `service_queue_pop` is `length == 0`. An access outside
-- `entries` cannot happen in a valid queue (`IsValid` in Queue/Invariant).
pub mod Invariant
pub mod Fifo
pub mod Refinement
mod Tests
use operative_system_project.Prelude.{
  ℕ, ◌+◌, ◌-◌, ◌%◌, Bool, List, [], ◌∷◌, get_or, set, replicate, leb, ◌==◌, if◌then◌else◌,
}
use operative_system_project.Prelude.Int.{ℤ, pos, negsuc}

abbrev pub max_count_queue : ℕ
max_count_queue = 4096

-- queue_ticket
pub record QueueTicket : Type 0 where
  pub user_pid : ℤ
  pub user_index : ℤ
  pub requested_at_ns : ℤ

-- service_queue
pub record ServiceQueue : Type 0 where
  pub entries : List QueueTicket
  pub head : ℕ
  pub tail : ℕ
  pub length : ℕ

-- What `memset` to zero leaves in an entry.
abbrev pub zero_ticket : QueueTicket
zero_ticket = record { user_pid = pos 0; user_index = pos 0; requested_at_ns = pos 0 }

-- The ticket that stands for "no ticket": an emptied entry, and the result of a pop that fails.
abbrev pub no_ticket : QueueTicket
no_ticket = record { user_pid = negsuc 0; user_index = negsuc 0; requested_at_ns = pos 0 }

-- service_queue_reset. What the queue held before does not matter.
unfoldable pub reset : ServiceQueue → ServiceQueue
reset _ = record { entries = replicate max_count_queue zero_ticket; head = 0; tail = 0; length = 0 }

-- service_queue_is_full
unfoldable pub is_full : ServiceQueue → Bool
is_full q = leb max_count_queue q.length

-- service_queue_push: `false` is the result -1.
unfoldable pub push : ServiceQueue → QueueTicket → Bool × ServiceQueue
unfolding is_full
push q ticket = if is_full q then (Bool.false, q) else (
  Bool.true,
  record q {
    entries = set q.entries q.tail ticket;
    tail = (q.tail + 1) % max_count_queue;
    length = q.length + 1;
  },
)

-- service_queue_length
unfoldable pub queue_length : ServiceQueue → ℕ
queue_length q = q.length

-- service_queue_pop
unfoldable pub pop : ServiceQueue → QueueTicket × ServiceQueue
pop q = if q.length == 0 then (no_ticket, q) else (
  get_or q.entries q.head zero_ticket,
  record q {
    entries = set q.entries q.head no_ticket;
    head = (q.head + 1) % max_count_queue;
    length = q.length - 1;
  },
)

-- A client's calls in order, and what each returns.
pub data Op : Type 0 where
  put : QueueTicket → Op
  get clear : Op

pub data Reply : Type 0 where
  pushed : Bool → Reply
  got : QueueTicket → Reply
  cleared : Reply

unfoldable pub run : ServiceQueue → List Op → List Reply
run q [] = []
run q (put t ∷ ops) = let (b, q') = push q t in pushed b ∷ run q' ops
run q (get ∷ ops) = let (t, q') = pop q in got t ∷ run q' ops
run q (clear ∷ ops) = cleared ∷ run (reset q) ops
