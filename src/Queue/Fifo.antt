-- ===== src/Queue/Fifo.antt =====
-- What clients of the queue rely on: a first-in first-out list of at most MAX_COUNT_QUEUE tickets.
use operative_system_project.Prelude.{
  Bool, true, false, List, [], ◌∷◌, ◌++◌, length, leb, if◌then◌else◌,
}
use operative_system_project.Queue.{
  QueueTicket, max_count_queue, no_ticket, Op, put, get, clear, Reply, pushed, got, cleared,
}

abbrev pub Fifo : Type 0
Fifo = List QueueTicket

unfoldable pub push : Fifo → QueueTicket → Bool × Fifo
push f t = if leb max_count_queue (length f) then (false, f) else (true, f ++ t ∷ [])

unfoldable pub pop : Fifo → QueueTicket × Fifo
pop [] = (no_ticket, [])
pop (t ∷ f) = (t, f)

unfoldable pub run : Fifo → List Op → List Reply
run f [] = []
run f (put t ∷ ops) = let (b, f') = push f t in pushed b ∷ run f' ops
run f (get ∷ ops) = let (t, f') = pop f in got t ∷ run f' ops
run f (clear ∷ ops) = cleared ∷ run [] ops
