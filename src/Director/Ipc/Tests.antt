-- ===== src/Director/Ipc/Tests.antt =====
-- A system in which a key is its own id, with or without room for message queues, and in which the
-- semaphore sets belong to someone else.
use operative_system_project.Prelude.{
  ℕ, ◌==◌, ◌≡◌, refl, sym, ap, ◌∙◌, Bool, true, false, Bool-cases, ◌&&◌, if◌then◌else◌, Option,
  none, some, inl, inr, arith,
}
use mathlib.Core.Option.{some-injective, none-ne-some}
use operative_system_project.Director.Ipc.{
  key_of, semaphores, workers, users, stats, queues, cleanup_stale, create_object, create_all,
  attach_object, attach_all, allocate_ipc, all_present, Kind, message_queue, semaphore_set,
  shared_memory, Object, counters, config, messages, Kernel, IsKernel, found, start, running,
  exit_failure, cleanup_ipc, cleanup_stale_ipc_resources,
}
use operative_system_project.Director.Ipc.Keys.{kind_number, kind_number-injective}
use operative_system_project.Director.Ipc.Cleanup.{IsForeign, cleanup_stale_clears}
use operative_system_project.Director.Ipc.Startup.{cleanup_ipc_removes, failed_start_leaves}
use operative_system_project.Director.Ipc.Dropping.{left}

abbrev Keys : Type 0
Keys = Kind → ℕ → Bool

abbrev find_key : Kind → ℕ → Keys → Option ℕ
find_key kind key k = if k kind key then some key else none

is_here : Kind → ℕ → Kind → ℕ → Bool
is_here kind key kind' key' = (kind_number kind == kind_number kind') && (key == key')

put : Kind → ℕ → Bool → Keys → Keys
put kind key v k kind' key' = if is_here kind key kind' key' then v else k kind' key'

-- Whether there is room for an object of the kind.
abbrev admits : Bool → Kind → Bool
admits full message_queue = if full then false else true
admits full semaphore_set = true
admits full shared_memory = true

abbrev create_key : Bool → Kind → ℕ → Keys → Option ℕ × Keys
create_key full kind key k = if admits full kind then (some key, put kind key true k) else (none, k)

-- Whether an object of the kind may be removed.
abbrev is_ours : Kind → Bool
is_ours message_queue = true
is_ours semaphore_set = false
is_ours shared_memory = true

abbrev remove_key : Kind → ℕ → Keys → Bool × Keys
remove_key kind id k = if is_ours kind then (true, put kind id false k) else (false, k)

abbrev tiny : Bool → Kernel Keys
tiny full = record {
  find = find_key;
  create = create_key full;
  remove = remove_key;
  attach = λ id k. (some id, k);
  detach = λ address k. k;
}

put_here : (kind : Kind) (key : ℕ) (v : Bool) (k : Keys) → put kind key v k kind key ≡ v
unfolding put is_here
put_here kind key v k = ground arith

here_both :
    (kind kind' : Kind) (key key' : ℕ)
    → is_here kind key kind' key' ≡ true
    → (kind ≡ kind') × (key ≡ key')
unfolding is_here
here_both kind kind' key key' e = (kind_number-injective kind kind' (ground arith), ground arith)

put_apart :
    (kind kind' : Kind) (key key' : ℕ) (v : Bool) (k : Keys)
    → ¬ ((kind ≡ kind') × (key ≡ key'))
    → put kind key v k kind' key' ≡ k kind' key'
unfolding put
put_apart kind kind' key key' v k apart = elim (Bool-cases (is_here kind key kind' key')) [
  | inl e ↦ absurd (apart (here_both kind kind' key key' e))
  | inr e ↦ rw e refl
]

found_key :
    (kind : Kind) (key id : ℕ) (k : Keys)
    → find_key kind key k ≡ some id
    → (k kind key ≡ true) × (key ≡ id)
found_key kind key id k e = elim (Bool-cases (k kind key)) [
  | inl h ↦ (h, some-injective key id (rw h at e))
  | inr h ↦ absurd (none-ne-some id (rw h at e))
]

removed_apart :
    (kind kind' : Kind) (key' id : ℕ) (k : Keys)
    → ¬ ((kind ≡ kind') × (find_key kind' key' k ≡ some id))
    → find_key kind' key' (put kind id false k) ≡ find_key kind' key' k
unfolding put
removed_apart kind kind' key' id k apart = elim (Bool-cases (is_here kind id kind' key')) [
  | inr e ↦ rw e refl
  | inl e ↦ elim (Bool-cases (k kind' key')) [
    | inr h ↦ rw e (rw h refl)
    | inl h ↦
        let (same, here) = here_both kind kind' id key' e in
        absurd (apart (same, rw h (ap some (sym here))))
  ]
]

tiny-IsKernel : (full : Bool) → IsKernel (tiny full)
tiny-IsKernel full = record {
  one_key =
      λ kind key key' id k e f. (found_key kind key id k e).1 ∙ sym (found_key kind key' id k f).1;
  created = λ kind key id k e. elim (Bool-cases (admits full kind)) [
    | inl h ↦ rw h (rw (put_here kind key true k) (rw h at e))
    | inr h ↦ absurd (none-ne-some id (rw h at e))
  ];
  create_apart = λ kind kind' key key' k apart. elim (Bool-cases (admits full kind)) [
    | inl h ↦ rw h (rw (put_apart kind kind' key key' true k apart) refl)
    | inr h ↦ rw h refl
  ];
  removed = λ kind key id k e success. elim (Bool-cases (is_ours kind)) [
    | inl h ↦ rw h (rw (sym (found_key kind key id k e).1, put_here kind key false k) refl)
    | inr h ↦ absurd (not_success (rw h at success))
  ];
  refused = λ kind id k failure. elim (Bool-cases (is_ours kind)) [
    | inl h ↦ absurd (not_failure (rw h at failure))
    | inr h ↦ rw h refl
  ];
  remove_apart = λ kind kind' key' id k apart. elim (Bool-cases (is_ours kind)) [
    | inl h ↦ rw h (removed_apart kind kind' key' id k apart)
    | inr h ↦ rw h refl
  ];
  answer_apart = λ kind kind' id id' k apart. elim (Bool-cases (is_ours kind')) [
    | inl h ↦ rw h refl
    | inr h ↦ rw h refl
  ];
  attached = λ kind key id k. refl;
  detached = λ kind key address k. refl;
  answer_detached = λ kind id address k. refl;
}
  where
    not_success : false ≡ true → ⊥
    not_success x = cc

    not_failure : true ≡ false → ⊥
    not_failure x = cc

-- Every object exists already, and one that is not the program's.
abbrev crowded : Keys
crowded kind key = true

foreign : IsForeign Kind.message_queue 1
foreign o h = by_object o h.1
  where
    by_object : (p : Object) → 1 ≡ key_of p → ⊥
    by_object messages e = omega (arith, e)
    by_object semaphores e = omega (arith, e)
    by_object config e = omega (arith, e)
    by_object counters e = omega (arith, e)
    by_object workers e = omega (arith, e)
    by_object users e = omega (arith, e)
    by_object stats e = omega (arith, e)
    by_object queues e = omega (arith, e)

cleanup_stale_clears_example :
    let k' = cleanup_stale_ipc_resources (tiny false) crowded in
    ((o : Object) → found (tiny false) o k' ≡ left (tiny false) o crowded)
    × (find_key Kind.message_queue 1 k' ≡ find_key Kind.message_queue 1 crowded)
cleanup_stale_clears_example =
    cleanup_stale_clears (tiny false) (tiny-IsKernel false) crowded Kind.message_queue 1 foreign

starts : (start (tiny false) true crowded).0 ≡ running
unfolding start cleanup_stale_ipc_resources cleanup_stale create_object create_all attach_object
    attach_all allocate_ipc all_present put is_here kind_number
starts = refl

counters_created : (start (tiny true) true crowded).1.ids counters ≡ some 4660
unfolding start cleanup_stale_ipc_resources cleanup_stale create_object create_all attach_object
    attach_all allocate_ipc all_present put is_here kind_number
counters_created = refl

-- With no room for a message queue, the director exits.
exits : (start (tiny true) true crowded).0 ≡ exit_failure
unfolding start cleanup_stale_ipc_resources cleanup_stale create_object create_all attach_object
    attach_all allocate_ipc all_present put is_here kind_number
exits = refl

ids_kept : (p : Object) → found (tiny false) p crowded ≡ (start (tiny false) true crowded).1.ids p
unfolding start cleanup_stale_ipc_resources cleanup_stale create_object create_all attach_object
    attach_all allocate_ipc all_present put is_here kind_number
ids_kept messages = refl
ids_kept semaphores = refl
ids_kept config = refl
ids_kept counters = refl
ids_kept workers = refl
ids_kept users = refl
ids_kept stats = refl
ids_kept queues = refl

cleanup_ipc_removes_example :
    (id : ℕ) × (found (tiny false) messages (start (tiny false) true crowded).1.system ≡ some id)
    × (found
          (tiny false)
          messages
          (cleanup_ipc
            (tiny false)
            (record (start (tiny false) true crowded).1 { system = crowded })).system
        ≡ (if ((tiny false).remove Kind.message_queue id crowded).0 then none else some id))
cleanup_ipc_removes_example =
    cleanup_ipc_removes (tiny false) (tiny-IsKernel false) true crowded crowded starts ids_kept
      messages

failed_start_leaves_example :
    found (tiny true) counters (start (tiny true) true crowded).1.system ≡ some 4660
failed_start_leaves_example =
    failed_start_leaves (tiny true) (tiny-IsKernel true) crowded counters 4660 counters_created
