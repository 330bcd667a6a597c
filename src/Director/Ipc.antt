-- ===== src/Director/Ipc.antt =====
-- The IPC objects of src/director.c: cleanup_stale_ipc_resources, allocate_ipc, cleanup_ipc and the
-- part of main that calls them. The kernel is an argument: `Kernel` holds the system calls that the
-- code makes, and `IsKernel` what it relies on. An id or an address of -1 is `none`.
pub mod Keys
pub mod Dropping
pub mod Cleanup
pub mod Removal
pub mod Startup
mod Tests
use operative_system_project.Prelude.{
  ℕ, zero, suc, ◌==◌, ◌≡◌, ◌≢◌, Bool, true, false, not, ◌&&◌, if◌then◌else◌, List, [], ◌∷◌, Option,
  none, some,
}

-- What an IPC object is.
pub data Kind : Type 0 where
  message_queue semaphore_set shared_memory : Kind

-- The eight objects of the program.
pub data Object : Type 0 where
  messages semaphores config counters workers users stats queues : Object

abbrev pub kind_of : Object → Kind
kind_of messages = message_queue
kind_of semaphores = semaphore_set
kind_of config = shared_memory
kind_of counters = shared_memory
kind_of workers = shared_memory
kind_of users = shared_memory
kind_of stats = shared_memory
kind_of queues = shared_memory

-- MSG_KEY, SEM_KEY and the SHM_*_KEYs.
abbrev pub key_of : Object → ℕ
key_of messages = 22136
key_of semaphores = 37120
key_of config = 521
key_of counters = 4660
key_of workers = 522
key_of users = 523
key_of stats = 524
key_of queues = 525

-- The system calls: the id that a key has (msgget, semget and shmget without IPC_CREAT), the same
-- with IPC_CREAT, IPC_RMID with whether it succeeds, shmat and shmdt.
pub record Kernel (K : Type 0) : Type 0 where
  pub find : Kind → ℕ → K → Option ℕ
  pub create : Kind → ℕ → K → Option ℕ × K
  pub remove : Kind → ℕ → K → Bool × K
  pub attach : ℕ → K → Option ℕ × K
  pub detach : ℕ → K → K

-- What System V promises: an id belongs to one key, a created object is found under its key, and a
-- removed one is not; other keys are not touched. A removal may be refused, as it is for an object
-- of another owner (EPERM): then nothing changes. Whether it is depends on the object alone.
pub record IsKernel {K : Type 0} (kernel : Kernel K) : Type 0 where
  pub one_key :
      (kind : Kind) (key key' id : ℕ) (k : K)
      → kernel.find kind key k ≡ some id
      → kernel.find kind key' k ≡ some id
      → key ≡ key'
  pub created :
      (kind : Kind) (key id : ℕ) (k : K)
      → (kernel.create kind key k).0 ≡ some id
      → kernel.find kind key (kernel.create kind key k).1 ≡ some id
  pub create_apart :
      (kind kind' : Kind) (key key' : ℕ) (k : K)
      → ¬ ((kind ≡ kind') × (key ≡ key'))
      → kernel.find kind' key' (kernel.create kind key k).1 ≡ kernel.find kind' key' k
  pub removed :
      (kind : Kind) (key id : ℕ) (k : K)
      → kernel.find kind key k ≡ some id
      → (kernel.remove kind id k).0 ≡ true
      → kernel.find kind key (kernel.remove kind id k).1 ≡ none
  pub refused :
      (kind : Kind) (id : ℕ) (k : K)
      → (kernel.remove kind id k).0 ≡ false
      → (kernel.remove kind id k).1 ≡ k
  pub remove_apart :
      (kind kind' : Kind) (key' id : ℕ) (k : K)
      → ¬ ((kind ≡ kind') × (kernel.find kind' key' k ≡ some id))
      → kernel.find kind' key' (kernel.remove kind id k).1 ≡ kernel.find kind' key' k
  pub answer_apart :
      (kind kind' : Kind) (id id' : ℕ) (k : K)
      → ¬ ((kind ≡ kind') × (id ≡ id'))
      → (kernel.remove kind' id' (kernel.remove kind id k).1).0 ≡ (kernel.remove kind' id' k).0
  pub attached :
      (kind : Kind) (key id : ℕ) (k : K)
      → kernel.find kind key (kernel.attach id k).1 ≡ kernel.find kind key k
  pub detached :
      (kind : Kind) (key address : ℕ) (k : K)
      → kernel.find kind key (kernel.detach address k) ≡ kernel.find kind key k
  pub answer_detached :
      (kind : Kind) (id address : ℕ) (k : K)
      → (kernel.remove kind id (kernel.detach address k)).0 ≡ (kernel.remove kind id k).0

-- The static variables of the director: msgid, semid, the shmids and the addresses.
pub record Ipc (K : Type 0) : Type 0 where
  pub system : K
  pub ids : Object → Option ℕ
  pub addresses : Object → Option ℕ

-- An assignment to the variable of an object.
abbrev pub assign : Object → Option ℕ → (Object → Option ℕ) → Object → Option ℕ
assign o v ids o' = if key_of o == key_of o' then v else ids o'

-- The variables before any assignment.
abbrev pub nothing : Object → Option ℕ
nothing o = none

-- The order in which cleanup_stale_ipc_resources and cleanup_ipc remove.
abbrev pub all_objects : List Object
all_objects = messages ∷ semaphores ∷ config ∷ counters ∷ workers ∷ users ∷ stats ∷ queues ∷ []

-- The order in which allocate_ipc creates, and attaches.
abbrev pub allocated : List Object
allocated = counters ∷ workers ∷ users ∷ stats ∷ queues ∷ messages ∷ semaphores ∷ []

abbrev pub mapped : List Object
mapped = counters ∷ workers ∷ users ∷ stats ∷ queues ∷ []

-- `x != -1` for all of them.
unfoldable pub all_present : List Object → (Object → Option ℕ) → Bool
all_present [] ids = true
all_present (o ∷ os) ids = elim (ids o) [ none ↦ false | some id ↦ all_present os ids ]

-- How main goes on: with the simulation, or with EXIT_FAILURE.
pub data Start : Type 0 where
  running exit_failure : Start

module _ {K : Type 0} (kernel : Kernel K) where
  -- The id under which an object of the program exists.
  abbrev pub found : Object → K → Option ℕ
  found o k = kernel.find (kind_of o) (key_of o) k

  -- cleanup_stale_ipc_resources, for the given objects
  unfoldable pub cleanup_stale : List Object → K → K
  cleanup_stale [] k = k
  cleanup_stale (o ∷ os) k = elim (found o k) [
    | none ↦ cleanup_stale os k
    | some id ↦ cleanup_stale os (kernel.remove (kind_of o) id k).1
  ]

  unfoldable pub cleanup_stale_ipc_resources : K → K
  cleanup_stale_ipc_resources k = cleanup_stale all_objects k

  -- `id = xxxget(KEY, ..., IPC_CREAT | 0666);`
  unfoldable pub create_object : Object → Ipc K → Ipc K
  create_object o s =
      let r = kernel.create (kind_of o) (key_of o) s.system in
      record s { system = r.1; ids = assign o r.0 s.ids }

  unfoldable pub create_all : List Object → Ipc K → Ipc K
  create_all [] s = s
  create_all (o ∷ os) s = create_all os (create_object o s)

  -- `p = shmat(id, NULL, 0);`; the id is not -1 here.
  unfoldable pub attach_object : Object → Ipc K → Ipc K
  attach_object o s = elim (s.ids o) [
    | none ↦ record s { addresses = assign o none s.addresses }
    | some id ↦
        let r = kernel.attach id s.system in
        record s { system = r.1; addresses = assign o r.0 s.addresses }
  ]

  unfoldable pub attach_all : List Object → Ipc K → Ipc K
  attach_all [] s = s
  attach_all (o ∷ os) s = attach_all os (attach_object o s)

  -- allocate_ipc
  unfoldable pub allocate_ipc : Ipc K → Start × Ipc K
  allocate_ipc s =
      let s1 = create_all allocated s in
      if not (all_present allocated s1.ids)
      then (exit_failure, s1)
      else let s2 = attach_all mapped s1 in
        if not (all_present mapped s2.addresses) then (exit_failure, s2) else (running, s2)

  -- The shmdts of cleanup_ipc, and its IPC_RMIDs.
  unfoldable pub detach_all : List Object → (Object → Option ℕ) → K → K
  detach_all [] addresses k = k
  detach_all (o ∷ os) addresses k = elim (addresses o) [
    | none ↦ detach_all os addresses k
    | some address ↦ detach_all os addresses (kernel.detach address k)
  ]

  unfoldable pub remove_all : List Object → (Object → Option ℕ) → K → K
  remove_all [] ids k = k
  remove_all (o ∷ os) ids k = elim (ids o) [
    | none ↦ remove_all os ids k
    | some id ↦ remove_all os ids (kernel.remove (kind_of o) id k).1
  ]

  -- cleanup_ipc
  unfoldable pub cleanup_ipc : Ipc K → Ipc K
  cleanup_ipc s = record s {
    system = remove_all all_objects s.ids (detach_all (config ∷ mapped) s.addresses s.system);
  }

  -- main, from cleanup_stale_ipc_resources to allocate_ipc; `readable` is whether read_config_file
  -- has returned 0.
  unfoldable pub start : Bool → K → Start × Ipc K
  start readable k =
      let s1 =
        create_object config
          (record { system = cleanup_stale_ipc_resources k; ids = nothing; addresses = nothing }) in
      elim (s1.ids config) [
        | none ↦ (exit_failure, s1)
        | some id ↦
            let s2 = attach_object config s1 in
            elim (s2.addresses config) [
              | none ↦ (exit_failure, s2)
              | some address ↦
                  if not readable then (exit_failure, cleanup_ipc s2) else allocate_ipc s2
            ]
      ]
