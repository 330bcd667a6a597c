-- ===== src/Director/Children.antt =====
-- The processes that src/director.c starts and ends: spawn_process, create_children and
-- stop_children, and what main of src/operator.c and of src/user.c reads from its arguments. fork,
-- snprintf and strtol are arguments here.
pub mod Known
pub mod Stopped
mod Tests
use operative_system_project.Prelude.{
  ℕ, suc, ◌+◌, ◌<◌, ◌≡◌, true, false, if◌then◌else◌, List, [], ◌∷◌, ◌++◌, Option, none, some,
  length, map,
}
use operative_system_project.Prelude.Int.{ℤ, pos, ltb_ℤ}
use operative_system_project.Commons.{WorkerInfo, UserInfo}
use operative_system_project.Logger.{Text}
use operative_system_project.Process.{Signal}
use operative_system_project.Director.{live}

-- TICKET_PATH, OPERATOR_PATH and USER_PATH
pub data Program : Type 0 where
  ticket_path operator_path user_path : Program

-- A process that has been started: its id, its program, and its arguments behind the path.
pub record Launch : Type 0 where
  pub pid : ℤ
  pub program : Program
  pub args : List Text

-- What the code calls: fork, by how many processes have been started before, snprintf with "%d" for
-- an index, and strtol in base 10 (with the cast to int), the number and the text behind it.
pub record Host : Type 0 where
  pub fork : ℕ → Option ℤ
  pub print : ℕ → Text
  pub strtol : Text → ℤ × Text

-- The number that has been printed is read back whole, if it fits into an int.
pub record IsHost (host : Host) : Type 0 where
  pub reads : (n : ℕ) → n < 2147483648 → host.strtol (host.print n) ≡ (pos n, [])

-- How starting processes ends: with a result, or with exit(EXIT_FAILURE); and what has been started.
pub data Spawned (A : Type 0) : Type 0 where
  spawned : A → List Launch → Spawned A
  fork_failed : List Launch → Spawned A

-- One after the other, unless a fork has failed.
infixl 5 ◌>>=◌
abbrev pub ◌>>=◌ : {A B : Type 0} → Spawned A → (A → List Launch → Spawned B) → Spawned B
spawned a launched >>= g = g a launched
fork_failed launched >>= g = fork_failed launched

-- spawn_process
unfoldable pub spawn_process : Host → Program → List Text → List Launch → Spawned ℤ
spawn_process host program args launched = elim (host.fork (length launched)) [
  | none ↦ fork_failed launched
  | some pid ↦ spawned pid (launched ++ record { pid = pid; program = program; args = args } ∷ [])
]

-- The entry before those that the rest of the loop sets.
abbrev pub with_entry : {A : Type 0} → A → Spawned (List A) → Spawned (List A)
with_entry x (spawned xs launched) = spawned (x ∷ xs) launched
with_entry x (fork_failed launched) = fork_failed launched

-- A loop of create_children from index `i` on, over the entries whose pid it sets.
unfoldable pub spawn_each :
    {A : Type 0} → Host → Program → Text → (ℤ → A → A) → ℕ → List A → List Launch → Spawned (List A)
spawn_each host program director_pid_arg set_pid i [] launched = spawned [] launched
spawn_each host program director_pid_arg set_pid i (x ∷ xs) launched =
    elim (spawn_process host program (host.print i ∷ director_pid_arg ∷ []) launched) [
      | fork_failed launched' ↦ fork_failed launched'
      | spawned pid launched' ↦
          with_entry (set_pid pid x)
            (spawn_each host program director_pid_arg set_pid (i + 1) xs launched')
    ]

-- ticket_pid, and the entries of `workers` and `users`
pub record Children : Type 0 where
  pub ticket_pid : ℤ
  pub workers : List WorkerInfo
  pub users : List UserInfo

-- create_children
unfoldable pub create_children : Host → Text → List WorkerInfo → List UserInfo → Spawned Children
create_children host director_pid_arg workers users =
    spawn_process host ticket_path [] [] >>= λ ticket_pid launched.
    spawn_each host operator_path director_pid_arg (λ pid w. record w { pid = pid }) 0 workers
      launched
    >>= λ workers' launched'.
        spawn_each host user_path director_pid_arg (λ pid u. record u { pid = pid }) 0 users
          launched'
        >>= λ users' launched''.
            spawned (record { ticket_pid = ticket_pid; workers = workers'; users = users' })
              launched''

-- The arguments of an operator or a user: its index, unless main returns EXIT_FAILURE. argv[0] is
-- the path.
unfoldable pub read_args : Host → List Text → Option ℤ
read_args host [] = none
read_args host (index_arg ∷ []) = none
read_args host (index_arg ∷ pid_arg ∷ []) = elim (host.strtol index_arg).1 [
  | [] ↦ elim (host.strtol pid_arg).1 [ [] ↦ some (host.strtol index_arg).0 | ◌∷◌ _ _ ↦ none ]
  | ◌∷◌ _ _ ↦ none
]
read_args host (index_arg ∷ pid_arg ∷ more ∷ args) = none

-- A system call of stop_children.
pub data Call : Type 0 where
  kill : ℤ → Signal → Call
  waitpid : ℤ → Call

-- stop_children: its calls in order
unfoldable pub stop_children : Children → List Call
stop_children c =
    map (λ pid. kill pid Signal.sigterm) (live (c.ticket_pid ∷ []))
    ++ map (λ pid. kill pid Signal.sigterm) (live (map (λ w. w.pid) c.workers))
    ++ map (λ pid. kill pid Signal.sigterm) (live (map (λ u. u.pid) c.users))
    ++ map waitpid (live (map (λ w. w.pid) c.workers))
    ++ map waitpid (live (map (λ u. u.pid) c.users))
    ++ map waitpid (live (c.ticket_pid ∷ []))
