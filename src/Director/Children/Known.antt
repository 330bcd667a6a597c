-- ===== src/Director/Children/Known.antt =====
-- What create_children of src/director.c knows of the processes that it has started.
use operative_system_project.Prelude.{
  ℕ, ◌+◌, ◌≡◌, refl, sym, ap, ◌∙◌, List, [], ◌∷◌, ◌++◌, Option-cases, length, append_assoc,
  append-nil, inl, inr, ◌<◌, some, subst,
}
use operative_system_project.Prelude.Int.{ℤ, pos}
use operative_system_project.Commons.{WorkerInfo, UserInfo}
use operative_system_project.Logger.{Text}
use operative_system_project.Director.Children.{
  Program, ticket_path, operator_path, user_path, Launch, Host, Spawned, spawned, fork_failed,
  spawn_process, spawn_each, Children, with_entry, ◌>>=◌, create_children, read_args, IsHost,
}

-- The processes of the entries from index `i` on: each has its index as its first argument.
abbrev pub launches : {A : Type 0} → Host → Program → Text → (A → ℤ) → ℕ → List A → List Launch
launches host program director_pid_arg pid_of i [] = []
launches host program director_pid_arg pid_of i (x ∷ xs) =
    record { pid = pid_of x; program = program; args = host.print i ∷ director_pid_arg ∷ [] }
    ∷ launches host program director_pid_arg pid_of (i + 1) xs

module _ (host : Host) (director_pid_arg : Text) where
  module _ {A : Type 0} (program : Program) (set_pid : ℤ → A → A) (pid_of : A → ℤ)
      (sets : (p : ℤ) (x : A) → pid_of (set_pid p x) ≡ p) where
    -- The processes that have been added are those of the entries.
    abbrev Adds : List Launch → ℕ → Spawned (List A) → Type 0
    Adds launched i (spawned ys l) =
        l ≡ launched ++ launches host program director_pid_arg pid_of i ys
    Adds launched i (fork_failed l) =
        (ys : List A) × (l ≡ launched ++ launches host program director_pid_arg pid_of i ys)

    abbrev entry : ℕ → ℤ → Launch
    entry i p = record { pid = p; program = program; args = host.print i ∷ director_pid_arg ∷ [] }

    moved :
        (i : ℕ) (x : A) (launched : List Launch) (p : ℤ) (ys : List A)
        → launched ++ entry i p ∷ [] ++ launches host program director_pid_arg pid_of (i + 1) ys
          ≡ launched ++ launches host program director_pid_arg pid_of i (set_pid p x ∷ ys)
    moved i x launched p ys =
        append_assoc launched _ _
        ∙ ap
            (λ q.
              launched
              ++ record { pid = q; program = program; args = host.print i ∷ director_pid_arg ∷ [] }
                ∷ launches host program director_pid_arg pid_of (i + 1) ys)
            (sym (sets p x))

    one_more :
        (i : ℕ) (x : A) (launched : List Launch) (p : ℤ) (o : Spawned (List A))
        → Adds (launched ++ entry i p ∷ []) (i + 1) o
        → Adds launched i (with_entry (set_pid p x) o)
    one_more i x launched p (spawned ys l) e = e ∙ moved i x launched p ys
    one_more i x launched p (fork_failed l) e = (set_pid p x ∷ e.0, e.1 ∙ moved i x launched p e.0)

    spawn_each-Adds :
        (i : ℕ) (xs : List A) (launched : List Launch)
        → Adds launched i (spawn_each host program director_pid_arg set_pid i xs launched)
    unfolding spawn_each spawn_process
    spawn_each-Adds i [] launched = sym (append-nil launched)
    spawn_each-Adds i (x ∷ xs) launched = elim (Option-cases (host.fork (length launched))) [
      | inl n ↦ rw (n, Adds) ([], sym (append-nil launched))
      | inr (p, e) ↦
          rw (e, Adds)
            (one_more i x launched p
              (spawn_each host program director_pid_arg set_pid (i + 1) xs
                (launched ++ entry i p ∷ []))
              (spawn_each-Adds (i + 1) xs (launched ++ entry i p ∷ [])))
    ]

  -- What has been started is the ticket dispenser, and the process of every entry.
  abbrev pub started : Children → List Launch
  started c =
      record { pid = c.ticket_pid; program = ticket_path; args = [] }
        ∷ launches host operator_path director_pid_arg (λ w. w.pid) 0 c.workers
      ++ launches host user_path director_pid_arg (λ u. u.pid) 0 c.users

  abbrev Knows : Spawned Children → Type 0
  Knows (spawned c l) = l ≡ started c
  Knows (fork_failed l) = Unit {0}

  abbrev ticket : ℤ → Launch
  ticket p = record { pid = p; program = ticket_path; args = [] }

  users-Knows :
      (p : ℤ) (ws : List WorkerInfo) (launched : List Launch) (o : Spawned (List UserInfo))
      → launched ≡ ticket p ∷ launches host operator_path director_pid_arg (λ w. w.pid) 0 ws
      → Adds {A = UserInfo} user_path
          (λ q u. record u { pid = q })
          (λ u. u.pid)
          (λ q u. refl)
          launched
          0
          o
      → Knows (o >>= λ us l. spawned (record { ticket_pid = p; workers = ws; users = us }) l)
  users-Knows p ws launched (spawned us l) e a =
      a ∙ ap (λ x. x ++ launches host user_path director_pid_arg (λ u. u.pid) 0 us) e
  users-Knows p ws launched (fork_failed l) e a = tt

  workers-Knows :
      (p : ℤ) (users : List UserInfo) (o : Spawned (List WorkerInfo))
      → Adds {A = WorkerInfo} operator_path
          (λ q w. record w { pid = q })
          (λ w. w.pid)
          (λ q w. refl)
          (ticket p ∷ [])
          0
          o
      → Knows (
          o >>= λ ws l.
          spawn_each host user_path director_pid_arg (λ q u. record u { pid = q }) 0 users l
          >>= λ us l'. spawned (record { ticket_pid = p; workers = ws; users = us }) l')
  workers-Knows p users (spawned ws l) a =
      users-Knows p ws l
        (spawn_each host user_path director_pid_arg (λ q u. record u { pid = q }) 0 users l) a
        (spawn_each-Adds {A = UserInfo} user_path (λ q u. record u { pid = q }) (λ u. u.pid)
          (λ q u. refl) 0 users l)
  workers-Knows p users (fork_failed l) a = tt

  create-Knows :
      (workers : List WorkerInfo) (users : List UserInfo)
      → Knows (create_children host director_pid_arg workers users)
  unfolding create_children spawn_process
  create-Knows workers users = elim (Option-cases (host.fork 0)) [
    | inl n ↦ rw (n, Knows) tt
    | inr (p, e) ↦
        rw (e, Knows)
          (workers-Knows p users
            (spawn_each host operator_path director_pid_arg (λ q w. record w { pid = q }) 0 workers
              (ticket p ∷ []))
            (spawn_each-Adds {A = WorkerInfo} operator_path (λ q w. record w { pid = q })
              (λ w. w.pid) (λ q w. refl) 0 workers (ticket p ∷ [])))
  ]

pub started_all :
    (host : Host) (director_pid_arg : Text) (workers : List WorkerInfo) (users : List UserInfo)
    (c : Children) (l : List Launch)
    → create_children host director_pid_arg workers users ≡ spawned c l
    → l ≡ started host director_pid_arg c
started_all host director_pid_arg workers users c l e =
    subst (Knows host director_pid_arg) e (create-Knows host director_pid_arg workers users)

-- If all forks succeed, the processes that create_children has started are the ticket dispenser and
-- one for each entry of workers and users, whose pid stands in the entry; and from the arguments
-- for the entry at an index that fits into an int the process reads this index, since a printed
-- number is read back.
pub children_known :
    (host : Host) (law : IsHost host) (director_pid : ℕ) (workers : List WorkerInfo)
    (users : List UserInfo) (c : Children) (l : List Launch) (i : ℕ)
    → director_pid < 2147483648
    → i < 2147483648
    → create_children host (host.print director_pid) workers users ≡ spawned c l
    → (l ≡ started host (host.print director_pid) c)
      × (read_args host (host.print i ∷ host.print director_pid ∷ []) ≡ some (pos i))
unfolding read_args
children_known host law director_pid workers users c l i small fits e = (
  started_all host (host.print director_pid) workers users c l e,
  rw (law.reads i fits, read_args)
      (rw (law.reads director_pid small, read_args) (ap (λ r. some r.0) (law.reads i fits))),
)
