-- ===== src/Director/Children/Stopped.antt =====
-- stop_children of src/director.c after create_children.
use operative_system_project.Prelude.{
  ℕ, ◌+◌, ◌≡◌, refl, sym, ap, ap₂, ◌∙◌, true, List, [], ◌∷◌, ◌++◌, map, append_assoc, map-append,
  subst,
}
use operative_system_project.Prelude.Int.{ℤ, pos, ltb_ℤ}
use operative_system_project.Logger.{Text}
use operative_system_project.Process.{Signal}
use operative_system_project.Commons.{WorkerInfo, UserInfo}
use operative_system_project.Director.{live}
use operative_system_project.Director.Children.{
  Program, Launch, Host, Children, kill, waitpid, stop_children, create_children, spawned,
  operator_path, user_path,
}
use operative_system_project.Director.Children.Known.{launches, started, started_all}

-- Ids of processes, as fork returns them.
abbrev pub ArePositive : List ℤ → Type 0
ArePositive [] = Unit {0}
ArePositive (x ∷ xs) = (ltb_ℤ (pos 0) x ≡ true) × ArePositive xs

abbrev pub pids : List Launch → List ℤ
pids l = map (λ x. x.pid) l

live_all : (xs : List ℤ) → ArePositive xs → live xs ≡ xs
unfolding live
live_all [] a = refl
live_all (x ∷ xs) a = rw a.0 (ap (λ r. x ∷ r) (live_all xs a.1))

parts : (xs ys : List ℤ) → ArePositive (xs ++ ys) → ArePositive xs × ArePositive ys
parts [] ys a = (tt, a)
parts (x ∷ xs) ys a = let (p, q) = parts xs ys a.1 in ((a.0, p), q)

pids-launches :
    {A : Type 0} (host : Host) (program : Program) (d : Text) (pid_of : A → ℤ) (i : ℕ) (xs : List A)
    → pids (launches host program d pid_of i xs) ≡ map pid_of xs
pids-launches host program d pid_of i [] = refl
pids-launches host program d pid_of i (x ∷ xs) =
    ap (λ r. pid_of x ∷ r) (pids-launches host program d pid_of (i + 1) xs)

pids-started :
    (host : Host) (d : Text) (c : Children)
    → pids (started host d c)
      ≡ c.ticket_pid ∷ map (λ w. w.pid) c.workers ++ map (λ u. u.pid) c.users
pids-started host d c =
    ap (λ r. c.ticket_pid ∷ r)
      (map-append (λ x. x.pid) (launches host operator_path d (λ w. w.pid) 0 c.workers)
          (launches host user_path d (λ u. u.pid) 0 c.users)
        ∙ ap₂ ◌++◌ (pids-launches host operator_path d (λ w. w.pid) 0 c.workers)
            (pids-launches host user_path d (λ u. u.pid) 0 c.users))

-- The calls for three groups of processes, all of them alive.
calls_joined :
    (t : ℤ) (ws us : List ℤ)
    → map (λ pid. kill pid Signal.sigterm) (t ∷ [])
        ++ map (λ pid. kill pid Signal.sigterm) ws
        ++ map (λ pid. kill pid Signal.sigterm) us
        ++ map waitpid ws
        ++ map waitpid us
        ++ map waitpid (t ∷ [])
      ≡ map (λ pid. kill pid Signal.sigterm) (t ∷ ws ++ us) ++ map waitpid (ws ++ us ++ t ∷ [])
calls_joined t ws us =
    rw
      (
        map-append (λ pid. kill pid Signal.sigterm) ws us,
        map-append waitpid (ws ++ us) (t ∷ []),
        map-append waitpid ws us,
      )
      (ap (λ r. kill t Signal.sigterm ∷ r)
        (ap (λ r. r ++ waitpid t ∷ [])
            (append_assoc
              (map (λ x. kill x Signal.sigterm) ws ++ map (λ x. kill x Signal.sigterm) us)
              (map waitpid ws) (map waitpid us))
          ∙ append_assoc
              (map (λ x. kill x Signal.sigterm) ws ++ map (λ x. kill x Signal.sigterm) us)
              (map waitpid ws ++ map waitpid us) (waitpid t ∷ [])))

-- After a create_children all of whose forks have succeeded, stop_children sends SIGTERM to exactly
-- the processes that have been started, in that order, before it waits for any; then it waits for
-- each of them once, for the ticket dispenser last.
pub stop_children_stops :
    (host : Host) (director_pid_arg : Text) (workers : List WorkerInfo) (users : List UserInfo)
    (c : Children) (l : List Launch)
    → create_children host director_pid_arg workers users ≡ spawned c l
    → ArePositive (pids l)
    → stop_children c
      ≡ map (λ pid. kill pid Signal.sigterm) (pids l)
        ++ map waitpid (map (λ w. w.pid) c.workers ++ map (λ u. u.pid) c.users ++ c.ticket_pid ∷ [])
unfolding stop_children
stop_children_stops host director_pid_arg workers users c l e positive =
    let all : pids l ≡ c.ticket_pid ∷ map (λ w. w.pid) c.workers ++ map (λ u. u.pid) c.users =
      ap pids (started_all host director_pid_arg workers users c l e)
      ∙ pids-started host director_pid_arg c in
    let p = subst ArePositive all positive in
    let (ws, us) = parts (map (λ w. w.pid) c.workers) (map (λ u. u.pid) c.users) p.1 in
    rw
      (
        live_all (c.ticket_pid ∷ []) (p.0, tt),
        live_all (map (λ w. w.pid) c.workers) ws,
        live_all (map (λ u. u.pid) c.users) us,
      )
      (calls_joined c.ticket_pid (map (λ w. w.pid) c.workers) (map (λ u. u.pid) c.users)
        ∙ ap
            (λ r.
              map (λ pid. kill pid Signal.sigterm) r
              ++ map waitpid
                  (map (λ w. w.pid) c.workers ++ map (λ u. u.pid) c.users ++ c.ticket_pid ∷ []))
            (sym all))
