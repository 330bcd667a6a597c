-- ===== src/Director/Children/Tests.antt =====
-- Two operators and a user, on a host where a printed number is a text of that many bytes.
use operative_system_project.Prelude.{
  ◌+◌, ◌≡◌, refl, ap, List, [], ◌∷◌, ◌++◌, some, map, arith, length, replicate, length-replicate,
}
use operative_system_project.Prelude.Int.{pos}
use operative_system_project.Commons.{UserInfo}
use operative_system_project.Shared.Tests.{small_worker}
use operative_system_project.Process.{Signal}
use operative_system_project.Director.Children.{
  Launch, Host, IsHost, Children, kill, waitpid, stop_children, create_children, spawned,
  spawn_each, spawn_process, read_args,
}
use operative_system_project.Director.Children.Known.{started, children_known}
use operative_system_project.Director.Children.Stopped.{pids, stop_children_stops}

abbrev host : Host
host = record {
  fork = λ n. some (pos (n + 40));
  print = λ n. replicate n 49;
  strtol = λ t. (pos (length t), []);
}

host-IsHost : IsHost host
host-IsHost = record { reads = λ n h. ap (λ k. (pos k, [])) (length-replicate n 49) }

abbrev user : UserInfo
user = record { pid = pos 0; go_probability = pos 50 }

abbrev children : Children
children = record {
  ticket_pid = pos 40;
  workers = record small_worker { pid = pos 41 } ∷ record small_worker { pid = pos 42 } ∷ [];
  users = record user { pid = pos 43 } ∷ [];
}

abbrev launched : List Launch
launched = started host (replicate 7 49) children

created :
    create_children host (replicate 7 49) (small_worker ∷ small_worker ∷ []) (user ∷ [])
    ≡ spawned children launched
unfolding create_children spawn_each spawn_process
created = refl

children_known_example :
    (launched ≡ started host (replicate 7 49) children)
    × (read_args host (replicate 1 49 ∷ replicate 7 49 ∷ []) ≡ some (pos 1))
children_known_example =
    children_known host host-IsHost 7 (small_worker ∷ small_worker ∷ []) (user ∷ []) children
      launched 1 (omega arith) (omega arith) created

stop_children_stops_example :
    stop_children children
    ≡ map (λ pid. kill pid Signal.sigterm) (pids launched)
      ++ map waitpid ((pos 41 ∷ pos 42 ∷ []) ++ (pos 43 ∷ []) ++ pos 40 ∷ [])
stop_children_stops_example =
    stop_children_stops host (replicate 7 49) (small_worker ∷ small_worker ∷ []) (user ∷ [])
      children launched created (refl, (refl, (refl, (refl, tt))))
