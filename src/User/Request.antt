-- ===== src/User/Request.antt =====
-- request_service of src/user.c, over every interleaving: what it sends and what it takes.
use operative_system_project.Prelude.{
  refl, ℕ, ◌≡◌, List, ◌∷◌, ◌⊎◌, inl, inr, true, ap, Option-cases, Bool-cases, some, arith, [], none,
}
use operative_system_project.User.{
  Flags, Identity, handle_user_signal, request_of, reply_mtype, request_service,
}
use operative_system_project.Shared.{take_message, Shared, Message, mtype_of, ticket_request}
use operative_system_project.Process.{
  stopped, failed, receive, Act, World, done, received, sent, waits, Answer, got, retry,
}
use operative_system_project.Prelude.Int.{ℤ, ◌==ℤ◌, ==ℤ_iff}
use operative_system_project.Process.Post.{At, Post, Keeps, Post-bind, retry-Post}
use operative_system_project.Process.Logs.{IsKept, Sends, receive_done, send-Post}

take_message_lem :
    (t : ℤ) (ms : List Message) (m : Message) (rest : List Message)
    → take_message t ms ≡ some (m, rest)
    → mtype_of m ≡ t
unfolding take_message
take_message_lem t [] m rest e = ground arith
take_message_lem t (x ∷ ms) m rest e = elim (Bool-cases (mtype_of x ==ℤ t)) [
  | inl here ↦
      let taken : some (x, ms) ≡ some (m, rest) = rw (here, take_message) at e in
      cc (taken, (==ℤ_iff (mtype_of x) t).0 here)
  | inr there ↦ elim (Option-cases (take_message t ms)) [
    | inl q ↦
        let taken : none ≡ some (m, rest) = rw (there, q, take_message) at e in
        ground (arith, taken)
    | inr ((m', rest'), q) ↦
        let taken : some (m', x ∷ rest') ≡ some (m, rest) = rw (there, q, take_message) at e in
        cc (taken, take_message_lem t ms m' rest' q)
  ]
]

module _ {D : Type 0} where
  receive_lem :
      (t : ℤ) (s s' : Shared D) (m : Message) (act : Act D)
      → receive t s ≡ done m s' act
      → (act ≡ received m) × (mtype_of m ≡ t)
  unfolding receive
  receive_lem t s s' m act h = elim (Option-cases (take_message t s.mailbox)) [
    | inl q ↦
        let none_there : waits ≡ done m s' act = rw (q, receive) at h in ground (arith, none_there)
    | inr ((m', rest), q) ↦
        let taken : done m' (record s { mailbox = rest }) (received m') ≡ done m s' act =
          rw (q, receive) at h in
        (cc taken, cc (taken, take_message_lem t s.mailbox m' rest q))
  ]

  -- What request_service has done when it returns: it has sent the request and taken a reply to this
  -- user, or SIGTERM has come before the reply, or before the request.
  abbrev pub Asked : (Shared D → Type 0) → Identity → ℕ → List (Act D) → World Flags D → Type 0
  Asked I me service t w =
      ((m : Message) × (mtype_of m ≡ reply_mtype me)
        × At I (received m ∷ sent (ticket_request (request_of me service)) ∷ t) w)
      ⊎ (At I (sent (ticket_request (request_of me service)) ∷ t) w
          × (w.flags.terminate_requested ≡ true))
      ⊎ (At I t w × (w.flags.terminate_requested ≡ true))

  module _ (n : ℕ) (I : Shared D → Type 0) (keep : IsKept n I) (me : Identity) (service : ℕ)
      (t : List (Act D)) where
    abbrev asked : List (Act D)
    asked = sent (ticket_request (request_of me service)) ∷ t

    abbrev Reply : Answer Message → World Flags D → Type 0
    Reply (got m) w = (mtype_of m ≡ reply_mtype me) × At I (received m ∷ asked) w
    Reply stopped w = At I asked w × (w.flags.terminate_requested ≡ true)
    Reply failed w = I w.shared

    receive_reply :
        (w : World Flags D)
        → At I asked w
        → Post Reply
            (λ w'. I w'.shared)
            (retry handle_user_signal (λ f. f.terminate_requested) (receive (reply_mtype me)) w)
    receive_reply =
        retry-Post handle_user_signal I (λ f. f.terminate_requested) (receive (reply_mtype me))
          Reply (λ w'. I w'.shared) asked
          (λ f s s' m act es i k d.
            let (rest, q) = receive_done (reply_mtype me) s s' m act d in
            let (e, ours) = receive_lem (reply_mtype me) s s' m act d in
            (
              ours,
              record {
                logged = ap (λ x. x ∷ asked) e;
                holds = rw q (keep.by_mailbox s rest i);
                kept = k;
              },
            ))
          (λ w' at e. (at, e)) (λ w' at. at.holds) (λ w' at. at.holds)

-- Whenever request_service returns, the user has sent his request once and has taken one reply
-- addressed to him, unless SIGTERM has come before one or the other. In any case what the others
-- keep holds at the end.
pub request_service-Asked :
    {D : Type 0} (n : ℕ) (I : Shared D → Type 0) (keep : IsKept n I) (me : Identity) (service : ℕ)
    (w : World Flags D)
    → I w.shared
    → Keeps I w.script
    → Post
        (λ _ w'. Asked I me service w.trace w')
        (λ w'. I w'.shared)
        (request_service me service w)
unfolding request_service
request_service-Asked n I keep me service w i k =
    Post-bind
      (Sends handle_user_signal (λ f. f.terminate_requested) n I keep
        (ticket_request (request_of me service)) w.trace)
      (λ _ w'. Asked I me service w.trace w') (λ w'. I w'.shared) _ _
      (send-Post handle_user_signal (λ f. f.terminate_requested) n I keep
        (ticket_request (request_of me service)) w.trace w
        (record { logged = refl; holds = i; kept = k }))
      (elim [
        | got _ ↦ λ w' at.
            Post-bind (Reply n I keep me service w.trace) (λ _ w''. Asked I me service w.trace w'')
              (λ w''. I w''.shared) _ _ (receive_reply n I keep me service w.trace w' at)
              (elim [
                | got m ↦ (λ w'' h. inl (m, h.0, h.1))
                | stopped ↦ (λ w'' h. inr (inl h))
                | failed ↦ (λ w'' h. h)
              ])
        | stopped ↦ (λ w' h. inr (inr h))
        | failed ↦ (λ w' h. h)
      ])
