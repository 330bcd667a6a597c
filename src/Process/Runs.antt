-- ===== src/Process/Runs.antt =====
-- Runs of a process with nothing but completed calls: how many calls it makes, what it returns and
-- what it leaves, composed step by step.
use operative_system_project.Prelude.{
  ℕ, ◌≡◌, refl, List, ◌∷◌, ◌+◌, zero, suc, Bool, set, ap, ◌<◌, ◌-◌, ◌∙◌, ◌++◌, [], arith, get_or,
  set-set_restore, true, false, subst, if◌then◌else◌, sym,
}
use operative_system_project.Process.{
  Event, Proc, Signal, grant, Act, ◌>>=◌, ◌>>◌, peek, ret, commit, Attempt, send, and_then, done,
  require, returned, retry, got, raise, lower, raised, lowered, sent, Answer,
}
use operative_system_project.Shared.{Shared, Message}
use operative_system_project.Process.Quiet.{
  Has, value, world, with_sem, retry_works, require_up_works, require_down_works,
}

-- So many calls complete, and then the script goes on.
unfoldable pub grants : {D : Type 0} → ℕ → List (Event D) → List (Event D)
grants zero es = es
grants (suc k) es = grant ∷ grants k es

pub grants-add :
    {D : Type 0} (j k : ℕ) (es : List (Event D)) → grants (j + k) es ≡ grants j (grants k es)
unfolding grants
grants-add zero k es = ap (λ i. grants i es) (omega arith)
grants-add (suc j) k es = ap (λ i. grants i es) shift ∙ ap (λ l. grant ∷ l) (grants-add j k es)
  where
    shift : suc j + k ≡ suc (j + k)
    shift = omega arith

module _ {F D : Type 0} where
  -- From the shared state `s` the process returns `a` after `k` calls, and leaves `s'`.
  pub record Runs {A : Type 0} (m : Proc F D A) (f : F) (s : Shared D) (k : ℕ) (a : A)
      (s' : Shared D) : Type 0 where
    pub run :
        (es : List (Event D)) (t : List (Act D))
        → (u : List (Act D)) × (m (world f s (grants k es) t) ≡ returned a (world f s' es u))

  pub bind-Runs :
      {A B : Type 0} (m : Proc F D A) (g : A → Proc F D B) (f : F) (s s' s'' : Shared D) (j k : ℕ)
      (a : A) (b : B)
      → Runs m f s j a s'
      → Runs (g a) f s' k b s''
      → Runs (m >>= g) f s (j + k) b s''
  bind-Runs m g f s s' s'' j k a b p q = record {
    run = λ es t.
        let (u, e) = p.run (grants k es) t in
        let (v, e') = q.run es u in (v, rw (grants-add j k es) (ap (λ o. and_then o g) e ∙ e'));
  }

  pub then_steps :
      {B : Type 0} (m : Proc F D (Unit {0})) (g : Proc F D B) (f : F) (s s' s'' : Shared D)
      (j k : ℕ) (b : B)
      → Runs m f s j tt s'
      → Runs g f s' k b s''
      → Runs (m >> g) f s (j + k) b s''
  then_steps m g f s s' s'' j k b p q = bind-Runs m (λ _. g) f s s' s'' j k tt b p q

  pub peek-Runs :
      {B : Type 0} (g : Shared D → Proc F D B) (f : F) (s s' : Shared D) (k : ℕ) (b : B)
      → Runs (g s) f s k b s'
      → Runs (peek >>= g) f s k b s'
  peek-Runs g f s s' k b p = record { run = λ es t. p.run es t }

  pub ret-Runs : {A : Type 0} (a : A) (f : F) (s : Shared D) → Runs (ret a) f s 0 a s
  unfolding grants
  ret-Runs a f s = record { run = λ es t. (t, refl) }

  pub if_true-Runs :
      {B : Type 0} (b : Bool) (m k : Proc F D B) (f : F) (s s' : Shared D) (j : ℕ) (r : B)
      → b ≡ true
      → Runs m f s j r s'
      → Runs (if b then m else k) f s j r s'
  if_true-Runs b m k f s s' j r e p = subst (λ c. Runs (if c then m else k) f s j r s') (sym e) p

  pub if_false-Runs :
      {B : Type 0} (b : Bool) (m k : Proc F D B) (f : F) (s s' : Shared D) (j : ℕ) (r : B)
      → b ≡ false
      → Runs k f s j r s'
      → Runs (if b then m else k) f s j r s'
  if_false-Runs b m k f s s' j r e p = subst (λ c. Runs (if c then m else k) f s j r s') (sym e) p

  -- The number of calls and the result, computed otherwise.
  pub recount :
      {B : Type 0} (m : Proc F D B) (f : F) (s s' : Shared D) (j k : ℕ) (a b : B)
      → j ≡ k
      → a ≡ b
      → Runs m f s j a s'
      → Runs m f s k b s'
  recount m f s s' j k a b e q p =
      subst (λ x. Runs m f s k x s') q (subst (λ i. Runs m f s i a s') e p)

  pub commit-Runs :
      (g : Shared D → Shared D) (act : Act D) (f : F) (s : Shared D)
      → Runs (commit g act) f s 0 tt (g s)
  unfolding grants
  commit-Runs g act f s = record { run = λ es t. (act ∷ t, refl) }

  pub require-Runs :
      (m : Proc F D (Answer (Unit {0}))) (f : F) (s s' : Shared D) (j : ℕ)
      → Runs m f s j (got tt) s'
      → Runs (require m) f s j tt s'
  require-Runs m f s s' j p =
      recount _ f s s' (j + 0) j tt tt (omega arith) refl
        (bind-Runs m _ f s s' s' j 0 (got tt) tt p (ret-Runs tt f s'))

  -- What comes next goes on from where the run has ended.
  pub goes_on :
      {A B : Type 0} (m : Proc F D A) (g : A → Proc F D B) (f : F) (s s' : Shared D) (j : ℕ) (a : A)
      (es : List (Event D)) (t : List (Act D))
      → Runs m f s j a s'
      → (u : List (Act D)) × ((m >>= g) (world f s (grants j es) t) ≡ g a (world f s' es u))
  goes_on m g f s s' j a es t p = let (u, e) = p.run es t in (u, ap (λ o. and_then o g) e)

  module _ (handle : Signal → F → F) (stop : F → Bool) (f : F) (s : Shared D) where
    pub retry-Runs :
        {A : Type 0} (call : Shared D → Attempt D A) (a : A) (s' : Shared D) (act : Act D)
        → call s ≡ done a s' act
        → Runs (retry handle stop call) f s 1 (got a) s'
    unfolding grants
    retry-Runs call a s' act e = record {
      run = λ es t. (act ∷ t, retry_works handle stop f s es t call a s' act e);
    }

    pub up-Runs :
        (k : ℕ)
        → Has k s
        → Runs (require (retry handle stop (raise k))) f s 1 tt (with_sem k (value k s + 1) s)
    unfolding grants
    up-Runs k h = record { run = λ es t. (raised k ∷ t, require_up_works handle stop f s es t k h) }

    pub down-Runs :
        (k : ℕ)
        → Has k s
        → 0 < value k s
        → Runs (require (retry handle stop (lower k))) f s 1 tt (with_sem k (value k s - 1) s)
    unfolding grants
    down-Runs k h p = record {
      run = λ es t. (lowered k ∷ t, require_down_works handle stop f s es t k h p);
    }

    pub send-Runs :
        (m : Message)
        → Runs
            (retry handle stop (send m))
            f
            s
            1
            (got tt)
            (record s { mailbox = s.mailbox ++ m ∷ [] })
    unfolding send
    send-Runs m = retry-Runs (send m) tt _ (sent m) refl

-- A lock that is given back leaves the semaphores as they were.
pub restored :
    {D : Type 0} (k : ℕ) (s s' : Shared D)
    → s'.sems ≡ set s.sems k (value k s - 1)
    → Has k s
    → 0 < value k s
    → with_sem k (value k s' + 1) s' ≡ record s' { sems = s.sems }
restored k s s' e h p =
    ap (λ l. record s' { sems = l })
      (ap (λ l. set l k (get_or l k 0 + 1)) e ∙ set-set_restore s.sems k h p)
