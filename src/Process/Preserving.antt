-- ===== src/Process/Preserving.antt =====
-- That a process which makes no calls keeps a property of the shared state that the others keep.
use operative_system_project.Prelude.{Bool, if◌then◌else◌, true, false}
use operative_system_project.Shared.{Shared}
use operative_system_project.Process.{
  World, Act, Proc, ◌>>=◌, ◌>>◌, peek, commit, ret, exit_failure,
}
use operative_system_project.Process.Post.{Post, Post-bind, Keeps}

module _ {F D : Type 0} (I : Shared D → Type 0) where
  -- In every run in which the property holds at first and the others keep it, it holds at the end.
  pub record Preserves {A : Type 0} (m : Proc F D A) : Type 0 where
    pub run :
        (w : World F D)
        → I w.shared
        → Keeps I w.script
        → Post (λ _ w'. I w'.shared × Keeps I w'.script) (λ w'. I w'.shared) (m w)

  pub then_step :
      {B : Type 0} (m : Proc F D (Unit {0})) (k : Proc F D B)
      → Preserves m
      → Preserves k
      → Preserves (m >> k)
  then_step m k h l = record {
    run = λ w i r.
        Post-bind (λ _ w'. I w'.shared × Keeps I w'.script)
          (λ _ w'. I w'.shared × Keeps I w'.script) (λ w'. I w'.shared) (m w) (λ _. k) (h.run w i r)
          (λ a w' g. l.run w' g.0 g.1);
  }

  pub peek_step :
      {B : Type 0} (f : Shared D → Proc F D B)
      → ((s : Shared D) → I s → Preserves (f s))
      → Preserves (peek >>= f)
  peek_step f h = record { run = λ w i k. (h w.shared i).run w i k }

  pub ret_step : {A : Type 0} (a : A) → Preserves (ret a)
  ret_step a = record { run = λ w i k. (i, k) }

  pub exit_step : (A : Type 0) → Preserves {A = A} exit_failure
  exit_step A = record { run = λ w i k. i }

  pub commit_step :
      (g : Shared D → Shared D) (act : Act D)
      → ((s : Shared D) → I s → I (g s))
      → Preserves (commit g act)
  commit_step g act h = record { run = λ w i k. (h w.shared i, k) }

  pub if_step :
      {B : Type 0} (b : Bool) (m k : Proc F D B)
      → Preserves m
      → Preserves k
      → Preserves (if b then m else k)
  if_step true m k h l = h
  if_step false m k h l = l
