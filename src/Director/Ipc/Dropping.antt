-- ===== src/Director/Ipc/Dropping.antt =====
-- What one IPC_RMID of src/director.c does to the objects of the program.
use operative_system_project.Prelude.{
  ℕ, ◌≡◌, refl, sym, ap, ◌∙◌, List, [], ◌∷◌, Bool-cases, Option, Option-cases, none, some, inl, inr,
  if◌then◌else◌,
}
use operative_system_project.Director.Ipc.{
  Object, Kernel, IsKernel, kind_of, key_of, found, all_objects, config, messages, semaphores,
  counters, workers, users, stats, queues, Kind,
}

module _ {K : Type 0} (kernel : Kernel K) where
  -- The id under which an object is found after an IPC_RMID of what is found now: none, unless
  -- the removal is refused.
  unfoldable pub remains : Kind → Option ℕ → K → Option ℕ
  remains kind none k = none
  remains kind (some id) k = if (kernel.remove kind id k).0 then none else some id

  abbrev pub left : Object → K → Option ℕ
  left o k = remains (kind_of o) (found kernel o k) k

  pub left-none : (o : Object) (k : K) → found kernel o k ≡ none → left o k ≡ none
  unfolding remains
  left-none o k n = rw n refl

  pub left-some :
      (o : Object) (id : ℕ) (k : K)
      → found kernel o k ≡ some id
      → left o k ≡ (if (kernel.remove (kind_of o) id k).0 then none else some id)
  unfolding remains
  left-some o id k i = rw i refl

  -- What has been found has been removed, or the removal has been refused.
  abbrev pub AreLeft : List Object → K → Type 0
  AreLeft [] k = Unit {0}
  AreLeft (o ∷ os) k = (found kernel o k ≡ left o k) × AreLeft os k

  pub all_left : (k : K) → AreLeft all_objects k → (o : Object) → found kernel o k ≡ left o k
  all_left k g messages = g.0
  all_left k g semaphores = g.1.0
  all_left k g config = g.1.1.0
  all_left k g counters = g.1.1.1.0
  all_left k g workers = g.1.1.1.1.0
  all_left k g users = g.1.1.1.1.1.0
  all_left k g stats = g.1.1.1.1.1.1.0
  all_left k g queues = g.1.1.1.1.1.1.1.0

  module _ (law : IsKernel kernel) where
    -- The removal of another object.
    pub drop_apart :
        (o p : Object) (id : ℕ) (k : K)
        → ¬ ((kind_of o ≡ kind_of p) × (found kernel p k ≡ some id))
        → let k1 = (kernel.remove (kind_of o) id k).1 in
          (found kernel p k1 ≡ found kernel p k) × (left p k1 ≡ left p k)
    drop_apart o p id k other =
        let same = law.remove_apart (kind_of o) (kind_of p) (key_of p) id k other in
        elim (Option-cases (found kernel p k)) [
          | inl n ↦ (same, left-none p _ (same ∙ n) ∙ sym (left-none p k n))
          | inr (id', i) ↦ (
            same,
            left-some p id' _ (same ∙ i)
                ∙ ap (λ b. if b then none else some id')
                    (law.answer_apart (kind_of o) (kind_of p) id id' k
                      (λ h. other (h.0, i ∙ ap some (sym h.1))))
                ∙ sym (left-some p id' k i),
          )
        ]

    -- The removal of the object itself.
    pub drop_own :
        (o : Object) (id : ℕ) (k : K)
        → found kernel o k ≡ some id
        → let k1 = (kernel.remove (kind_of o) id k).1 in
          (found kernel o k1 ≡ left o k) × (left o k1 ≡ left o k)
    drop_own o id k i = elim (Bool-cases (kernel.remove (kind_of o) id k).0) [
      | inl success ↦
          let gone = law.removed (kind_of o) (key_of o) id k i success in
          let nothing_left : left o k ≡ none = left-some o id k i ∙ rw success refl in
          (gone ∙ sym nothing_left, left-none o _ gone ∙ sym nothing_left)
      | inr failure ↦
          let same = law.refused (kind_of o) id k failure in
          let all_left : left o k ≡ some id = left-some o id k i ∙ rw failure refl in
          (ap (found kernel o) same ∙ i ∙ sym all_left, ap (left o) same)
    ]
