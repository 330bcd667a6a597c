-- ===== src/Director/Ipc/Removal.antt =====
-- What cleanup_ipc of src/director.c leaves in the system.
use operative_system_project.Prelude.{
  ℕ, ◌≡◌, refl, sym, ap, ◌∙◌, subst, List, [], ◌∷◌, Option, Option-cases, none, some, Bool-cases,
  ◌⊎◌, inl, inr, if◌then◌else◌,
}
use native.Mathlib.Decide.{ℕ_discrete}
use operative_system_project.Director.Ipc.{
  Object, Kernel, IsKernel, Ipc, kind_of, key_of, found, all_objects, mapped, remove_all,
  detach_all, cleanup_ipc, config,
}
use operative_system_project.Director.Ipc.Keys.{key_of-injective, not_both}
use operative_system_project.Director.Ipc.Dropping.{
  left, left-none, left-some, drop_apart, drop_own, AreLeft, all_left,
}

module _ {K : Type 0} (kernel : Kernel K) (law : IsKernel kernel) where
  -- What exists is what the variables name, or has been removed; no two variables of a kind hold
  -- the same id.
  record IsNamed (ids : Object → Option ℕ) (k : K) : Type 0 where
    now : (o : Object) → (found kernel o k ≡ ids o) ⊎ (found kernel o k ≡ none)
    distinct :
        (o p : Object) (id : ℕ)
        → kind_of o ≡ kind_of p
        → ids o ≡ some id
        → ids p ≡ some id
        → key_of o ≡ key_of p

  named_apart :
      (o p : Object) (id : ℕ) (ids : Object → Option ℕ) (k : K)
      → ids o ≡ some id
      → IsNamed ids k
      → ¬ (key_of o ≡ key_of p)
      → ¬ ((kind_of o ≡ kind_of p) × (found kernel p k ≡ some id))
  named_apart o p id ids k i named other h = elim (named.now p) [
    | inl same ↦ other (named.distinct o p id h.0 i (sym same ∙ h.1))
    | inr n ↦ not_both n h.1
  ]

  -- The object itself: it has been found under the id, or has been removed before.
  named_own :
      (o : Object) (id : ℕ) (ids : Object → Option ℕ) (k : K)
      → ids o ≡ some id
      → IsNamed ids k
      → let k1 = (kernel.remove (kind_of o) id k).1 in
        (found kernel o k1 ≡ left kernel o k) × (left kernel o k1 ≡ left kernel o k)
  named_own o id ids k i named = elim (named.now o) [
    | inl same ↦ drop_own kernel law o id k (same ∙ i)
    | inr n ↦
        let apart = drop_apart kernel law o o id k (λ h. not_both n h.1) in
        (apart.0 ∙ n ∙ sym (left-none kernel o k n), apart.1)
  ]

  remove-left :
      (o p : Object) (id : ℕ) (ids : Object → Option ℕ) (k : K)
      → ids o ≡ some id
      → IsNamed ids k
      → left kernel p (kernel.remove (kind_of o) id k).1 ≡ left kernel p k
  remove-left o p id ids k i named = elim (ℕ_discrete (key_of o) (key_of p)) [
    | yes same ↦
        subst (λ q. left kernel q (kernel.remove (kind_of o) id k).1 ≡ left kernel q k)
          (key_of-injective o p same) (named_own o id ids k i named).1
    | no other ↦ (drop_apart kernel law o p id k (named_apart o p id ids k i named other)).1
  ]

  -- An object is found, or not, as before, or it is the one removed.
  remove-found :
      (o p : Object) (id : ℕ) (ids : Object → Option ℕ) (k : K)
      → ids o ≡ some id
      → IsNamed ids k
      → (found kernel p (kernel.remove (kind_of o) id k).1 ≡ found kernel p k)
        ⊎ (found kernel p (kernel.remove (kind_of o) id k).1 ≡ left kernel p k)
  remove-found o p id ids k i named = elim (ℕ_discrete (key_of o) (key_of p)) [
    | yes same ↦ inr (
        subst (λ q. found kernel q (kernel.remove (kind_of o) id k).1 ≡ left kernel q k)
          (key_of-injective o p same) (named_own o id ids k i named).0)
    | no other ↦ inl (drop_apart kernel law o p id k (named_apart o p id ids k i named other)).0
  ]

  left_now : (p : Object) (k : K) → (left kernel p k ≡ found kernel p k) ⊎ (left kernel p k ≡ none)
  left_now p k = elim (Option-cases (found kernel p k)) [
    | inl n ↦ inr (left-none kernel p k n)
    | inr (id, i) ↦ elim (Bool-cases (kernel.remove (kind_of p) id k).0) [
      | inl success ↦ inr (left-some kernel p id k i ∙ rw success refl)
      | inr failure ↦ inl (left-some kernel p id k i ∙ rw failure (sym i))
    ]
  ]

  remove-IsNamed :
      (o : Object) (id : ℕ) (ids : Object → Option ℕ) (k : K)
      → ids o ≡ some id
      → IsNamed ids k
      → IsNamed ids (kernel.remove (kind_of o) id k).1
  remove-IsNamed o id ids k i named = record {
    now = λ p. elim (remove-found o p id ids k i named) [
      | inl same ↦ as_before p same
      | inr settled ↦ elim (left_now p k) [
        | inl kept ↦ as_before p (settled ∙ kept)
        | inr gone ↦ inr (settled ∙ gone)
      ]
    ];
    distinct = named.distinct;
  }
    where
      as_before :
          (p : Object)
          → found kernel p (kernel.remove (kind_of o) id k).1 ≡ found kernel p k
          → (found kernel p (kernel.remove (kind_of o) id k).1 ≡ ids p)
            ⊎ (found kernel p (kernel.remove (kind_of o) id k).1 ≡ none)
      as_before p same = elim (named.now p) [ inl e ↦ inl (same ∙ e) | inr n ↦ inr (same ∙ n) ]

  remove_all-left :
      (os : List Object) (ids : Object → Option ℕ) (p : Object) (k : K)
      → IsNamed ids k
      → left kernel p (remove_all kernel os ids k) ≡ left kernel p k
  unfolding remove_all
  remove_all-left [] ids p k named = refl
  remove_all-left (o ∷ os) ids p k named = elim (Option-cases (ids o)) [
    | inl n ↦ rw (n, remove_all) (remove_all-left os ids p k named)
    | inr (id, i) ↦
        rw (i, remove_all)
          (remove_all-left os ids p (kernel.remove (kind_of o) id k).1
              (remove-IsNamed o id ids k i named)
            ∙ remove-left o p id ids k i named)
  ]

  remove_all_settled :
      (os : List Object) (ids : Object → Option ℕ) (p : Object) (k : K)
      → IsNamed ids k
      → found kernel p k ≡ left kernel p k
      → found kernel p (remove_all kernel os ids k) ≡ left kernel p (remove_all kernel os ids k)
  unfolding remove_all
  remove_all_settled [] ids p k named e = e
  remove_all_settled (o ∷ os) ids p k named e = elim (Option-cases (ids o)) [
    | inl n ↦ rw (n, remove_all) (remove_all_settled os ids p k named e)
    | inr (id, i) ↦
        let settled : found kernel p (kernel.remove (kind_of o) id k).1 ≡ left kernel p k =
          elim (remove-found o p id ids k i named) [ inl same ↦ same ∙ e | inr own ↦ own ] in
        rw (i, remove_all)
          (remove_all_settled os ids p (kernel.remove (kind_of o) id k).1
            (remove-IsNamed o id ids k i named) (settled ∙ sym (remove-left o p id ids k i named)))
  ]

  remove_all-AreLeft :
      (os : List Object) (ids : Object → Option ℕ) (k : K)
      → IsNamed ids k
      → AreLeft kernel os (remove_all kernel os ids k)
  unfolding remove_all
  remove_all-AreLeft [] ids k named = tt
  remove_all-AreLeft (o ∷ os) ids k named = elim (Option-cases (ids o)) [
    | inl n ↦
        let missing : found kernel o k ≡ none = elim (named.now o) [
          | inl same ↦ same ∙ n
          | inr m ↦ m
        ] in
        rw (n, remove_all)
          (
            remove_all_settled os ids o k named (missing ∙ sym (left-none kernel o k missing)),
            remove_all-AreLeft os ids k named,
          )
    | inr (id, i) ↦
        let k1 = (kernel.remove (kind_of o) id k).1 in
        let named1 = remove-IsNamed o id ids k i named in
        let own = named_own o id ids k i named in
        rw (i, remove_all)
          (
            remove_all_settled os ids o k1 named1 (own.0 ∙ sym own.1),
            remove_all-AreLeft os ids k1 named1,
          )
  ]

  -- A detached segment can be found, and removed, as before.
  detach_all-same :
      (os : List Object) (addresses : Object → Option ℕ) (o : Object) (id : ℕ) (k : K)
      → let k' = detach_all kernel os addresses k in
        (found kernel o k' ≡ found kernel o k)
        × ((kernel.remove (kind_of o) id k').0 ≡ (kernel.remove (kind_of o) id k).0)
  unfolding detach_all
  detach_all-same [] addresses o id k = (refl, refl)
  detach_all-same (p ∷ os) addresses o id k = elim (Option-cases (addresses p)) [
    | inl n ↦ rw (n, detach_all) (detach_all-same os addresses o id k)
    | inr (a, i) ↦
        let rest = detach_all-same os addresses o id (kernel.detach a k) in
        rw (i, detach_all)
          (
            rest.0 ∙ law.detached (kind_of o) (key_of o) a k,
            rest.1 ∙ law.answer_detached (kind_of o) id a k,
          )
  ]

  -- The variables name exactly what exists.
  abbrev pub IsOwned : Ipc K → Type 0
  IsOwned s = (o : Object) → found kernel o s.system ≡ s.ids o

  IsOwned-IsNamed : (s : Ipc K) (k : K) → IsOwned (record s { system = k }) → IsNamed s.ids k
  IsOwned-IsNamed s k owned = record {
    now = λ o. inl (owned o);
    distinct = λ o p id same i j.
        law.one_key (kind_of p) (key_of o) (key_of p) id k
          (subst (λ c. kernel.find c (key_of o) k ≡ some id) same (owned o ∙ i)) (owned p ∙ j);
  }

  -- cleanup_ipc removes each object that exists, unless the removal is refused.
  pub cleanup_ipc-left :
      (s : Ipc K)
      → IsOwned s
      → (o : Object) (id : ℕ) → found kernel o s.system ≡ some id
      → found kernel o (cleanup_ipc kernel s).system
        ≡ (if (kernel.remove (kind_of o) id s.system).0 then none else some id)
  unfolding cleanup_ipc
  cleanup_ipc-left s owned o id e =
      let k = detach_all kernel (config ∷ mapped) s.addresses s.system in
      let same = λ (p : Object). detach_all-same (config ∷ mapped) s.addresses p id s.system in
      let named = IsOwned-IsNamed s k (λ p. (same p).0 ∙ owned p) in
      all_left kernel _ (remove_all-AreLeft all_objects s.ids k named) o
      ∙ remove_all-left all_objects s.ids o k named
      ∙ left-some kernel o id k ((same o).0 ∙ e)
      ∙ ap (λ b. if b then none else some id) (same o).1
