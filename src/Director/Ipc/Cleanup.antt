-- ===== src/Director/Ipc/Cleanup.antt =====
-- What cleanup_stale_ipc_resources of src/director.c leaves in the system.
use operative_system_project.Prelude.{
  ℕ, ◌≡◌, refl, sym, ◌∙◌, subst, List, [], ◌∷◌, Option-cases, some, inl, inr,
}
use native.Mathlib.Decide.{ℕ_discrete}
use operative_system_project.Director.Ipc.{
  Kind, Object, Kernel, IsKernel, kind_of, key_of, found, all_objects, cleanup_stale,
  cleanup_stale_ipc_resources,
}
use operative_system_project.Director.Ipc.Keys.{key_of-injective}
use operative_system_project.Director.Ipc.Dropping.{
  left, left-none, drop_apart, drop_own, AreLeft, all_left,
}

-- A key that none of the objects has.
abbrev pub IsForeign : Kind → ℕ → Type 0
IsForeign kind key = (o : Object) → ¬ ((kind ≡ kind_of o) × (key ≡ key_of o))

module _ {K : Type 0} (kernel : Kernel K) (law : IsKernel kernel) where
  foreign_stays :
      (kind : Kind) (key : ℕ)
      → IsForeign kind key
      → (o : Object) (id : ℕ) (k : K) → found kernel o k ≡ some id
      → kernel.find kind key (kernel.remove (kind_of o) id k).1 ≡ kernel.find kind key k
  foreign_stays kind key foreign o id k e = law.remove_apart (kind_of o) kind key id k (λ h.
      foreign o (
        sym h.0,
        law.one_key (kind_of o) key (key_of o) id k
            (subst (λ c. kernel.find c key k ≡ some id) (sym h.0) h.1) e,
      ))

  cleanup_foreign :
      (os : List Object) (kind : Kind) (key : ℕ)
      → IsForeign kind key
      → (k : K) → kernel.find kind key (cleanup_stale kernel os k) ≡ kernel.find kind key k
  unfolding cleanup_stale
  cleanup_foreign [] kind key foreign k = refl
  cleanup_foreign (o ∷ os) kind key foreign k = elim (Option-cases (found kernel o k)) [
    | inl n ↦ rw (n, cleanup_stale) (cleanup_foreign os kind key foreign k)
    | inr (id, i) ↦
        rw (i, cleanup_stale)
          (cleanup_foreign os kind key foreign (kernel.remove (kind_of o) id k).1
            ∙ foreign_stays kind key foreign o id k i)
  ]

  -- The removal of an object that has been found settles it, and another object keeps what it has.
  found_apart :
      (o p : Object) (id : ℕ) (k : K)
      → found kernel o k ≡ some id
      → ¬ (key_of o ≡ key_of p)
      → ¬ ((kind_of o ≡ kind_of p) × (found kernel p k ≡ some id))
  found_apart o p id k i other h = other (
      law.one_key (kind_of p) (key_of o) (key_of p) id k
        (subst (λ c. kernel.find c (key_of o) k ≡ some id) h.0 i) h.1)

  drop-left :
      (o p : Object) (id : ℕ) (k : K)
      → found kernel o k ≡ some id
      → left kernel p (kernel.remove (kind_of o) id k).1 ≡ left kernel p k
  drop-left o p id k i = elim (ℕ_discrete (key_of o) (key_of p)) [
    | yes same ↦
        subst (λ q. left kernel q (kernel.remove (kind_of o) id k).1 ≡ left kernel q k)
          (key_of-injective o p same) (drop_own kernel law o id k i).1
    | no other ↦ (drop_apart kernel law o p id k (found_apart o p id k i other)).1
  ]

  drop_settled :
      (o p : Object) (id : ℕ) (k : K)
      → found kernel o k ≡ some id
      → found kernel p k ≡ left kernel p k
      → found kernel p (kernel.remove (kind_of o) id k).1 ≡ left kernel p k
  drop_settled o p id k i settled = elim (ℕ_discrete (key_of o) (key_of p)) [
    | yes same ↦
        subst (λ q. found kernel q (kernel.remove (kind_of o) id k).1 ≡ left kernel q k)
          (key_of-injective o p same) (drop_own kernel law o id k i).0
    | no other ↦ (drop_apart kernel law o p id k (found_apart o p id k i other)).0 ∙ settled
  ]

  cleanup-left :
      (os : List Object) (p : Object) (k : K)
      → left kernel p (cleanup_stale kernel os k) ≡ left kernel p k
  unfolding cleanup_stale
  cleanup-left [] p k = refl
  cleanup-left (o ∷ os) p k = elim (Option-cases (found kernel o k)) [
    | inl n ↦ rw (n, cleanup_stale) (cleanup-left os p k)
    | inr (id, i) ↦
        rw (i, cleanup_stale)
          (cleanup-left os p (kernel.remove (kind_of o) id k).1 ∙ drop-left o p id k i)
  ]

  cleanup_settled :
      (os : List Object) (p : Object) (k : K)
      → found kernel p k ≡ left kernel p k
      → found kernel p (cleanup_stale kernel os k) ≡ left kernel p (cleanup_stale kernel os k)
  unfolding cleanup_stale
  cleanup_settled [] p k e = e
  cleanup_settled (o ∷ os) p k e = elim (Option-cases (found kernel o k)) [
    | inl n ↦ rw (n, cleanup_stale) (cleanup_settled os p k e)
    | inr (id, i) ↦
        rw (i, cleanup_stale)
          (cleanup_settled os p (kernel.remove (kind_of o) id k).1
            (drop_settled o p id k i e ∙ sym (drop-left o p id k i)))
  ]

  cleanup-AreLeft : (os : List Object) (k : K) → AreLeft kernel os (cleanup_stale kernel os k)
  unfolding cleanup_stale
  cleanup-AreLeft [] k = tt
  cleanup-AreLeft (o ∷ os) k = elim (Option-cases (found kernel o k)) [
    | inl n ↦
        rw (n, cleanup_stale)
          (cleanup_settled os o k (n ∙ sym (left-none kernel o k n)), cleanup-AreLeft os k)
    | inr (id, i) ↦
        let k1 = (kernel.remove (kind_of o) id k).1 in
        let own = drop_own kernel law o id k i in
        rw (i, cleanup_stale) (cleanup_settled os o k1 (own.0 ∙ sym own.1), cleanup-AreLeft os k1)
  ]

  -- After cleanup_stale_ipc_resources, of the eight objects of the program those exist whose removal
  -- is refused, under the id they had, and no other, whichever of them existed before; and an object
  -- under any other key is as it was.
  pub cleanup_stale_clears :
      (k : K) (kind : Kind) (key : ℕ)
      → IsForeign kind key
      → let k' = cleanup_stale_ipc_resources kernel k in
        ((o : Object) → found kernel o k' ≡ left kernel o k)
        × (kernel.find kind key k' ≡ kernel.find kind key k)
  unfolding cleanup_stale_ipc_resources
  cleanup_stale_clears k kind key foreign = (
    λ o. all_left kernel _ (cleanup-AreLeft all_objects k) o ∙ cleanup-left all_objects o k,
    cleanup_foreign all_objects kind key foreign k,
  )
