-- ===== src/Director/Ipc/Startup.antt =====
-- What main of src/director.c creates before the simulation, and what cleanup_ipc does with it.
use operative_system_project.Prelude.{
  ℕ, ◌==◌, ◌≡◌, refl, ap, ◌∙◌, subst, Bool, true, false, Bool-cases, List, [], ◌∷◌, Option,
  Option-cases, none, some, inl, inr, arith, ==_iff, if◌then◌else◌,
}
use mathlib.Core.Option.{none-ne-some}
use operative_system_project.Director.Ipc.{
  Object, Kernel, IsKernel, Ipc, kind_of, key_of, found, allocated, mapped, cleanup_ipc, config,
  messages, semaphores, counters, workers, users, stats, queues, create_object, create_all,
  attach_object, attach_all, all_present, allocate_ipc, start, running, exit_failure, assign,
  nothing, cleanup_stale_ipc_resources,
}
use operative_system_project.Director.Ipc.Keys.{key_of-injective}
use operative_system_project.Director.Ipc.Removal.{cleanup_ipc-left}

module _ {K : Type 0} (kernel : Kernel K) (law : IsKernel kernel) where
  -- Every object that a variable names exists.
  pub record Names (s : Ipc K) : Type 0 where
    pub exists : (o : Object) (id : ℕ) → s.ids o ≡ some id → found kernel o s.system ≡ some id

  differs : (o p : Object) → (key_of o == key_of p) ≡ false → ¬ (key_of o ≡ key_of p)
  differs o p h e = ground arith

  create-Names : (o : Object) (s : Ipc K) → Names s → Names (create_object kernel o s)
  unfolding create_object
  create-Names o s v = record {
    exists = λ p id e. elim (Bool-cases (key_of o == key_of p)) [
      | inl here ↦
          subst (λ x. found kernel x (kernel.create (kind_of o) (key_of o) s.system).1 ≡ some id)
            (key_of-injective o p ((==_iff (key_of o) (key_of p)).0 here))
            (law.created (kind_of o) (key_of o) id s.system (rw (here, assign) at e))
      | inr other ↦
          law.create_apart (kind_of o) (kind_of p) (key_of o) (key_of p) s.system
            (λ h. differs o p other h.1)
          ∙ v.exists p id (rw (other, assign) at e)
    ];
  }

  create_all-Names : (os : List Object) (s : Ipc K) → Names s → Names (create_all kernel os s)
  unfolding create_all
  create_all-Names [] s v = v
  create_all-Names (o ∷ os) s v =
      create_all-Names os (create_object kernel o s) (create-Names o s v)

  attach-Names : (o : Object) (s : Ipc K) → Names s → Names (attach_object kernel o s)
  unfolding attach_object
  attach-Names o s v = record {
    exists = λ p id e. elim (Option-cases (s.ids o)) [
      | inl n ↦ rw (n, attach_object) (v.exists p id (rw (n, attach_object) at e))
      | inr (i, n) ↦
          rw (n, attach_object)
            (law.attached (kind_of p) (key_of p) i s.system
              ∙ v.exists p id (rw (n, attach_object) at e))
    ];
  }

  attach_all-Names : (os : List Object) (s : Ipc K) → Names s → Names (attach_all kernel os s)
  unfolding attach_all
  attach_all-Names [] s v = v
  attach_all-Names (o ∷ os) s v =
      attach_all-Names os (attach_object kernel o s) (attach-Names o s v)

  attach-ids : (o : Object) (s : Ipc K) → (attach_object kernel o s).ids ≡ s.ids
  unfolding attach_object
  attach-ids o s = elim (Option-cases (s.ids o)) [
    | inl n ↦ rw (n, attach_object) refl
    | inr (i, n) ↦ rw (n, attach_object) refl
  ]

  attach_all-ids : (os : List Object) (s : Ipc K) → (attach_all kernel os s).ids ≡ s.ids
  unfolding attach_all
  attach_all-ids [] s = refl
  attach_all-ids (o ∷ os) s = attach_all-ids os (attach_object kernel o s) ∙ attach-ids o s

  config_kept : (s : Ipc K) → (create_all kernel allocated s).ids config ≡ s.ids config
  unfolding create_all create_object
  config_kept s = refl

  -- What allocate_ipc has created exists whether it returns or exits.
  allocate-Names : (s : Ipc K) → Names s → Names (allocate_ipc kernel s).1
  unfolding allocate_ipc
  allocate-Names s v =
      elim (Bool-cases (all_present allocated (create_all kernel allocated s).ids)) [
        | inr missing ↦ rw (missing, allocate_ipc) (create_all-Names allocated s v)
        | inl all ↦
            elim (Bool-cases (
              all_present mapped
                (attach_all kernel mapped (create_all kernel allocated s)).addresses)) [
                  | inr missing ↦
                      rw (all, missing, allocate_ipc)
                        (attach_all-Names mapped _ (create_all-Names allocated s v))
                  | inl there ↦
                      rw (all, there, allocate_ipc)
                        (attach_all-Names mapped _ (create_all-Names allocated s v))
                ]
      ]

  -- If allocate_ipc returns, the variables of its objects are set.
  allocate_all :
      (s : Ipc K)
      → (allocate_ipc kernel s).0 ≡ running
      → (all_present allocated (allocate_ipc kernel s).1.ids ≡ true)
        × ((allocate_ipc kernel s).1.ids config ≡ s.ids config)
  unfolding allocate_ipc
  allocate_all s e = elim (Bool-cases (all_present allocated (create_all kernel allocated s).ids)) [
    | inr missing ↦ absurd (not_running (rw (missing, allocate_ipc) at e))
    | inl all ↦
        elim (Bool-cases (
          all_present mapped
            (attach_all kernel mapped (create_all kernel allocated s)).addresses)) [
              | inr missing ↦ absurd (not_running (rw (all, missing, allocate_ipc) at e))
              | inl there ↦
                  rw (all, there, allocate_ipc)
                    (
                      ap (all_present allocated)
                            (attach_all-ids mapped (create_all kernel allocated s))
                          ∙ all,
                      ap (λ i. i config) (attach_all-ids mapped (create_all kernel allocated s))
                          ∙ config_kept s,
                    )
            ]
  ]
    where
      not_running : exit_failure ≡ running → ⊥
      not_running x = cc

  -- The variables of the objects are set.
  abbrev AreSet : List Object → (Object → Option ℕ) → Type 0
  AreSet [] ids = Unit {0}
  AreSet (o ∷ os) ids = ((id : ℕ) × (ids o ≡ some id)) × AreSet os ids

  all_present-AreSet :
      (os : List Object) (ids : Object → Option ℕ) → all_present os ids ≡ true → AreSet os ids
  unfolding all_present
  all_present-AreSet [] ids e = tt
  all_present-AreSet (o ∷ os) ids e = elim (Option-cases (ids o)) [
    | inl n ↦ absurd (not_true (rw (n, all_present) at e))
    | inr there ↦ (there, all_present-AreSet os ids (rw (there.1, all_present) at e))
  ]
    where
      not_true : false ≡ true → ⊥
      not_true x = cc

  set_id :
      (ids : Object → Option ℕ) (c : ℕ)
      → ids config ≡ some c
      → AreSet allocated ids
      → (p : Object) → (id : ℕ) × (ids p ≡ some id)
  set_id ids c e a config = (c, e)
  set_id ids c e a counters = a.0
  set_id ids c e a workers = a.1.0
  set_id ids c e a users = a.1.1.0
  set_id ids c e a stats = a.1.1.1.0
  set_id ids c e a queues = a.1.1.1.1.0
  set_id ids c e a messages = a.1.1.1.1.1.0
  set_id ids c e a semaphores = a.1.1.1.1.1.1.0

  -- Everything that the variables name exists, and they are all set.
  IsComplete : Ipc K → Type 0
  IsComplete s = (o : Object) → (id : ℕ) × (s.ids o ≡ some id) × (found kernel o s.system ≡ some id)

  allocate-IsComplete :
      (s : Ipc K) (c : ℕ)
      → Names s
      → s.ids config ≡ some c
      → (allocate_ipc kernel s).0 ≡ running
      → IsComplete (allocate_ipc kernel s).1
  unfolding IsComplete
  allocate-IsComplete s c v e r o =
      let (all, kept) = allocate_all s r in
      let (id, i) =
        set_id (allocate_ipc kernel s).1.ids c (kept ∙ e) (all_present-AreSet allocated _ all) o in
      (id, i, (allocate-Names s v).exists o id i)

  -- The variables and the system when the object of the configuration has been created.
  abbrev configured : K → Ipc K
  configured k =
      create_object kernel config (record {
        system = cleanup_stale_ipc_resources kernel k;
        ids = nothing;
        addresses = nothing;
      })

  configured-Names : (k : K) → Names (configured k)
  configured-Names k =
      create-Names config _ (record { exists = λ o id e. absurd (none-ne-some id e) })

  attached-Names : (k : K) → Names (attach_object kernel config (configured k))
  attached-Names k = attach-Names config (configured k) (configured-Names k)

  start-IsComplete :
      (readable : Bool) (k : K)
      → (start kernel readable k).0 ≡ running
      → IsComplete (start kernel readable k).1
  unfolding start
  start-IsComplete readable k e = elim (Option-cases ((configured k).ids config)) [
    | inl n ↦ absurd (not_running (rw (n, start) at e))
    | inr (id, i) ↦
        elim (Option-cases ((attach_object kernel config (configured k)).addresses config)) [
          | inl m ↦ absurd (not_running (rw (i, m, start) at e))
          | inr (a, j) ↦ elim (Bool-cases readable) [
            | inr bad ↦ absurd (not_running (rw (i, j, bad, start) at e))
            | inl good ↦
                rw (i, j, good, start)
                  (allocate-IsComplete (attach_object kernel config (configured k)) id
                    (attached-Names k) (ap (λ g. g config) (attach-ids config (configured k)) ∙ i)
                    (rw (i, j, good, start) at e))
          ]
        ]
  ]
    where
      not_running : exit_failure ≡ running → ⊥
      not_running x = cc

  start-Names : (k : K) → Names (start kernel true k).1
  unfolding start
  start-Names k = elim (Option-cases ((configured k).ids config)) [
    | inl n ↦ rw (n, start) (configured-Names k)
    | inr (id, i) ↦
        elim (Option-cases ((attach_object kernel config (configured k)).addresses config)) [
          | inl m ↦ rw (i, m, start) (attached-Names k)
          | inr (a, j) ↦ rw (i, j, start) (allocate-Names _ (attached-Names k))
        ]
  ]

  -- When main goes on to the simulation, all eight objects of the program exist. In any later
  -- system in which each of them is still found under its key with the id that main has stored,
  -- cleanup_ipc removes each of the eight, but for one whose removal is refused, which keeps its id.
  pub cleanup_ipc_removes :
      (readable : Bool) (k later : K)
      → (start kernel readable k).0 ≡ running
      → ((p : Object) → found kernel p later ≡ (start kernel readable k).1.ids p)
      → (o : Object)
      → (id : ℕ) × (found kernel o (start kernel readable k).1.system ≡ some id)
        × (found kernel o
              (cleanup_ipc kernel (record (start kernel readable k).1 { system = later })).system
            ≡ (if (kernel.remove (kind_of o) id later).0 then none else some id))
  unfolding IsComplete
  cleanup_ipc_removes readable k later e owned o =
      let (id, i, there) = start-IsComplete readable k e o in
      (
        id,
        there,
        cleanup_ipc-left kernel law (record (start kernel readable k).1 { system = later }) owned o
            id (owned o ∙ i),
      )

  -- If the configuration can be read, each object that main has created exists afterwards: where main
  -- goes on, and also where allocate_ipc exits, or main returns, because another object could not be
  -- created or attached.
  pub failed_start_leaves :
      (k : K) (o : Object) (id : ℕ)
      → (start kernel true k).1.ids o ≡ some id
      → found kernel o (start kernel true k).1.system ≡ some id
  failed_start_leaves k o id e = (start-Names k).exists o id e
