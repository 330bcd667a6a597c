-- ===== src/Director/Ipc/Keys.antt =====
-- The keys and kinds of the objects of src/director.c tell them apart.
use operative_system_project.Prelude.{
  ℕ, zero, suc, ◌==◌, ◌≡◌, refl, sym, ap, ◌∙◌, if◌then◌else◌, Option, none, some,
}
use mathlib.Core.Option.{none-ne-some}
use operative_system_project.Director.Ipc.{
  Kind, Object, key_of, message_queue, semaphore_set, shared_memory, messages, semaphores, config,
  counters, workers, users, stats, queues,
}

object_with : ℕ → Object
object_with key =
    if key == 22136
    then messages
    else if key == 37120
    then semaphores
    else if key == 521
    then config
    else if key == 4660
    then counters
    else if key == 522
    then workers
    else if key == 523
    then users
    else if key == 524
    then stats
    else queues

pub key_of-injective : (o o' : Object) → key_of o ≡ key_of o' → o ≡ o'
unfolding object_with
key_of-injective o o' e = sym (back o) ∙ ap object_with e ∙ back o'
  where
    back : (p : Object) → object_with (key_of p) ≡ p
    back messages = refl
    back semaphores = refl
    back config = refl
    back counters = refl
    back workers = refl
    back users = refl
    back stats = refl
    back queues = refl

pub not_both : {A : Type 0} {o : Option A} {a : A} → o ≡ none → o ≡ some a → ⊥
not_both e f = none-ne-some _ (sym e ∙ f)

kind_with : ℕ → Kind
kind_with zero = message_queue
kind_with (suc zero) = semaphore_set
kind_with (suc (suc i)) = shared_memory

unfoldable pub kind_number : Kind → ℕ
kind_number message_queue = 0
kind_number semaphore_set = 1
kind_number shared_memory = 2

pub kind_number-injective : (c c' : Kind) → kind_number c ≡ kind_number c' → c ≡ c'
unfolding kind_with kind_number
kind_number-injective c c' e = sym (back c) ∙ ap kind_with e ∙ back c'
  where
    back : (p : Kind) → kind_with (kind_number p) ≡ p
    back message_queue = refl
    back semaphore_set = refl
    back shared_memory = refl
