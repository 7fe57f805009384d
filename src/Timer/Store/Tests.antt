-- ===== src/Timer/Store/Tests.antt =====
-- The store of pointers at work: all the lists empty, one timer queued with thread 0.
use pc.Base.{ℕ, zero, suc, ◌==◌, ◌≡◌, refl, arith, Bool, true, some, [], ◌∷◌, count_up, inl}
use pc.Timer.State.{State, unlink_timer}
use pc.Timer.Pool.{timer_init_once, init_module, thread_init, timer_dealloc}
use pc.Timer.Threads.{queue_timer, insert_timer}
use pc.Timer.Links.{Links, list_unlink_ip}
use pc.Timer.Links.Walk.{queue_on_links}
use pc.Timer.Invariant.Reach.{boot}
use pc.Timer.Store.{Represents, list_of, queue_head, init_on_links, dealloc_on_links}
use pc.Timer.Store.Refines.{
  OnOne, unlink_timer-Represents, queue_timer-Represents, timer_dealloc-Represents,
  init_module-Represents,
}
use pc.Timer.Tests.{test_os}

-- Every node and every head is a list of its own.
abbrev selves : Links
selves = record { next = λ p. p; prev = λ p. p }

abbrev all_live : ℕ → Bool
all_live j = true

empty_lists : (j : ℕ) → list_of boot j ≡ []
empty_lists zero = refl
empty_lists (suc k) = refl

selves-Represents : Represents all_live selves boot
selves-Represents = record {
  rings = λ j e. rw (empty_lists j) record { linked = (refl, refl); distinct = (refl, tt) };
  dead = λ j e. empty_lists j;
  bound = λ j t e. ground (arith, empty_lists j);
  once = λ i j t e f. ground (arith, empty_lists j);
  alone = λ t lt off. record { linked = (refl, refl); distinct = (refl, tt) };
}

abbrev queued : State
queued = (queue_timer boot 0 3).0

queue_timer-Represents_example :
    (m' : Links) × (queue_on_links 1 (λ u. (boot.timer u).expirytime) selves (queue_head 0) 3
      ≡ some (m', (queue_timer boot 0 3).1))
    × Represents all_live m' queued
queue_timer-Represents_example =
    queue_timer-Represents all_live selves boot 0 3 selves-Represents refl (omega arith)
      (λ j. ground (arith, empty_lists j))

-- The store with timer 3 in the queue of thread 0.
filled :
    (m' : Links) × (queue_on_links 1 (λ u. (boot.timer u).expirytime) selves (queue_head 0) 3
      ≡ some (m', (queue_timer boot 0 3).1))
    × Represents all_live m' queued
filled =
    queue_timer-Represents all_live selves boot 0 3 selves-Represents refl (omega arith)
      (λ j. ground (arith, empty_lists j))

on_one : OnOne all_live queued 3
unfolding queue_timer insert_timer
on_one = inl (1, refl, refl)

unlink_timer-Represents_example :
    Represents all_live (list_unlink_ip filled.0 3) (unlink_timer queued 3)
unlink_timer-Represents_example =
    unlink_timer-Represents all_live filled.0 queued 3 filled.2 (omega arith) on_one

timer_dealloc-Represents_example :
    Represents all_live (dealloc_on_links filled.0 3) (timer_dealloc queued 3)
timer_dealloc-Represents_example =
    timer_dealloc-Represents all_live filled.0 queued 3 filled.2 refl (omega arith) on_one

initial : Represents (λ j. j == 0) (init_on_links selves) (timer_init_once test_os boot)
initial = init_module-Represents test_os selves

free_first : (timer_init_once test_os boot).timer_free_list ≡ 0 ∷ count_up 255 1
unfolding timer_init_once init_module thread_init count_up
free_first = refl
