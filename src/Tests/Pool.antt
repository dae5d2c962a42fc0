-- ===== src/Tests/Pool.antt =====
-- The pool of threads at concrete inputs.
use cpplearn.Common.{◌≡◌, refl, false, some, [], ◌∷◌}
use cpplearn.Server.Pool.{
  Pool, next, put, take_connection, ready, asleep, serving, start, wake_doing, wake_at, wake,
  signal, main_step, thread_doing, thread_at, thread_step, by_main, by_thread, Run, still,
  then_step,
}
use cpplearn.Server.Pool.Served.{IsRunning}
use cpplearn.Server.Pool.Threads.{Run-IsRunning}

-- Two threads: the first waits; main puts the connection 7 in the ring and wakes it; it takes it.
abbrev first_asleep : Pool
first_asleep = record (start 2) {
  tptr =
      record { doing = asleep; thread_count = 0 } ∷ record { doing = ready; thread_count = 0 } ∷ [];
}

first_sleeps : thread_step 0 (start 2) ≡ some first_asleep
unfolding thread_step thread_at thread_doing start
first_sleeps = refl

abbrev second_asleep : Pool
second_asleep = record (start 2) {
  tptr =
      record { doing = asleep; thread_count = 0 }
      ∷ record { doing = asleep; thread_count = 0 }
      ∷ [];
}

second_sleeps : thread_step 1 first_asleep ≡ some second_asleep
unfolding thread_step thread_at thread_doing start
second_sleeps = refl

abbrev first_woken : Pool
first_woken = record (put 7 (start 2)) {
  tptr =
      record { doing = ready; thread_count = 0 } ∷ record { doing = asleep; thread_count = 0 } ∷ [];
}

main_puts : main_step 7 (some 0) second_asleep ≡ some first_woken
unfolding main_step signal wake wake_at wake_doing put next start
main_puts = refl

abbrev first_serving : Pool
first_serving = record (put 7 (start 2)) {
  iget = 1;
  tptr =
      record { doing = serving 7; thread_count = 1 }
      ∷ record { doing = asleep; thread_count = 0 }
      ∷ [];
  taken = 7 ∷ [];
}

first_takes : thread_step 0 first_woken ≡ some first_serving
unfolding thread_step thread_at thread_doing take_connection put next start
first_takes = refl

first_serving-Run : Run (start 2) first_serving
first_serving-Run =
    then_step first_woken first_serving
      (then_step second_asleep first_woken
        (then_step first_asleep second_asleep
          (then_step (start 2) first_asleep still (by_thread 0 first_sleeps))
          (by_thread 1 second_sleeps))
        (by_main 7 (some 0) main_puts))
      (by_thread 0 first_takes)

Run-IsRunning_example : IsRunning first_serving
Run-IsRunning_example = Run-IsRunning 2 first_serving first_serving-Run

running_still : first_serving.quit ≡ false
unfolding put next start
running_still = refl
