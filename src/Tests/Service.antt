-- ===== src/Tests/Service.antt =====
-- Examples for the stress service.
use jim_tf.Base.{◌≡◌, ◌+◌, List, none, some, ◌∷◌, [], Bool, true, false, refl, arith}
use jim_tf.Base.Int.{pos}
use jim_tf.Stress.{
  App, Plan, idle_state, accept, check_request, check_memory, check_duration, stop_stress,
  begin_stress, admit, start_stress, stop_stress_endpoint, spawned, fire,
}
use jim_tf.Stress.Stuck.{at_first, asked, failed_start_stays}
use jim_tf.Stress.Views.{Child}
use jim_tf.Stress.Sessions.{overlapping_starts}
use jim_tf.Stress.States.{IsIdle}

abbrev idle_app : App
idle_app = record { state = idle_state; machine = record { alive = []; timers = []; next_id = 0 } }

abbrev half_a_minute : Plan
half_a_minute = record { cpu_percent = 50; memory_mb = 0; duration = 30 }

idle_app-IsIdle : IsIdle idle_app
idle_app-IsIdle = record { state = refl; alive = refl; timers = refl }

abbrev after_two : App
after_two =
    (start_stress 4 8 true (pos 50) (pos 0) (pos 30)
      (start_stress 4 7 true (pos 50) (pos 0) (pos 30) idle_app).0).0

abbrev children : List Child
children =
    record { cpu_percent = some 500; rss = none }
    ∷ record { cpu_percent = none; rss = some 4096 }
    ∷ record { cpu_percent = some 480; rss = some 8192 }
    ∷ []

abbrev large : Plan
large = record { cpu_percent = 50; memory_mb = 4096; duration = 30 }

failed_start_stays_example :
    let b =
      (start_stress 4 8 true
        (pos 50)
        (pos 0)
        (pos 30)
        (start_stress 4 7 false (pos 50) (pos 4096) (pos 30) idle_app).0).0 in
    (b.state.active ≡ true) × (b.machine.timers ≡ []) × IsIdle (stop_stress_endpoint b).0
unfolding check_request check_memory check_duration
failed_start_stays_example =
    failed_start_stays 4 7 (pos 50) (pos 4096) (pos 30) large idle_app-IsIdle refl (omega arith)
      (asked 4 8 true (pos 50) (pos 0) (pos 30) at_first)

abbrev first_run : App × Bool
first_run = begin_stress 4 7 true half_a_minute idle_app

abbrev second_run : App × Bool
second_run = begin_stress 4 8 true half_a_minute first_run.0

abbrev overlapped : App
overlapped = stop_stress second_run.0

overlapping_starts_example :
    (admit (pos 50) (pos 0) (pos 30) idle_app ≡ accept half_a_minute)
    × (admit (pos 50) (pos 0) (pos 30) idle_app ≡ accept half_a_minute)
    × (first_run.1 ≡ true)
    × (second_run.1 ≡ true)
    × (overlapped.state ≡ idle_state)
    × (overlapped.machine.timers ≡ (0 + spawned 4 half_a_minute) ∷ [])
    × ((begin_stress 4 9 false half_a_minute overlapped).0.state.active ≡ true)
    × ((fire
          (0 + spawned 4 half_a_minute)
          (begin_stress 4 9 false half_a_minute overlapped).0).state
        ≡ idle_state)
unfolding check_request check_memory check_duration
overlapping_starts_example =
    overlapping_starts 4 7 8 9 false (pos 50) (pos 0) (pos 30) (pos 50) (pos 0) (pos 30) idle_app
      half_a_minute half_a_minute half_a_minute idle_app-IsIdle refl refl
