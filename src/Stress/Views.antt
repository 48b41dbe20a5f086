-- ===== src/Stress/Views.antt =====
-- The pages of the stress service that only read: `GET /stress` and `GET /metrics`. Times are counted in
-- ticks, of which a second has `second`.
use jim_tf.Base.{
  ℕ, ◌+◌, ◌-◌, ◌*◌, ◌≤◌, ◌≡◌, ◌↔◌, ◌⊎◌, Option, none, some, Bool, ◌&&◌, List, [], ◌∷◌, length, ltb,
  if◌then◌else◌,
}
use jim_tf.Base.Int.{ℤ, sub_ℕ}
use jim_tf.Stress.{StressState, App}
use jim_tf.Stress.States.{IsIdle, IsStuck}

-- `max(0, state.duration - elapsed)`, in ticks.
unfoldable pub remaining : ℕ → ℕ → StressState → ℕ
remaining second now s = s.duration * second + s.start_time - now

pub data View : Type 0 where
  idle : View
  active : (cpu_percent memory_mb : ℕ) (elapsed : ℤ) (remaining : ℕ) → View

unfoldable pub get_stress : ℕ → ℕ → App → View
unfolding remaining
get_stress second now a =
    let s = a.state in
    if s.active
    then active s.cpu_target s.memory_mb (sub_ℕ now s.start_time) (remaining second now s)
    else idle

-- What is measured of a child process; `none` is an exception that is passed over. The processor's load
-- is in tenths of a percent, as `psutil` gives it.
pub record Child : Type 0 where
  pub cpu_percent : Option ℕ
  pub rss : Option ℕ

pub record Metrics : Type 0 where
  pub stress_active : Bool
  pub cpu_target_percent : ℕ
  pub memory_target_mb : ℕ
  pub duration_seconds : ℕ
  pub remaining_ticks : ℕ
  pub measured_cpu : ℕ
  pub measured_bytes : ℕ
  pub worker_count : ℕ

-- `for child in children`: a child whose memory cannot be read has added its load already.
unfoldable pub add_children : List Child → ℕ → ℕ → ℕ × ℕ
add_children [] total_cpu total_rss = (total_cpu, total_rss)
add_children (child ∷ children) total_cpu total_rss = elim child.cpu_percent [
  | none ↦ add_children children total_cpu total_rss
  | some cpu ↦ elim child.rss [
    | none ↦ add_children children (total_cpu + cpu) total_rss
    | some rss ↦ add_children children (total_cpu + cpu) (total_rss + rss)
  ]
]

unfoldable pub metrics : ℕ → ℕ → ℕ → ℕ → List Child → App → Metrics
unfolding remaining add_children
metrics second now own_cpu own_rss children a =
    let s = a.state in
    let (total_cpu, total_rss) = add_children children own_cpu own_rss in
    record {
      stress_active = s.active;
      cpu_target_percent = s.cpu_target;
      memory_target_mb = s.memory_mb;
      duration_seconds = s.duration;
      remaining_ticks = if s.active && ltb 0 s.duration then remaining second now s else 0;
      measured_cpu = total_cpu;
      measured_bytes = total_rss;
      worker_count = length s.cpu_workers;
    }

-- What a client is shown of a service that is sound: the page says idle if and only if nothing runs;
-- no timer is to fire if and only if nothing runs or a test is stuck; the number of workers is that of the
-- processes alive; and what remains is at most an hour.
abbrev pub IsShown : ℕ → ℕ → ℕ → ℕ → List Child → App → Type 0
IsShown second now own_cpu own_rss children a =
    ((get_stress second now a ≡ idle) ↔ IsIdle a)
    × ((a.machine.timers ≡ []) ↔ (IsIdle a ⊎ IsStuck a))
    × ((metrics second now own_cpu own_rss children a).worker_count ≡ length a.machine.alive)
    × ((metrics second now own_cpu own_rss children a).remaining_ticks ≤ 3600 * second)
