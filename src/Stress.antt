-- ===== src/Stress.antt =====
-- stress-test/app.py: a web service that loads its machine for a while.
pub mod States
pub mod Sessions
pub mod Stuck
pub mod Views
use jim_tf.Base.{
  ℕ, zero, suc, ◌+◌, ◌-◌, ◌*◌, ◌/◌, ◌%◌, ◌^◌, Option, none, some, Bool, true, false, not, ◌||◌,
  List, [], ◌∷◌, ◌++◌, keep, contains, nat_key, ltb, nat_eq, max, if◌then◌else◌,
}
use jim_tf.Base.Int.{ℤ, pos, negsuc}

-- `StressState`; processes and timers are named by numbers, and a block of memory is its size.
pub record StressState : Type 0 where
  pub active : Bool
  pub cpu_target : ℕ
  pub memory_mb : ℕ
  pub duration : ℕ
  pub start_time : ℕ
  pub cpu_workers : List ℕ
  pub memory_block : Option ℕ
  pub stop_timer : Option ℕ

-- The processes that run, the timers that are to fire, and the next number for either.
pub record Machine : Type 0 where
  pub alive : List ℕ
  pub timers : List ℕ
  pub next_id : ℕ

pub record App : Type 0 where
  pub state : StressState
  pub machine : Machine

abbrev pub idle_state : StressState
idle_state = record {
  active = false;
  cpu_target = 0;
  memory_mb = 0;
  duration = 0;
  start_time = 0;
  cpu_workers = [];
  memory_block = none;
  stop_timer = none;
}

pub data Response : Type 0 where
  already_running bad_cpu bad_memory bad_duration already_idle stopped internal_error : Response
  started : ℕ → ℕ → ℕ → ℕ → Response

-- The arguments of a request that has passed the checks.
pub record Plan : Type 0 where
  pub cpu_percent : ℕ
  pub memory_mb : ℕ
  pub duration : ℕ

pub data Checked : Type 0 where
  refuse : Response → Checked
  accept : Plan → Checked

-- Python's `round` of a number of hundredths: to the nearest, and to even at a half.
unfoldable pub round_percent : ℕ → ℕ
round_percent n =
    if ltb (n % 100) 50
    then n / 100
    else if ltb 50 (n % 100)
    then n / 100 + 1
    else if nat_eq (n / 100 % 2) 0
    then n / 100
    else n / 100 + 1

unfoldable pub num_workers : ℕ → ℕ → ℕ
unfolding round_percent
num_workers available_cores cpu_percent = max 1 (round_percent (available_cores * cpu_percent))

-- `allocate_memory`: the size of the block; `fits` is whether the machine has the memory, and `none` is
-- the exception that Python raises if it has not.
unfoldable pub allocate_memory : Bool → ℕ → Option ℕ
allocate_memory fits mb = if fits then some (mb * 1024 * 1024) else none

-- The three range checks of `start_stress`, in their order.
unfoldable pub check_duration : ℕ → ℕ → ℤ → Checked
check_duration cpu_percent memory_mb (negsuc n) = refuse bad_duration
check_duration cpu_percent memory_mb (pos duration) =
    if ltb duration 1 || ltb 3600 duration
    then refuse bad_duration
    else accept (record { cpu_percent = cpu_percent; memory_mb = memory_mb; duration = duration })

unfoldable pub check_memory : ℕ → ℤ → ℤ → Checked
unfolding check_duration
check_memory cpu_percent (negsuc n) duration = refuse bad_memory
check_memory cpu_percent (pos memory_mb) duration = check_duration cpu_percent memory_mb duration

unfoldable pub check_request : ℤ → ℤ → ℤ → Checked
unfolding check_memory
check_request (negsuc n) memory_mb duration = refuse bad_cpu
check_request (pos cpu_percent) memory_mb duration =
    if ltb 100 cpu_percent then refuse bad_cpu else check_memory cpu_percent memory_mb duration

-- The numbers from `n` on.
unfoldable pub ids_from : ℕ → ℕ → List ℕ
ids_from n zero = []
ids_from n (suc k) = n ∷ ids_from (n + 1) k

-- `stop_stress`, under the lock: the worker processes are ended and the timer is cancelled.
unfoldable pub stop_stress : App → App
stop_stress a = record {
  state = idle_state;
  machine = record {
    alive = keep (λ p. not (contains a.state.cpu_workers p)) a.machine.alive;
    timers = elim a.state.stop_timer [
      | none ↦ a.machine.timers
      | some t ↦ keep (λ u. not (nat_eq t u)) a.machine.timers
    ];
    next_id = a.machine.next_id;
  };
}

unfoldable pub spawned : ℕ → Plan → ℕ
unfolding num_workers
spawned cores p = if ltb 0 p.cpu_percent then num_workers cores p.cpu_percent else 0

-- `start_stress` under the lock, at the time `now`, until the worker processes are started.
unfoldable pub start_workers : ℕ → ℕ → Plan → App → App
unfolding spawned ids_from
start_workers cores now p a =
    let n = spawned cores p in
    let workers = ids_from a.machine.next_id n in
    record {
      state = record {
        active = true;
        cpu_target = p.cpu_percent;
        memory_mb = p.memory_mb;
        duration = p.duration;
        start_time = now;
        cpu_workers = a.state.cpu_workers ++ workers;
        memory_block = a.state.memory_block;
        stop_timer = a.state.stop_timer;
      };
      machine = record {
        alive = a.machine.alive ++ workers;
        timers = a.machine.timers;
        next_id = a.machine.next_id + n;
      };
    }

-- The block that the state has after `if memory_mb > 0`, `none` for the exception.
unfoldable pub block_after : Bool → Plan → App → Option (Option ℕ)
unfolding allocate_memory
block_after fits p a =
    if ltb 0 p.memory_mb
    then elim (allocate_memory fits p.memory_mb) [ none ↦ none | some block ↦ some (some block) ]
    else some a.state.memory_block

-- The rest of it: the block is kept, and the timer is made and started.
unfoldable pub start_timer : Option ℕ → App → App
start_timer block a = record {
  state = record a.state { memory_block = block; stop_timer = some a.machine.next_id };
  machine = record a.machine {
    timers = a.machine.timers ++ a.machine.next_id ∷ [];
    next_id = a.machine.next_id + 1;
  };
}

-- The part of `start_stress` under the lock, and whether it ends without an exception.
unfoldable pub begin_stress : ℕ → ℕ → Bool → Plan → App → App × Bool
unfolding start_workers block_after start_timer
begin_stress cores now fits p a =
    let b = start_workers cores now p a in
    elim (block_after fits p b) [ none ↦ (b, false) | some block ↦ (start_timer block b, true) ]

-- `POST /stress`. The test of `active` stands outside the lock. An exception is answered by the framework
-- with the status 500.
unfoldable pub admit : ℤ → ℤ → ℤ → App → Checked
unfolding check_request
admit cpu_percent memory_mb duration a =
    if a.state.active then refuse already_running else check_request cpu_percent memory_mb duration

unfoldable pub start_stress : ℕ → ℕ → Bool → ℤ → ℤ → ℤ → App → App × Response
unfolding admit begin_stress
start_stress cores now fits cpu_percent memory_mb duration a =
    elim (admit cpu_percent memory_mb duration a) [
      | refuse r ↦ (a, r)
      | accept p ↦
          let (b, returns) = begin_stress cores now fits p a in
          (
            b,
            if returns
                then started p.cpu_percent p.memory_mb p.duration (spawned cores p)
                else internal_error,
          )
    ]

-- `DELETE /stress`.
unfoldable pub stop_stress_endpoint : App → App × Response
unfolding stop_stress
stop_stress_endpoint a = if a.state.active then (stop_stress a, stopped) else (a, already_idle)

-- A timer fires: it is one of those that are to fire, and runs `stop_stress` in its own thread.
unfoldable pub fire : ℕ → App → App
unfolding stop_stress
fire t a = stop_stress (record a {
  machine = record a.machine { timers = keep (λ u. not (nat_eq t u)) a.machine.timers };
})
