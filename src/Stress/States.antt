-- ===== src/Stress/States.antt =====
-- The states of the service, and what starting and stopping a test makes of them.
use jim_tf.Base.{
  ℕ, ◌+◌, ◌*◌, ◌≤◌, ◌≡◌, ◌⊎◌, inl, inr, refl, Option, some, none, Bool, ltb, Bool-cases, true,
  false, not, List, [], ◌∷◌, keep, contains, nat_key, arith,
}
use jim_tf.Base.Int.{ℤ, pos, negsuc}
use jim_tf.Stress.{
  App, idle_state, Plan, accept, stop_stress, spawned, start_workers, block_after, allocate_memory,
  start_timer, begin_stress, admit,
}

-- Nothing runs and nothing is to fire.
pub record IsIdle (a : App) : Type 0 where
  pub state : a.state ≡ idle_state
  pub alive : a.machine.alive ≡ []
  pub timers : a.machine.timers ≡ []

-- One test runs: its processes are those that are alive, its timer is the one that is to fire, and
-- its arguments are in range.
pub record IsRunning (a : App) : Type 0 where
  pub active : a.state.active ≡ true
  pub alive : a.machine.alive ≡ a.state.cpu_workers
  pub timer : ℕ
  pub stop_timer : a.state.stop_timer ≡ some timer
  pub timers : a.machine.timers ≡ timer ∷ []
  pub cpu_in_range : a.state.cpu_target ≤ 100
  pub duration_positive : 1 ≤ a.state.duration
  pub duration_in_range : a.state.duration ≤ 3600

-- The memory of a test could not be allocated: it is active, its processes are those that are alive,
-- and no timer is to end it.
pub record IsStuck (a : App) : Type 0 where
  pub active : a.state.active ≡ true
  pub alive : a.machine.alive ≡ a.state.cpu_workers
  pub stop_timer : a.state.stop_timer ≡ none
  pub timers : a.machine.timers ≡ []
  pub some_memory : 1 ≤ a.state.memory_mb
  pub cpu_in_range : a.state.cpu_target ≤ 100
  pub duration_positive : 1 ≤ a.state.duration
  pub duration_in_range : a.state.duration ≤ 3600

abbrev pub IsSound : App → Type 0
IsSound a = IsIdle a ⊎ IsRunning a ⊎ IsStuck a

pub keep_others :
    (xs ys : List ℕ)
    → ((y : ℕ) → contains ys y ≡ true → contains xs y ≡ true)
    → keep (λ p. not (contains xs p)) ys ≡ []
keep_others xs [] h = refl
keep_others xs (y ∷ ys) h = ground (arith, h y, keep_others xs ys (λ z m. h z (ground arith)))

-- A plan that passes the checks has its arguments in range.
pub record InRange (p : Plan) : Type 0 where
  pub cpu : p.cpu_percent ≤ 100
  pub positive : 1 ≤ p.duration
  pub bounded : p.duration ≤ 3600

pub admit-InRange :
    (cpu memory duration : ℤ) (a : App) (p : Plan)
    → admit cpu memory duration a ≡ accept p
    → (a.state.active ≡ false) × InRange p
unfolding admit
admit-InRange (negsuc n) m d a p h = absurd (ground arith)
admit-InRange (pos c) (negsuc n) d a p h = absurd (ground arith)
admit-InRange (pos c) (pos m) (negsuc n) a p h = absurd (ground arith)
admit-InRange (pos c) (pos m) (pos d) a p h = ground arith

pub stop_stress-IsIdle : (a : App) → IsRunning a → IsIdle (stop_stress a)
unfolding stop_stress
stop_stress-IsIdle a r = record {
  state = refl;
  alive = rw r.alive (keep_others a.state.cpu_workers a.state.cpu_workers (λ y m. m));
  timers = rw (r.stop_timer, r.timers) (ground arith);
}

pub stop_stuck-IsIdle : (a : App) → IsStuck a → IsIdle (stop_stress a)
unfolding stop_stress
stop_stuck-IsIdle a r = record {
  state = refl;
  alive = rw r.alive (keep_others a.state.cpu_workers a.state.cpu_workers (λ y m. m));
  timers = rw (r.stop_timer, r.timers) refl;
}

pub start_timer-IsRunning :
    (cores now : ℕ) (block : Option ℕ) (p : Plan) (a : App)
    → IsIdle a
    → InRange p
    → IsRunning (start_timer block (start_workers cores now p a))
unfolding start_timer start_workers
start_timer-IsRunning cores now block p a i q = record {
  active = refl;
  alive = rw (i.alive, i.state);
  timer = a.machine.next_id + spawned cores p;
  stop_timer = refl;
  timers = rw i.timers;
  cpu_in_range = q.cpu;
  duration_positive = q.positive;
  duration_in_range = q.bounded;
}

pub start_workers-IsStuck :
    (cores now : ℕ) (p : Plan) (a : App)
    → IsIdle a
    → InRange p
    → 1 ≤ p.memory_mb
    → IsStuck (start_workers cores now p a)
unfolding start_workers
start_workers-IsStuck cores now p a i q m = record {
  active = refl;
  alive = rw (i.alive, i.state);
  stop_timer = rw i.state refl;
  timers = i.timers;
  some_memory = m;
  cpu_in_range = q.cpu;
  duration_positive = q.positive;
  duration_in_range = q.bounded;
}

-- Only a plan with memory, on a machine that does not have it, is cut short.
pub begin_cases :
    (cores now : ℕ) (fits : Bool) (p : Plan) (a : App)
    → ((block : Option ℕ) × (begin_stress cores now fits p a
          ≡ (start_timer block (start_workers cores now p a), true))
        × ((fits ≡ true) ⊎ (p.memory_mb ≡ 0)))
      ⊎ ((begin_stress cores now fits p a ≡ (start_workers cores now p a, false))
          × (fits ≡ false)
          × (1 ≤ p.memory_mb))
unfolding begin_stress start_workers block_after allocate_memory
begin_cases cores now fits p a = elim (Bool-cases (ltb 0 p.memory_mb)) [
  | inr e ↦ inl (a.state.memory_block, (rw (e, begin_stress) refl), inr (ground arith))
  | inl e ↦ elim (Bool-cases fits) [
    | inl f ↦ inl (some (p.memory_mb * 1024 * 1024), (rw (e, f, begin_stress) refl), inl f)
    | inr f ↦ inr ((rw (e, f, begin_stress) refl), f, ground arith)
  ]
]

pub begin_stress-IsSound :
    (cores now : ℕ) (fits : Bool) (p : Plan) (a : App)
    → IsIdle a
    → InRange p
    → IsSound (begin_stress cores now fits p a).0
begin_stress-IsSound cores now fits p a i q = elim (begin_cases cores now fits p a) [
  | inl (block, e, f) ↦ rw e (inr (inl (start_timer-IsRunning cores now block p a i q)))
  | inr (e, f, m) ↦ rw e (inr (inr (start_workers-IsStuck cores now p a i q m)))
]
