-- ===== src/Stress/Sessions.antt =====
-- The service under requests, timers and the shutdown signal, one at a time and overlapping.
use jim_tf.Base.{
  ℕ, ◌+◌, ◌≡◌, inl, inr, refl, ap, Option, Bool, true, false, [], ◌∷◌, contains, nat_key, arith,
}
use jim_tf.Base.Int.{ℤ}
use jim_tf.Stress.{
  StressState, App, idle_state, Plan, accept, check_request, stop_stress, spawned, start_workers,
  start_timer, begin_stress, admit, start_stress, stop_stress_endpoint, fire,
}
use jim_tf.Stress.States.{IsIdle, begin_cases}

-- What may happen next: a request, a timer that is to fire, or a signal to shut down.
pub data Step : App → App → Type 0 where
  post :
      (cores now : ℕ) (fits : Bool) (cpu memory duration : ℤ) (a : App)
      → Step a (start_stress cores now fits cpu memory duration a).0
  delete : (a : App) → Step a (stop_stress_endpoint a).0
  fires : (t : ℕ) (a : App) → contains a.machine.timers t ≡ true → Step a (fire t a)
  shutdown : (a : App) → Step a (stop_stress a)

pub data Reach (a : App) : App → Type 0 where
  here : Reach a a
  next : {b d : App} → Reach a b → Step b d → Reach a d

pub idle_inactive : (a : App) → IsIdle a → a.state.active ≡ false
idle_inactive a i = ap (λ (s : StressState). s.active) i.state

pub delete_running : (a : App) → a.state.active ≡ true → (stop_stress_endpoint a).0 ≡ stop_stress a
unfolding stop_stress_endpoint
delete_running a e = ground arith

begin_active :
    (cores now : ℕ) (fits : Bool) (p : Plan) (a : App)
    → (begin_stress cores now fits p a).0.state.active ≡ true
unfolding start_timer start_workers
begin_active cores now fits p a = elim (begin_cases cores now fits p a) [
  | inl (block, e, f) ↦ rw e refl
  | inr (e, f, m) ↦ rw e refl
]

begin_fits :
    (cores now : ℕ) (p : Plan) (a : App)
    → (block : Option ℕ) × (begin_stress cores now true p a
        ≡ (start_timer block (start_workers cores now p a), true))
begin_fits cores now p a = elim (begin_cases cores now true p a) [
  | inl (block, e, f) ↦ (block, e)
  | inr (e, f, m) ↦ absurd (cc)
]

-- Two requests with valid arguments that are read while the service is idle both pass the test of
-- `active`, which stands outside the lock; then both start, if their memory can be allocated. Stopping
-- the service afterwards resets its state, and leaves the first one's timer to fire; when it does,
-- it ends whatever test has been started meanwhile.
pub overlapping_starts :
    (cores now now' now'' : ℕ) (fits : Bool) (cpu memory duration cpu' memory' duration' : ℤ)
    (a : App) (p q r : Plan)
    → IsIdle a
    → check_request cpu memory duration ≡ accept p
    → check_request cpu' memory' duration' ≡ accept q
    → let timer = a.machine.next_id + spawned cores p in
      let (first, first_started) = begin_stress cores now true p a in
      let (second, second_started) = begin_stress cores now' true q first in
      let stopped = stop_stress second in
      (admit cpu memory duration a ≡ accept p)
      × (admit cpu' memory' duration' a ≡ accept q)
      × (first_started ≡ true)
      × (second_started ≡ true)
      × (stopped.state ≡ idle_state)
      × (stopped.machine.timers ≡ timer ∷ [])
      × ((begin_stress cores now'' fits r stopped).0.state.active ≡ true)
      × ((fire timer (begin_stress cores now'' fits r stopped).0).state ≡ idle_state)
unfolding stop_stress start_timer start_workers fire admit
overlapping_starts cores now now' now'' fits cpu memory duration cpu' memory' duration' a p q r i hp
      hq =
    let idle : a.state.active ≡ false = idle_inactive a i in
    let (block, e) = begin_fits cores now p a in
    let (block', e') = begin_fits cores now' q (start_timer block (start_workers cores now p a)) in
    rw (e, e')
      (
        (ground arith),
        (ground arith),
        refl,
        refl,
        refl,
        (rw i.timers (ground arith)),
        begin_active cores now'' fits r _,
        refl,
      )
