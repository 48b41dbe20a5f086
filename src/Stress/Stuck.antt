-- ===== src/Stress/Stuck.antt =====
-- The service after a test whose memory could not be allocated.
use jim_tf.Base.{ℕ, ◌≤◌, ◌≡◌, sym, inl, inr, Bool, true, false, [], contains, nat_key, arith}
use mathlib.Core.Path.{subst}
use jim_tf.Base.Int.{ℤ}
use jim_tf.Stress.{
  App, Plan, accept, check_request, admit, start_stress, stop_stress_endpoint, fire,
}
use jim_tf.Stress.Sessions.{idle_inactive, delete_running}
use jim_tf.Stress.States.{
  IsIdle, IsStuck, admit-InRange, stop_stuck-IsIdle, start_workers-IsStuck, begin_cases,
}

-- Requests to start a test, and timers that are to fire.
pub data Waits (a : App) : App → Type 0 where
  at_first : Waits a a
  asked :
      {b : App} (cores now : ℕ) (fits : Bool) (cpu memory duration : ℤ)
      → Waits a b
      → Waits a (start_stress cores now fits cpu memory duration b).0
  fired : {b : App} (t : ℕ) → contains b.machine.timers t ≡ true → Waits a b → Waits a (fire t b)

refused :
    (cores now : ℕ) (fits : Bool) (cpu memory duration : ℤ) (a : App)
    → a.state.active ≡ true
    → (start_stress cores now fits cpu memory duration a).0 ≡ a
unfolding start_stress admit
refused cores now fits cpu memory duration a e = ground (arith, e)

Waits-IsStuck : {a b : App} → IsStuck a → Waits a b → IsStuck b
Waits-IsStuck s at_first = s
Waits-IsStuck s (asked {b} cores now fits cpu memory duration w) =
    let k = Waits-IsStuck s w in
    subst IsStuck (sym (refused cores now fits cpu memory duration b k.active)) k
Waits-IsStuck s (fired {b} t m w) =
    let k = Waits-IsStuck s w in absurd (let e : contains [] t ≡ true = rw k.timers at m in (cc))

failed_start :
    (cores now : ℕ) (cpu memory duration : ℤ) (p : Plan) (a : App)
    → IsIdle a
    → check_request cpu memory duration ≡ accept p
    → 1 ≤ p.memory_mb
    → IsStuck (start_stress cores now false cpu memory duration a).0
unfolding start_stress
failed_start cores now cpu memory duration p a i h m =
    let admitted : admit cpu memory duration a ≡ accept p =
      unfold admit in (rw (idle_inactive a i) h) in
    let q = (admit-InRange cpu memory duration a p admitted).1 in
    rw (admitted, start_stress)
      (elim (begin_cases cores now false p a) [
        | inl (block, e, fits) ↦ absurd (elim fits [ inl f ↦ cc | inr z ↦ omega (arith, m, z) ])
        | inr (e, f, k) ↦ rw e (start_workers-IsStuck cores now p a i q m)
      ])

-- If a valid request for memory comes to an idle service and the memory cannot be allocated, then,
-- whatever requests to start a test and timers come afterwards, the test stays active with no timer
-- that is to fire; a request to stop it makes the service idle.
pub failed_start_stays :
    {a b : App} (cores now : ℕ) (cpu memory duration : ℤ) (p : Plan)
    → IsIdle a
    → check_request cpu memory duration ≡ accept p
    → 1 ≤ p.memory_mb
    → Waits (start_stress cores now false cpu memory duration a).0 b
    → (b.state.active ≡ true) × (b.machine.timers ≡ []) × IsIdle (stop_stress_endpoint b).0
failed_start_stays {a} {b} cores now cpu memory duration p i h m w =
    let k = Waits-IsStuck (failed_start cores now cpu memory duration p a i h m) w in
    (k.active, k.timers, subst IsIdle (sym (delete_running b k.active)) (stop_stuck-IsIdle b k))
