-- ===== src/Observe/Services/Reports.antt =====
-- The report on the queues, queue by queue.
use jim_tf.Base.{◌+◌, ◌≡◌, refl, String, List, [], ◌∷◌, ◌++◌, append_assoc, append-nil, sym, ◌∙◌}
use Prim.Native.String.{◌++◌ as ◌then◌}
use jim_tf.Observe.{medium, unable, Problem, problem, Reply, raises, returns}
use jim_tf.Observe.Services.{
  Depths, Queue, SqsReport, depth_problems, queue_step, queue_loop, check_sqs,
}

-- What one queue gives by itself.
abbrev pub queues_of : String × Reply Depths → List Queue
queues_of (name, raises exc) = []
queues_of (name, returns d) =
    record { name = name; depths = d; total = d.visible + d.in_flight + d.delayed } ∷ []

abbrev pub problems_of : String × Reply Depths → List Problem
problems_of (name, raises exc) = problem "sqs" medium ("queue/" then name) (unable exc) ∷ []
problems_of (name, returns d) = depth_problems name d.visible

abbrev pub flat_map {ℓ κ} : {A : Type ℓ} {B : Type κ} → (A → List B) → List A → List B
flat_map f [] = []
flat_map f (x ∷ xs) = f x ++ flat_map f xs

step_queues :
    (name : String) (reply : Reply Depths) (r : SqsReport) (rest : List (String × Reply Depths))
    → ((queue_step name reply r).queues ++ flat_map queues_of rest
        ≡ r.queues ++ flat_map queues_of ((name, reply) ∷ rest))
      × ((queue_step name reply r).problems ++ flat_map problems_of rest
          ≡ r.problems ++ flat_map problems_of ((name, reply) ∷ rest))
unfolding queue_step
step_queues name (raises exc) r rest =
    (refl, append_assoc r.problems (problems_of (name, raises exc)) (flat_map problems_of rest))
step_queues name (returns d) r rest = (
  append_assoc r.queues (queues_of (name, returns d)) (flat_map queues_of rest),
  append_assoc r.problems (problems_of (name, returns d)) (flat_map problems_of rest),
)

loop_queues :
    (replies : List (String × Reply Depths)) (r : SqsReport)
    → ((queue_loop replies r).queues ≡ r.queues ++ flat_map queues_of replies)
      × ((queue_loop replies r).problems ≡ r.problems ++ flat_map problems_of replies)
unfolding queue_loop
loop_queues [] r = (sym (append-nil r.queues), sym (append-nil r.problems))
loop_queues ((name, reply) ∷ rest) r =
    let h = loop_queues rest (queue_step name reply r) in
    let s = step_queues name reply r rest in (h.0 ∙ s.0, h.1 ∙ s.1)

-- Each queue is reported by itself, in order: a queue whose calls return is listed with the sum of its
-- three depths and has the problem of its depth, if any; a queue whose calls raise has one problem,
-- and does not keep the others from being reported.
check_sqs-each :
    (replies : List (String × Reply Depths))
    → ((check_sqs replies).queues ≡ flat_map queues_of replies)
      × ((check_sqs replies).problems ≡ flat_map problems_of replies)
unfolding check_sqs
check_sqs-each replies = loop_queues replies (record { queues = []; problems = [] })
