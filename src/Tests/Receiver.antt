-- ===== src/Tests/Receiver.antt =====
-- Examples for the receiver thread.
use jim_tf.Base.{◌≡◌, ◌≢◌, refl, List, [], ◌∷◌, ◌++◌, some, true, length, inr}
use jim_tf.Process.{Poll, Receiver, continue, stop, start, receiver_loop, int_attribute}
use jim_tf.Sqs.{string_value}
use jim_tf.Process.Loop.{trailing, receiver_loop_ends}
use jim_tf.Process.Drains.{Early, receiver_loop-drains}
use jim_tf.Process.Drains.Polls.{IsReadable, receipts_of, deleted_receipts}
use jim_tf.Process.Answers.{IsAnswered, receiver_loop-answers}
use jim_tf.Process.Answers.Built.{delivered}
use jim_tf.Tests.{few, request}

abbrev one_message : Poll
one_message = record {
  messages = record { message = request; factor_time_ms = 0; pulled_time_ms = 140 } ∷ [];
  send_failed = some [];
  delete_returns = true;
}

abbrev empty : Poll
empty = record { messages = []; send_failed = some []; delete_returns = true }

abbrev polls : List Poll
polls = empty ∷ one_message ∷ empty ∷ empty ∷ empty ∷ one_message ∷ []

readable : IsReadable few (record { message = request; factor_time_ms = 0; pulled_time_ms = 140 })
unfolding int_attribute string_value
readable = record {
  factor = 6;
  scheme = 1;
  sent_time = 100;
  factor_at = refl;
  scheme_at = refl;
  sent_at = refl;
}

receiver_loop-drains_example :
    (t : Receiver) × (taken rest : List Poll) × (receiver_loop few
        (λ n. 2)
        ((one_message ∷ []) ++ empty ∷ empty ∷ empty ∷ [])
        start
      ≡ stop t)
    × ((one_message ∷ []) ++ empty ∷ empty ∷ empty ∷ [] ≡ taken ++ rest)
    × (trailing 0 taken ≡ 3)
    × Early 0 taken
    × (t.processed ≡ length (delivered taken))
    × (deleted_receipts t ≡ receipts_of (delivered taken))
    × (length t.results ≡ length (delivered taken))
receiver_loop-drains_example =
    receiver_loop-drains few (λ n. 2) (one_message ∷ []) empty empty empty
      (((readable, tt), inr (refl, refl)), tt) refl refl refl

receiver_loop_ends_example :
    receiver_loop few (λ n. 2) ((one_message ∷ []) ++ empty ∷ empty ∷ empty ∷ []) start
    ≢ continue start
receiver_loop_ends_example =
    receiver_loop_ends few (λ n. 2) (one_message ∷ []) [] empty empty empty start start refl refl
      refl

receiver_loop-answers_example :
    IsAnswered few (λ n. 2) (delivered polls) (receiver_loop few (λ n. 2) polls start)
receiver_loop-answers_example = receiver_loop-answers few (λ n. 2) polls
