-- ===== src/Tests/Stored.antt =====
-- Examples for the persist worker, alone and behind the receiver thread.
use jim_tf.Base.{◌≡◌, ◌≢◌, refl, List, [], ◌∷◌, ◌++◌, some, string_key}
use jim_tf.Sqs.{Message, SendEntry, DeleteEntry, string_value}
use jim_tf.Process.{build_entry, int_attribute}
use jim_tf.Persist.Parse.{Reading, parse_message}
use jim_tf.Persist.Worker.{no_buffers, World, commits, database_raises, Poll, running, worker}
use jim_tf.Persist.Worker.Run.{Ends, worker_account}
use jim_tf.Persist.Worker.End.{worker_ends}
use jim_tf.Persist.Older.{older_worker}
use jim_tf.Persist.Older.Same.{older_worker-worker}
use jim_tf.Pipeline.{queued, stored, parse_message-build_entry}
use jim_tf.Tests.{few, request}

abbrev pub reading : Reading
reading = record {
  pulled_at_ms = 150;
  elapsed_ms = 50;
  persisted_at_ms = 151;
  stored_at_ms = 152;
  rand_a = 5;
  rand_b = 9;
}

abbrev pub result : Message
result = record {
  message_id = "n";
  receipt_handle = "s";
  sent_timestamp = "140";
  attributes =
      ("Factor", record { data_type = "String"; string_value = "6" })
      ∷ ("Scheme", record { data_type = "String"; string_value = "1" })
      ∷ ("Result", record { data_type = "String"; string_value = "[1, 2, 3]" })
      ∷ [];
}

abbrev polls : List Poll
polls =
    record { messages = (result, reading) ∷ (request, reading) ∷ []; answer = commits 1 }
    ∷ record { messages = []; answer = commits 1 }
    ∷ record { messages = []; answer = commits 1 }
    ∷ []

abbrev pub empty_world : World
empty_world = record { database = record { factors = []; summary = [] }; delete_calls = [] }

abbrev pub idle : Poll
idle = record { messages = []; answer = database_raises }

worker_account_example :
    Ends few 100 empty_world [] polls no_buffers empty_world
      (worker few 100 polls no_buffers empty_world)
worker_account_example = worker_account few 100 empty_world polls

worker_ends_example :
    worker few 100 ([] ++ idle ∷ idle ∷ []) no_buffers empty_world ≢ running no_buffers empty_world
worker_ends_example =
    worker_ends few 100 empty_world [] [] idle idle no_buffers no_buffers empty_world empty_world
      refl refl

older_worker-worker_example :
    older_worker few polls empty_world ≡ worker few 1 polls no_buffers empty_world
older_worker-worker_example = older_worker-worker few polls empty_world

parse_message-build_entry_example :
    (e : SendEntry) × (d : DeleteEntry) × (build_entry few 0 request (1 ∷ 2 ∷ 3 ∷ []) 7 140
      ≡ some (e, d))
    × (d.receipt_handle ≡ "r")
    × (parse_message few (queued e "n" "s" "140") reading
        ≡ some (stored few request (1 ∷ 2 ∷ 3 ∷ []) 6 1 100 7 140 "s" reading))
unfolding int_attribute string_value
parse_message-build_entry_example =
    parse_message-build_entry few request (1 ∷ 2 ∷ 3 ∷ []) 6 1 100 7 140 0 "n" "s" "140" 140 reading
      refl refl refl (record { int_str = refl; is_digit_str = refl; str_filled = refl })
      (record { int_str = refl; is_digit_str = refl; str_filled = refl })
      (record { int_str = refl; is_digit_str = refl; str_filled = refl })
      (record { int_str = refl; is_digit_str = refl; str_filled = refl })
      (record { int_str = refl; is_digit_str = refl; str_filled = refl }) refl refl
