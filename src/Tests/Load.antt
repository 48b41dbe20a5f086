-- ===== src/Tests/Load.antt =====
-- An example for the load generator.
use jim_tf.Sender.{Settings, Draws}

abbrev small : Settings
small = record { initial_messages = 12; topup_messages = 5; total_limit = 30 }

abbrev draws : Draws
draws = record { scheme = λ n. 7; factor = λ n. 6 }
