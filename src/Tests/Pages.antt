-- ===== src/Tests/Pages.antt =====
-- Examples for the web server's pages.
use jim_tf.Base.{◌≡◌, refl, String, true, false, none, List, [], ◌∷◌, map}
use jim_tf.Web.{Pool, stale, live, answers, operational}
use jim_tf.Web.Retries.{Leaks}
use jim_tf.Web.Rows.{whole}
use jim_tf.Web.Pages.{Request, Round, sent, broken_pipe, Wire, Writing, file, do_get}
use jim_tf.Web.Pages.Served.{failing_at, IsOneResponse, do_get-IsOneResponse}
use jim_tf.Web.Pages.Allowed.{guarded, do_get-listed}

abbrev hostile : Request
hostile = record {
  path = "/api/throughput";
  query = ("scheme", "1' OR '1'='1" ∷ []) ∷ ("runtime", "factors; DROP TABLE factors" ∷ []) ∷ [];
}

-- The first connection is lost at the statement, the second answers with one row.
abbrev two_rounds : List Round
two_rounds =
    record {
      attempts = stale true ∷ live 1 ∷ [];
      execute = λ conn st. operational "gone";
      put_back = false;
    }
    ∷ record {
      attempts = live 2 ∷ [];
      put_back = true;
      execute = λ conn st.
          answers ((whole 3 ∷ whole 4 ∷ whole 5 ∷ whole 1000 ∷ whole 3000 ∷ whole 6 ∷ []) ∷ []);
    }
    ∷ []

abbrev idle : Pool
idle = record { is_open = true; held = 0; slept = 0 }

abbrev working : Wire
working = record { head_raises = none; ending = sent }

abbrev cut_off : Wire
cut_off = record { head_raises = none; ending = broken_pipe }

abbrev files : String → Writing
files path = (none, file path ∷ [])

do_get-IsOneResponse_example :
    IsOneResponse (do_get files hostile two_rounds working working idle).0
    × Leaks idle.held
        (failing_at two_rounds)
        (do_get files hostile two_rounds working working idle).1.held
do_get-IsOneResponse_example =
    do_get-IsOneResponse files working working hostile two_rounds idle refl (refl, refl)
      (refl, refl)

do_get-listed_example :
    do_get files hostile (map guarded two_rounds) working cut_off idle
    ≡ do_get files hostile two_rounds working cut_off idle
do_get-listed_example = do_get-listed files hostile two_rounds working cut_off idle
