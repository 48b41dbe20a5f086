-- ===== src/Persist/Pool/Step.antt =====
-- One round of one worker of the pool: what it commits, keeps and deletes.
use jim_tf.Base.{ℕ, ◌≡◌, refl, sym, String, List, [], ◌++◌, map, Conversions, append-nil}
use jim_tf.Persist.Parse.{Parsed}
use jim_tf.Persist.Batch.Totals.{merge-none}
use jim_tf.Persist.Store.Rows.{or_else-none}
use jim_tf.Persist.Worker.{World, Poll, Outcome, running, finished, crashed, worker_step}
use jim_tf.Persist.Worker.Tracks.{receipts_of, parsed_of, Holds, Stores, IsSettled}
use jim_tf.Persist.Worker.Run.{Steps, worker_step-Steps}
use jim_tf.Persist.Pool.{Thread, polling, ended, broken, after, round}

-- The messages that a thread has parsed and not committed: those in its buffers, or those that its
-- exception has lost.
abbrev pub Holding : Thread → List Parsed → Type 0
Holding (polling b) kept = Holds kept b
Holding ended kept = kept ≡ []
Holding broken kept = Unit

-- Only a broken thread leaves messages that it has committed and not deleted.
abbrev pub IsClean : Thread → List String → Type 0
IsClean broken undeleted = Unit
IsClean (polling b) undeleted = undeleted ≡ []
IsClean ended undeleted = undeleted ≡ []

-- From one world to the next, for a thread that then holds some of the messages that are given.
pub record Moved (before : World) (given : List Parsed) (t : Thread) (w : World) : Type 0 where
  pub committed : List Parsed
  pub kept : List Parsed
  pub undeleted : List String
  pub split : committed ++ kept ≡ given
  pub stores : Stores before committed w
  pub deleted :
      receipts_of w.delete_calls ++ undeleted
      ≡ receipts_of before.delete_calls ++ map (λ p. p.receipt) committed
  pub holding : Holding t kept
  pub clean : IsClean t undeleted

pub unmoved : (w : World) → IsSettled w [] w
unmoved w = record {
  stores = record { totals = λ s. sym (merge-none _); factors = λ q. sym (or_else-none _) };
  deleted = sym (append-nil _);
}

after-Moved :
    (c : Conversions) (commit_size : ℕ) (before : World) (given : List Parsed) (o : Outcome)
    → Steps c commit_size before given o
    → Moved before given (after o).0 (after o).1
unfolding after
after-Moved c commit_size before given (running b w) h = record {
  committed = h.committed;
  kept = h.pending;
  undeleted = [];
  split = h.split;
  stores = h.settled.stores;
  deleted = rw append-nil h.settled.deleted;
  holding = h.holds;
  clean = refl;
}
after-Moved c commit_size before given (finished w) h = record {
  committed = given;
  kept = [];
  undeleted = [];
  split = append-nil given;
  stores = h.stores;
  deleted = rw append-nil h.deleted;
  holding = refl;
  clean = refl;
}
after-Moved c commit_size before given (crashed w) h = record {
  committed = h.committed;
  kept = h.lost;
  undeleted = h.cut.undeleted;
  split = h.split;
  stores = h.cut.stores;
  deleted = h.cut.deleted;
  holding = tt;
  clean = tt;
}

-- The messages that a round of a thread parses.
abbrev pub parsed_by : Conversions → Thread → Poll → List Parsed
parsed_by c (polling b) p = parsed_of c p.messages
parsed_by c ended p = []
parsed_by c broken p = []

still :
    (c : Conversions) (t : Thread) (kept : List Parsed) (w : World)
    → Holding t kept
    → IsClean t []
    → Moved w (kept ++ []) t w
still c t kept w h e = record {
  committed = [];
  kept = kept;
  undeleted = [];
  split = sym (append-nil kept);
  stores = (unmoved w).stores;
  deleted = refl;
  holding = h;
  clean = e;
}

pub round-Moved :
    (c : Conversions) (commit_size : ℕ) (p : Poll) (t : Thread) (kept : List Parsed) (w : World)
    → Holding t kept
    → Moved w (kept ++ parsed_by c t p) (round c commit_size p t w).0 (round c commit_size p t w).1
unfolding round
round-Moved c commit_size p (polling b) kept w h =
    after-Moved c commit_size w (kept ++ parsed_of c p.messages) (worker_step c commit_size p b w) (
      worker_step-Steps c commit_size w p kept b w
        (record { committed = []; pending = kept; split = refl; settled = unmoved w; holds = h }))
round-Moved c commit_size p ended kept w h = still c ended kept w h refl
round-Moved c commit_size p broken kept w h = still c broken kept w h tt
