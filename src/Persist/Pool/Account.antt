-- ===== src/Persist/Pool/Account.antt =====
-- What the pool of workers has stored and deleted, against the messages that its threads have parsed.
use jim_tf.Base.{
  ℕ, ◌+◌, ◌≡◌, ◌⊎◌, inl, inr, refl, sym, ap, ◌∙◌, String, List, [], ◌∷◌, ◌++◌, map, Conversions,
  append-nil, append_assoc, map-append, lookup, nat_key, string_key, Option-cases, total,
  total-append, total-map, flat, arith,
}
use mathlib.Core.Path.{ap₂}
use mathlib.Core.List.Memᴰ
use mathlib.Core.List.{Memᴰ}
use jim_tf.Persist.Parse.{Parsed}
use jim_tf.Persist.Batch.Totals.{merge, merge_assoc, tally, tally-append}
use jim_tf.Persist.Store.Rows.{or_else, or_else_assoc, lookup-append}
use jim_tf.Persist.Worker.{World, Poll}
use jim_tf.Persist.Worker.Tracks.{receipts_of, entry, Stores}
use jim_tf.Persist.Pool.{Thread, round_at, run_pool, opened, submitted, persist}
use jim_tf.Persist.Pool.Step.{Holding, unmoved}
use jim_tf.Persist.Setup.{Server, ensure_db}
use jim_tf.Persist.Worker.Run.{no_buffers-Holds}
use jim_tf.Persist.Pool.Rounds.{AllHold, HasBroken, parsed_at, Changed, round_at-Changed}

Stores-append :
    (start before w : World) (xs ys : List Parsed)
    → Stores start xs before
    → Stores before ys w
    → Stores start (xs ++ ys) w
Stores-append start before w xs ys h k = record {
  totals = λ s.
      k.totals s
      ∙ ap (λ t. merge t (tally s ys)) (h.totals s)
      ∙ merge_assoc (lookup s start.database.summary) (tally s xs) (tally s ys)
      ∙ ap (merge (lookup s start.database.summary)) (sym (tally-append s xs ys));
  factors = λ q.
      k.factors q
      ∙ ap (λ t. or_else t (lookup q (map entry ys))) (h.factors q)
      ∙ or_else_assoc (lookup q start.database.factors) (lookup q (map entry xs))
          (lookup q (map entry ys))
      ∙ ap (or_else (lookup q start.database.factors)) (
          sym (lookup-append q (map entry xs) (map entry ys))
          ∙ ap (lookup q) (sym (map-append entry xs ys)));
}

-- The messages that the threads parse over the rounds, in the order of the rounds.
abbrev pub parsed_over : Conversions → ℕ → List (ℕ × Poll) → List Thread → World → List Parsed
parsed_over c commit_size [] ts w = []
parsed_over c commit_size ((i, p) ∷ rounds) ts w =
    parsed_at c i p ts
    ++ parsed_over c commit_size rounds (round_at c commit_size i p ts w).0
        (round_at c commit_size i p ts w).1

-- The account of a pool that has parsed the messages `seen`: those that are committed, which are in
-- the tables, and those that the threads hold are together the messages of `seen`, each as often.
-- The deletions are those of committed messages, each as often, but for the undeleted ones, of
-- which there are some only if a thread is broken.
pub record Accounted (start : World) (seen : List Parsed) (ts : List Thread) (w : World)
    : Type 0 where
  pub committed : List Parsed
  pub undeleted : List String
  pub held : List (List Parsed)
  pub stores : Stores start committed w
  pub balance : (f : Parsed → ℕ) → total f committed + total f (flat held) ≡ total f seen
  pub deleted :
      (g : String → ℕ)
      → total g (receipts_of w.delete_calls) + total g undeleted
        ≡ total g (receipts_of start.delete_calls) + total (λ p. g p.receipt) committed
  pub holding : AllHold ts held
  pub clean : HasBroken ts ⊎ (undeleted ≡ [])
  pub among : (m : Parsed) → Memᴰ m (committed ++ flat held) → Memᴰ m seen

Changed-Accounted :
    (start w w' : World) (seen new : List Parsed) (ts ts' : List Thread)
    (a : Accounted start seen ts w)
    → Changed w ts a.held new ts' w'
    → Accounted start (seen ++ new) ts' w'
Changed-Accounted start w w' seen new ts ts' a k = record {
  committed = a.committed ++ k.committed;
  undeleted = a.undeleted ++ k.undeleted;
  held = k.held';
  stores = Stores-append start w w' a.committed k.committed a.stores k.stores;
  balance = λ f. omega (
    arith,
    a.balance f,
    k.balance f,
    total-append f a.committed k.committed,
    total-append f seen new,
  );
  deleted = λ g. omega (
    arith,
    a.deleted g,
    ap (total g) k.deleted,
    total-append g (receipts_of w'.delete_calls) k.undeleted,
    total-append g (receipts_of w.delete_calls) (map (λ p. p.receipt) k.committed),
    total-map g (λ (p : Parsed). p.receipt) k.committed,
    total-append g a.undeleted k.undeleted,
    total-append (λ (p : Parsed). g p.receipt) a.committed k.committed,
  );
  holding = k.holding;
  clean = elim k.clean [
    | inl b ↦ inl b
    | inr e ↦ elim a.clean [ inl b ↦ inl (k.stays b) | inr e' ↦ inr (ap₂ ◌++◌ e' e) ]
  ];
  among = λ m t.
      elim (Memᴰ.append_cases a.committed
        (rw (append_assoc a.committed k.committed (flat k.held')) at t)) [
          | inl old ↦ Memᴰ.append_left new (a.among m (Memᴰ.append_left (flat a.held) old))
          | inr r ↦ elim (Memᴰ.append_cases (flat a.held) (k.among m r)) [
            | inl h ↦ Memᴰ.append_left new (a.among m (Memᴰ.append_right a.committed h))
            | inr n ↦ Memᴰ.append_right seen n
          ]
        ];
}

module _ (c : Conversions) (commit_size : ℕ) (start : World) where
  rounds-Accounted :
      (rounds : List (ℕ × Poll)) (ts : List Thread) (w : World) (seen : List Parsed)
      → Accounted start seen ts w
      → Accounted start
          (seen ++ parsed_over c commit_size rounds ts w)
          (run_pool c commit_size rounds (record { threads = ts; world = w })).threads
          (run_pool c commit_size rounds (record { threads = ts; world = w })).world
  unfolding run_pool
  rounds-Accounted [] ts w seen a = rw (append-nil seen) a
  rounds-Accounted ((i, p) ∷ rounds) ts w seen a =
      let k = round_at-Changed c commit_size i p ts a.held w a.holding in
      let ts' = (round_at c commit_size i p ts w).0 in
      let w' = (round_at c commit_size i p ts w).1 in
      rw (← append_assoc seen (parsed_at c i p ts) (parsed_over c commit_size rounds ts' w')) (
        rounds-Accounted rounds ts' w' (seen ++ parsed_at c i p ts)
          (Changed-Accounted start w w' seen (parsed_at c i p ts) ts ts' a k))

  opened-Holding :
      (name admin_db : String) (server : Server) → Holding (opened name admin_db server) []
  opened-Holding name admin_db server = elim (Option-cases (ensure_db name admin_db server).0) [
    | inl q ↦ unfold opened in rw (q, opened) no_buffers-Holds
    | inr (exc, q) ↦ unfold opened in rw (q, opened) tt
  ]

  submitted_hold :
      (name admin_db : String) (servers : List Server)
      → (held : List (List Parsed)) × AllHold (submitted name admin_db servers) held
        × (flat held ≡ [])
  unfolding submitted
  submitted_hold name admin_db [] = ([], tt, refl)
  submitted_hold name admin_db (server ∷ servers) =
      let (held, h, e) = submitted_hold name admin_db servers in
      ([] ∷ held, (opened-Holding name admin_db server, h), e)

  submitted-Accounted :
      (name admin_db : String) (servers : List Server)
      → Accounted start [] (submitted name admin_db servers) start
  submitted-Accounted name admin_db servers =
      let (held, h, e) = submitted_hold name admin_db servers in
      record {
        committed = [];
        undeleted = [];
        held = held;
        stores = (unmoved start).stores;
        balance = λ f. omega (arith, ap (total f) e);
        deleted = λ g. omega arith;
        holding = h;
        clean = inr refl;
        among = λ m t. rw e at t;
      }

  -- Whatever the queue and the database answer to the threads of the pool, and in whatever order
  -- their rounds happen: the tables are those of the start with a list of committed messages added,
  -- and these and the messages that the threads hold in their buffers, or have lost by an exception,
  -- are together the messages that the threads have parsed, each as often. The deletions are those
  -- of the committed messages, each as often, but for some that are left out if a thread is broken.
  pub persist-Accounted :
      (name admin_db : String) (servers : List Server) (rounds : List (ℕ × Poll))
      → Accounted start
          (parsed_over c commit_size rounds (submitted name admin_db servers) start)
          (persist c commit_size name admin_db servers rounds start).threads
          (persist c commit_size name admin_db servers rounds start).world
  persist-Accounted name admin_db servers rounds =
      unfold persist in
      rounds-Accounted rounds (submitted name admin_db servers) start []
        (submitted-Accounted name admin_db servers)
