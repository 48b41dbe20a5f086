-- ===== src/Persist/Pool/Rounds.antt =====
-- One round of the pool: what it commits, deletes and leaves with the threads.
use jim_tf.Base.{
  ℕ, zero, suc, ◌+◌, ◌≡◌, ◌⊎◌, inl, inr, refl, ap, String, List, [], ◌∷◌, ◌++◌, map, Conversions,
  append_assoc, nat_key, string_key, total, total-append, flat, arith,
}
use mathlib.Core.List.Memᴰ
use mathlib.Core.List.{Memᴰ}
use jim_tf.Persist.Parse.{Parsed}
use jim_tf.Persist.Worker.{World, Poll}
use jim_tf.Persist.Worker.Tracks.{receipts_of, Stores}
use jim_tf.Persist.Pool.{Thread, polling, ended, broken, round, round_at}
use jim_tf.Persist.Pool.Step.{Holding, IsClean, parsed_by, unmoved, round-Moved}

-- What each thread holds.
abbrev pub AllHold : List Thread → List (List Parsed) → Type 0
AllHold [] [] = Unit
AllHold (t ∷ ts) (kept ∷ held) = Holding t kept × AllHold ts held
AllHold [] (kept ∷ held) = ⊥
AllHold (t ∷ ts) [] = ⊥

abbrev pub HasBroken : List Thread → Type 0
HasBroken [] = ⊥
HasBroken (broken ∷ ts) = Unit
HasBroken (polling b ∷ ts) = HasBroken ts
HasBroken (ended ∷ ts) = HasBroken ts

HasBroken-cons : (t : Thread) (ts : List Thread) → HasBroken ts → HasBroken (t ∷ ts)
HasBroken-cons broken ts h = tt
HasBroken-cons (polling b) ts h = h
HasBroken-cons ended ts h = h

HasBroken-tail :
    (t : Thread) (ts us : List Thread)
    → (HasBroken ts → HasBroken us)
    → HasBroken (t ∷ ts)
    → HasBroken (t ∷ us)
HasBroken-tail broken ts us f h = tt
HasBroken-tail (polling b) ts us f h = f h
HasBroken-tail ended ts us f h = f h

abbrev pub parsed_at : Conversions → ℕ → Poll → List Thread → List Parsed
parsed_at c i p [] = []
parsed_at c zero p (t ∷ ts) = parsed_by c t p
parsed_at c (suc i) p (t ∷ ts) = parsed_at c i p ts

-- From one state of the pool to the next, where `new` are the messages that are parsed.
pub record Changed (before : World) (old : List Thread) (held : List (List Parsed))
    (new : List Parsed) (ts : List Thread) (w : World) : Type 0 where
  pub committed : List Parsed
  pub undeleted : List String
  pub held' : List (List Parsed)
  pub stores : Stores before committed w
  pub balance :
      (f : Parsed → ℕ)
      → total f committed + total f (flat held') ≡ total f (flat held) + total f new
  pub deleted :
      receipts_of w.delete_calls ++ undeleted
      ≡ receipts_of before.delete_calls ++ map (λ p. p.receipt) committed
  pub holding : AllHold ts held'
  pub clean : HasBroken ts ⊎ (undeleted ≡ [])
  pub stays : HasBroken old → HasBroken ts
  pub among : (m : Parsed) → Memᴰ m (committed ++ flat held') → Memᴰ m (flat held ++ new)

-- Members of what a round of one thread moves, beside what the other threads hold.
first_among :
    (m : Parsed) (committed kept given new others : List Parsed)
    → committed ++ kept ≡ given ++ new
    → Memᴰ m (committed ++ (kept ++ others))
    → Memᴰ m ((given ++ others) ++ new)
first_among m committed kept given new others e t =
    elim (Memᴰ.append_cases (committed ++ kept) (rw (← append_assoc committed kept others) at t)) [
      | inl a ↦ elim (Memᴰ.append_cases given (rw e at a)) [
        | inl g ↦ Memᴰ.append_left new (Memᴰ.append_left others g)
        | inr n ↦ Memᴰ.append_right (given ++ others) n
      ]
      | inr o ↦ Memᴰ.append_left new (Memᴰ.append_right given o)
    ]

later_among :
    (m : Parsed) (committed kept others others' new : List Parsed)
    → (Memᴰ m (committed ++ others) → Memᴰ m (others' ++ new))
    → Memᴰ m (committed ++ (kept ++ others))
    → Memᴰ m ((kept ++ others') ++ new)
later_among m committed kept others others' new f t = elim (Memᴰ.append_cases committed t) [
  | inl a ↦ moved (f (Memᴰ.append_left others a))
  | inr b ↦ elim (Memᴰ.append_cases kept b) [
    | inl k ↦ Memᴰ.append_left new (Memᴰ.append_left others' k)
    | inr o ↦ moved (f (Memᴰ.append_right committed o))
  ]
]
  where
    moved : Memᴰ m (others' ++ new) → Memᴰ m ((kept ++ others') ++ new)
    moved u = rw (append_assoc kept others' new) (Memᴰ.append_right kept u)

unchanged :
    (ts : List Thread) (held : List (List Parsed)) (w : World)
    → AllHold ts held
    → Changed w ts held [] ts w
unchanged ts held w h = record {
  committed = [];
  undeleted = [];
  held' = held;
  stores = (unmoved w).stores;
  balance = λ f. omega arith;
  deleted = refl;
  holding = h;
  clean = inr refl;
  stays = λ b. b;
  among = λ m t. Memᴰ.append_left [] t;
}

module _ (c : Conversions) (commit_size : ℕ) where
  first_clean :
      (t : Thread) (ts : List Thread) (undeleted : List String)
      → IsClean t undeleted
      → HasBroken (t ∷ ts) ⊎ (undeleted ≡ [])
  first_clean broken ts u h = inl tt
  first_clean (polling b) ts u h = inr h
  first_clean ended ts u h = inr h

  first_stays :
      (p : Poll) (t : Thread) (ts : List Thread) (w : World)
      → HasBroken (t ∷ ts)
      → HasBroken ((round c commit_size p t w).0 ∷ ts)
  first_stays p broken ts w h = unfold round in tt
  first_stays p ended ts w h = unfold round in h
  first_stays p (polling b) ts w h = HasBroken-cons (round c commit_size p (polling b) w).0 ts h

  pub round_at-Changed :
      (i : ℕ) (p : Poll) (ts : List Thread) (held : List (List Parsed)) (w : World)
      → AllHold ts held
      → Changed w ts held
          (parsed_at c i p ts)
          (round_at c commit_size i p ts w).0
          (round_at c commit_size i p ts w).1
  unfolding round_at
  round_at-Changed i p [] [] w h = unchanged [] [] w h
  round_at-Changed i p [] (kept ∷ held) w h = absurd h
  round_at-Changed i p (t ∷ ts) [] w h = absurd h
  round_at-Changed zero p (t ∷ ts) (kept ∷ held) w h =
      let m = round-Moved c commit_size p t kept w h.0 in
      record {
        committed = m.committed;
        undeleted = m.undeleted;
        held' = m.kept ∷ held;
        stores = m.stores;
        balance = λ f. omega (
          arith,
          ap (total f) m.split,
          total-append f m.committed m.kept,
          total-append f kept (parsed_by c t p),
          total-append f m.kept (flat held),
          total-append f kept (flat held),
        );
        deleted = m.deleted;
        holding = (m.holding, h.1);
        clean = first_clean _ ts m.undeleted m.clean;
        stays = first_stays p t ts w;
        among = λ x. first_among x m.committed m.kept kept (parsed_by c t p) (flat held) m.split;
      }
  round_at-Changed (suc i) p (t ∷ ts) (kept ∷ held) w h =
      let k = round_at-Changed i p ts held w h.1 in
      record {
        committed = k.committed;
        undeleted = k.undeleted;
        held' = kept ∷ k.held';
        stores = k.stores;
        balance = λ f. omega (
          arith,
          k.balance f,
          total-append f kept (flat k.held'),
          total-append f kept (flat held),
        );
        deleted = k.deleted;
        holding = (h.0, k.holding);
        clean = elim k.clean [ inl b ↦ inl (HasBroken-cons t _ b) | inr e ↦ inr e ];
        stays = HasBroken-tail t ts _ k.stays;
        among = λ x.
            later_among x k.committed kept (flat k.held') (flat held) (parsed_at c i p ts)
              (k.among x);
      }
