-- ===== src/Observer/Late.antt =====
-- A commit whose delivery is overtaken by that of the next one (observer.rs; db/transact.rs notifies
-- observers after it has released the write lock).
use ferratomic.Prelude.{
  ℕ, zero, suc, ◌+◌, ◌≤◌, ◌<◌, ◌≡◌, ap, ◌∙◌, none, some, List, [], ◌∷◌, ◌++◌, append-nil, map,
  length, length-append, get_elem?, All, arith,
}
use ferratomic.Datom.Types.{Datom}
use ferratomic.Observer.{
  Delivery, on_catchup, BroadcastEntry, RegisteredObserver, ObserverBroadcast, u64_max, trim,
  delta_after, buffered_delta_since, delivery, notify, publish, Commit, publish_all,
}

abbrev pub commit_of : ℕ → List Datom → List Datom → Commit
commit_of epoch datoms store = record { epoch = epoch; datoms = datoms; store = store }

trim_fits : (n : ℕ) (l : List BroadcastEntry) → length l ≤ n → trim n l ≡ l
unfolding trim
trim_fits n [] h = ground arith
trim_fits n (e ∷ l) h = ground arith

-- Of entries that were seen, and one that was not, the delta has the latter.
delta_after-last :
    (epoch : ℕ) (l : List BroadcastEntry) (e : BroadcastEntry)
    → All (λ x. x.epoch ≤ epoch) l
    → epoch < e.epoch
    → delta_after epoch (l ++ e ∷ []) ≡ e.datoms
unfolding delta_after
delta_after-last epoch [] e seen h = ground (arith, append-nil e.datoms)
delta_after-last epoch (x ∷ l) e seen h =
    ground (arith, seen.0, delta_after-last epoch l e seen.1 h)

get-map :
    (f : RegisteredObserver → RegisteredObserver) (l : List RegisteredObserver) (i : ℕ)
    (r : RegisteredObserver)
    → get_elem? l i ≡ some r
    → get_elem? (map f l) i ≡ some (f r)
get-map f [] i r h = cc
get-map f (x ∷ l) zero r h = ap (λ y. some (f y)) (cc)
get-map f (x ∷ l) (suc i) r h = get-map f l i r h

module _ (epoch : ℕ) (received : List Delivery) where
  -- An unfiltered observer that has seen the epoch
  abbrev pub behind : RegisteredObserver
  behind = record { received = received; last_seen_epoch = epoch; filter = none }

  -- What it is after a catch-up with these datoms, at the second epoch after
  abbrev pub ahead : List Datom → RegisteredObserver
  ahead datoms = record {
    received = received ++ on_catchup epoch datoms ∷ [];
    last_seen_epoch = epoch + 2;
    filter = none;
  }

  overtaken :
      (first : BroadcastEntry) (older : List BroadcastEntry) (third store : List Datom)
      → first.epoch ≤ epoch
      → All (λ x. x.epoch ≤ epoch) older
      → epoch + 2 ≤ u64_max
      → notify
          (first ∷ older ++ record { epoch = epoch + 2; datoms = third } ∷ [])
          (epoch + 2)
          third
          store
          behind
        ≡ ahead third
  unfolding notify delivery buffered_delta_since
  overtaken first older third store h k small =
      let last : BroadcastEntry = record { epoch = epoch + 2; datoms = third } in
      ground (arith, h, small, delta_after-last epoch (first ∷ older) last (h, k) (omega arith))

  skipped :
      (recent : List BroadcastEntry) (second third later : List Datom)
      → notify recent (epoch + 1) second later (ahead third) ≡ ahead third
  unfolding notify
  skipped recent second third later = ground arith

  module _ (b : ObserverBroadcast) (first : BroadcastEntry) (older : List BroadcastEntry)
      (buffered : b.recent ≡ first ∷ older) (room : length b.recent < b.max_buffer)
      (seen : All (λ x. x.epoch ≤ epoch) b.recent) (small : epoch + 2 ≤ u64_max) where
    -- When an unfiltered observer has seen an epoch, the buffer is not empty, has room for one more
    -- entry, and has none of a later epoch, and of the next two commits the second is published
    -- first, then the observer gets the second by a catch-up from the buffer, and of the first
    -- nothing: the catch-up leaves it out, since it is not in the buffer yet, and its own
    -- publication is skipped. Other observers may be registered.
    pub late_commit_lost :
        (i : ℕ) (second third store later : List Datom)
        → get_elem? b.observers i ≡ some behind
        → get_elem?
            (publish_all
              (commit_of (epoch + 2) third store ∷ commit_of (epoch + 1) second later ∷ [])
              b).observers
            i
          ≡ some (ahead third)
    unfolding publish_all publish
    late_commit_lost i second third store later h =
        let last : BroadcastEntry = record { epoch = epoch + 2; datoms = third } in
        let both = b.recent ++ last ∷ [] in
        let kept : trim b.max_buffer both ≡ first ∷ older ++ last ∷ [] =
          trim_fits b.max_buffer both (omega (arith, room, length-append b.recent (last ∷ [])))
          ∙ ap (λ l. l ++ last ∷ []) buffered in
        let told = rw buffered at seen in
        let after : notify (trim b.max_buffer both) (epoch + 2) third store behind ≡ ahead third =
          ap (λ l. notify l (epoch + 2) third store behind) kept
          ∙ overtaken first older third store told.0 told.1 small in
        let next : ObserverBroadcast = publish (epoch + 2) third store b in
        get-map _ next.observers i (ahead third) (get-map _ b.observers i behind h ∙ ap some after)
        ∙ ap some (skipped _ second third later)
