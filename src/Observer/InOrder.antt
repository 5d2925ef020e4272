-- ===== src/Observer/InOrder.antt =====
-- Publishing in the order of the epochs delivers every batch to every observer (INV-FERR-011).
use ferratomic.Prelude.{
  ℕ, zero, suc, ◌≤◌, ◌<◌, ◌≡◌, refl, sym, ap, ◌∙◌, ◌⊎◌, inl, inr, true, some, List, [], ◌∷◌, ◌++◌,
  map, get_elem?, arith,
}
use ferratomic.Datom.Types.{Datom}
use ferratomic.Store.Latest.{In}
use ferratomic.Observer.{
  BroadcastEntry, RegisteredObserver, ObserverBroadcast, trim, delivery, notify, publish, Commit,
  publish_all,
}
use ferratomic.Observer.Calls.{Got, takes, Got-left, Got-right, trim-last, delivery-In}

notify_new :
    (recent : List BroadcastEntry) (epoch : ℕ) (datoms store : List Datom) (r : RegisteredObserver)
    → r.last_seen_epoch < epoch
    → notify recent epoch datoms store r ≡ record r {
      received = r.received ++ (delivery recent epoch datoms store r ∷ []);
      last_seen_epoch = epoch;
    }
unfolding notify
notify_new recent epoch datoms store r h = ground arith

get_elem-map :
    (f : RegisteredObserver → RegisteredObserver) (l : List RegisteredObserver) (i : ℕ)
    (r : RegisteredObserver)
    → get_elem? l i ≡ some r
    → get_elem? (map f l) i ≡ some (f r)
get_elem-map f [] i r h = cc
get_elem-map f (x ∷ l) zero r h = let same : x ≡ r = cc in ap (λ y. some (f y)) same
get_elem-map f (x ∷ l) (suc i) r h = get_elem-map f l i r h

-- The epochs ascend from `epoch` on, and a commit's datoms are in the store when it is published.
abbrev pub IsAscending : ℕ → List Commit → Type 0
IsAscending epoch [] = Unit
IsAscending epoch (c ∷ commits) =
    (epoch < c.epoch) × ((d : Datom) → In c.datoms d → In c.store d) × IsAscending c.epoch commits

abbrev pub Among : List Commit → Commit → Type 0
Among [] c = ⊥
Among (x ∷ commits) c = (c ≡ x) ⊎ Among commits c

-- What an observer is after commits have been published: its filter is the same, it has got what it
-- had got and all that its filter takes of the commits, and it has seen their epochs.
pub record IsServed (commits : List Commit) (r s : RegisteredObserver) : Type 0 where
  pub filter_eq : s.filter ≡ r.filter
  pub kept : (d : Datom) → Got r.received d → Got s.received d
  pub served :
      (c : Commit) (d : Datom)
      → Among commits c
      → In c.datoms d
      → takes r.filter d ≡ true
      → Got s.received d
  pub later : r.last_seen_epoch ≤ s.last_seen_epoch
  pub seen : (c : Commit) → Among commits c → c.epoch ≤ s.last_seen_epoch

abbrev entry : Commit → BroadcastEntry
entry c = record { epoch = c.epoch; datoms = c.datoms }

notify-IsServed :
    (k : List BroadcastEntry) (c : Commit) (r : RegisteredObserver)
    → r.last_seen_epoch < c.epoch
    → ((d : Datom) → In c.datoms d → In c.store d)
    → IsServed (c ∷ []) r (notify (k ++ (entry c ∷ [])) c.epoch c.datoms c.store r)
notify-IsServed k c r h s =
    rw (notify_new (k ++ (entry c ∷ [])) c.epoch c.datoms c.store r h) record {
      filter_eq = refl;
      kept = λ d g. Got-left r.received _ d g;
      served = λ x d among i t. elim among [
        | inl e ↦
            let inside : In c.datoms d = rw (sym e) i in
            Got-right r.received _ d
              (inl (delivery-In k c.epoch c.datoms c.store r d h inside (s d inside) t))
        | inr n ↦ absurd n
      ];
      later = omega arith;
      seen =
          λ x among. elim among [ inl e ↦ omega (arith, ap (λ y. y.epoch) e) | inr n ↦ absurd n ];
    }

IsServed-cons :
    (c : Commit) (commits : List Commit) (r s t : RegisteredObserver)
    → IsServed (c ∷ []) r s
    → IsServed commits s t
    → IsServed (c ∷ commits) r t
IsServed-cons c commits r s t first rest = record {
  filter_eq = rest.filter_eq ∙ first.filter_eq;
  kept = λ d g. rest.kept d (first.kept d g);
  served = λ x d among i takes. elim among [
    | inl e ↦ rest.kept d (first.served x d (inl e) i takes)
    | inr k ↦ rest.served x d k i (rw (first.filter_eq) takes)
  ];
  later = omega (arith, first.later, rest.later);
  seen = λ x among. elim among [
    | inl e ↦ omega (arith, first.seen x (inl e), rest.later)
    | inr k ↦ rest.seen x k
  ];
}

publish-notify :
    (c : Commit) (b : ObserverBroadcast) (i : ℕ) (r : RegisteredObserver)
    → 1 ≤ b.max_buffer
    → get_elem? b.observers i ≡ some r
    → (k : List BroadcastEntry) × (get_elem? (publish c.epoch c.datoms c.store b).observers i
        ≡ some (notify (k ++ (entry c ∷ [])) c.epoch c.datoms c.store r))
unfolding publish
publish-notify c b i r one h =
    let (k, last) = trim-last b.max_buffer b.recent (entry c) one in
    (
      k,
      get_elem-map
            (notify (trim b.max_buffer (b.recent ++ (entry c ∷ []))) c.epoch c.datoms c.store)
            b.observers i r h
          ∙ ap (λ recent. some (notify recent c.epoch c.datoms c.store r)) last,
    )

max_buffer-publish :
    (c : Commit) (b : ObserverBroadcast)
    → (publish c.epoch c.datoms c.store b).max_buffer ≡ b.max_buffer
unfolding publish
max_buffer-publish c b = refl

-- When commits are published in ascending order of their epochs, after the epoch that an observer
-- has seen, and each commit is in the store by then, then every observer gets every datom of every
-- commit that its filter takes, by one call or another; it keeps what it had got; and the epoch it
-- has seen does not go back and reaches each commit's.
pub publish_all-IsServed :
    (commits : List Commit) (b : ObserverBroadcast) (i : ℕ) (r : RegisteredObserver)
    → 1 ≤ b.max_buffer
    → get_elem? b.observers i ≡ some r
    → IsAscending r.last_seen_epoch commits
    → (s : RegisteredObserver) × (get_elem? (publish_all commits b).observers i ≡ some s)
      × IsServed commits r s
unfolding publish_all
publish_all-IsServed [] b i r one h a = (
  r,
  h,
  record {
    filter_eq = refl;
    kept = λ d g. g;
    served = λ c d n. absurd n;
    later = omega arith;
    seen = λ c n. absurd n;
  },
)
publish_all-IsServed (c ∷ commits) b i r one h a =
    let (k, here) = publish-notify c b i r one h in
    let next = notify (k ++ (entry c ∷ [])) c.epoch c.datoms c.store r in
    let seen_eq : next.last_seen_epoch ≡ c.epoch =
      ap (λ t. t.last_seen_epoch)
        (notify_new (k ++ (entry c ∷ [])) c.epoch c.datoms c.store r a.0) in
    let first = notify-IsServed k c r a.0 a.1 in
    let (s, there, rest) =
      publish_all-IsServed commits (publish c.epoch c.datoms c.store b) i next
        (rw (max_buffer-publish c b) one) here (rw seen_eq a.2) in
    (s, there, IsServed-cons c commits r next s first rest)
