-- ===== src/Observer/Calls.antt =====
-- The call that an observer gets has the batch that is published (observer.rs).
use ferratomic.Prelude.{
  ℕ, suc, ◌+◌, ◌≤◌, ◌<◌, min, ◌≡◌, refl, sym, ap, ◌∙◌, ◌⊎◌, inl, inr, Bool, true, Option, none,
  some, List, [], ◌∷◌, ◌++◌, length, ltb, Bool-cases, lt→ltb, arith,
}
use ferratomic.Datom.Types.{Datom}
use ferratomic.Filter.{DatomFilter, matches}
use ferratomic.Filter.Union.{select}
use ferratomic.Store.Latest.{In}
use ferratomic.Observer.{
  Delivery, on_commit, on_catchup, BroadcastEntry, RegisteredObserver, filtered, trim, delta_after,
  buffered_delta_since, or_full_store, u64_max, delivery,
}

abbrev pub batch : Delivery → List Datom
batch (on_commit epoch datoms) = datoms
batch (on_catchup epoch datoms) = datoms

-- A call with the datom has been received.
abbrev pub Got : List Delivery → Datom → Type 0
Got [] d = ⊥
Got (x ∷ received) d = In (batch x) d ⊎ Got received d

-- Whether an observer's filter takes a datom.
abbrev pub takes : Option DatomFilter → Datom → Bool
takes none d = true
takes (some f) d = matches f d

In-left : (l r : List Datom) (d : Datom) → In l d → In (l ++ r) d
In-left [] r d h = absurd h
In-left (x ∷ l) r d (inl e) = inl e
In-left (x ∷ l) r d (inr h) = inr (In-left l r d h)

In-right : (l r : List Datom) (d : Datom) → In r d → In (l ++ r) d
In-right [] r d h = h
In-right (x ∷ l) r d h = inr (In-right l r d h)

In-select :
    (p : Datom → Bool) (l : List Datom) (d : Datom) → p d ≡ true → In l d → In (select p l) d
unfolding select
In-select p [] d t h = absurd h
In-select p (x ∷ l) d t (inl e) = let px : p x ≡ true = ap p (sym e) ∙ t in rw (px, select) (inl e)
In-select p (x ∷ l) d t (inr h) = elim (Bool-cases (p x)) [
  | inl b ↦ rw (b, select) (inr (In-select p l d t h))
  | inr b ↦ rw (b, select) (In-select p l d t h)
]

In-filtered :
    (f : Option DatomFilter) (l : List Datom) (d : Datom)
    → takes f d ≡ true
    → In l d
    → In (filtered f l) d
In-filtered none l d t h = h
In-filtered (some f) l d t h = In-select (matches f) l d t h

pub Got-left : (l r : List Delivery) (d : Datom) → Got l d → Got (l ++ r) d
Got-left [] r d h = absurd h
Got-left (x ∷ l) r d (inl e) = inl e
Got-left (x ∷ l) r d (inr h) = inr (Got-left l r d h)

pub Got-right : (l r : List Delivery) (d : Datom) → Got r d → Got (l ++ r) d
Got-right [] r d h = h
Got-right (x ∷ l) r d h = inr (Got-right l r d h)

-- The entry that was pushed last stays in the buffer.
pub trim-last :
    (n : ℕ) (l : List BroadcastEntry) (e : BroadcastEntry)
    → 1 ≤ n
    → (k : List BroadcastEntry) × (trim n (l ++ (e ∷ [])) ≡ k ++ (e ∷ []))
unfolding trim
trim-last n [] e one = ([], ground (arith, one))
trim-last n (x ∷ l) e one = elim (Bool-cases (ltb n (suc (length (l ++ (e ∷ [])))))) [
  | inl b ↦ let (k, h) = trim-last n l e one in (k, rw (b, trim) h)
  | inr b ↦ (x ∷ l, rw (b, trim) refl)
]

In-delta_after :
    (from_epoch : ℕ) (k : List BroadcastEntry) (e : BroadcastEntry) (d : Datom)
    → from_epoch < e.epoch
    → In e.datoms d
    → In (delta_after from_epoch (k ++ (e ∷ []))) d
unfolding delta_after
In-delta_after from_epoch [] e d h i =
    rw (lt→ltb from_epoch e.epoch h, delta_after) (In-left e.datoms [] d i)
In-delta_after from_epoch (x ∷ k) e d h i = elim (Bool-cases (ltb from_epoch x.epoch)) [
  | inl b ↦ rw (b, delta_after) (In-right x.datoms _ d (In-delta_after from_epoch k e d h i))
  | inr b ↦ rw (b, delta_after) (In-delta_after from_epoch k e d h i)
]

-- The buffered delta, or the whole store, has the batch that was pushed last.
catchup-In :
    (o : Option (List Datom)) (store : List Datom) (d : Datom)
    → ((delta : List Datom) → o ≡ some delta → In delta d)
    → In store d
    → In (or_full_store o store) d
catchup-In none store d f s = s
catchup-In (some delta) store d f s = f delta refl

delta-In :
    (k : List BroadcastEntry) (e : BroadcastEntry) (from_epoch : ℕ) (d : Datom) (delta : List Datom)
    → from_epoch < e.epoch
    → In e.datoms d
    → buffered_delta_since (k ++ (e ∷ [])) from_epoch ≡ some delta
    → In delta d
unfolding buffered_delta_since
delta-In [] e from_epoch d delta h i b =
    elim (Bool-cases (ltb (min (from_epoch + 1) u64_max) e.epoch)) [
      | inl t ↦ absurd (cc (t, b))
      | inr t ↦
          let same : some (delta_after from_epoch (e ∷ [])) ≡ some delta =
            rw (t, buffered_delta_since) at b in
          let eq : delta_after from_epoch (e ∷ []) ≡ delta = cc in
          rw (sym eq) (In-delta_after from_epoch [] e d h i)
    ]
delta-In (x ∷ k) e from_epoch d delta h i b =
    elim (Bool-cases (ltb (min (from_epoch + 1) u64_max) x.epoch)) [
      | inl t ↦ absurd (cc (t, b))
      | inr t ↦
          let same : some (delta_after from_epoch (x ∷ k ++ (e ∷ []))) ≡ some delta =
            rw (t, buffered_delta_since) at b in
          let eq : delta_after from_epoch (x ∷ k ++ (e ∷ [])) ≡ delta = cc in
          rw (sym eq) (In-delta_after from_epoch (x ∷ k) e d h i)
    ]

-- The call has every datom of the batch that the filter takes.
pub delivery-In :
    (k : List BroadcastEntry) (epoch : ℕ) (datoms store : List Datom) (r : RegisteredObserver)
    (d : Datom)
    → r.last_seen_epoch < epoch
    → In datoms d
    → In store d
    → takes r.filter d ≡ true
    → In
        (batch
          (delivery (k ++ (record { epoch = epoch; datoms = datoms } ∷ [])) epoch datoms store r))
        d
unfolding delivery
delivery-In k epoch datoms store r d h i s t =
    let e : BroadcastEntry = record { epoch = epoch; datoms = datoms } in
    let o = buffered_delta_since (k ++ (e ∷ [])) r.last_seen_epoch in
    elim (Bool-cases (ltb (r.last_seen_epoch + 1) epoch)) [
      | inl b ↦
          rw (b, delivery)
            (In-filtered r.filter (or_full_store o store) d t
              (catchup-In o store d (λ delta q. delta-In k e r.last_seen_epoch d delta h i q) s))
      | inr b ↦ rw (b, delivery) (In-filtered r.filter datoms d t i)
    ]
