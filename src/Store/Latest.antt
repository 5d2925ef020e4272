-- ===== src/Store/Latest.antt =====
-- What the LIVE lattice of a set of datoms holds for a triple (INV-FERR-029).
use ferratomic.Prelude.{
  ◌≡◌, refl, sym, ap, ◌∙◌, ◌⊎◌, inl, inr, Option, none, some, List, [], ◌∷◌, Ordering, arith,
}
use ferratomic.Clock.TxId.{tx_cmp, tx_refl, tx_trans}
use ferratomic.Datom.Types.{Value, Datom}
use ferratomic.Store.Causal.{Key, Event, key, event_of}
use ferratomic.Store.Events.{later}

-- A set of datoms, as a predicate.
abbrev pub Datoms : Type 1
Datoms = Datom → Type 0

abbrev pub In : List Datom → Datoms
In [] x = ⊥
In (d ∷ datoms) x = (x ≡ d) ⊎ In datoms x

abbrev pub Either : Datoms → Datoms → Datoms
Either A B x = A x ⊎ B x

-- A datom of the set about the triple.
pub record IsAbout (A : Datoms) (k : Key) (v : Value) (d : Datom) : Type 0 where
  pub included : A d
  pub key_eq : key d ≡ k
  pub value_eq : d.value ≡ v

-- The event is of a datom of the set about the triple, and no such datom is later; or there is
-- neither.
abbrev pub IsLatest : Datoms → Key → Value → Option Event → Type 0
IsLatest A k v none = (d : Datom) → ¬ IsAbout A k v d
IsLatest A k v (some e) =
    ((d : Datom) × IsAbout A k v d × (event_of d ≡ e))
    × ((d : Datom) → IsAbout A k v d → ¬ (tx_cmp e.0 d.tx ≡ Ordering.lt))

pub IsAbout-left :
    (A B : Datoms) (k : Key) (v : Value) (d : Datom) → IsAbout A k v d → IsAbout (Either A B) k v d
IsAbout-left A B k v d a = record {
  included = inl a.included;
  key_eq = a.key_eq;
  value_eq = a.value_eq;
}

pub IsAbout-right :
    (A B : Datoms) (k : Key) (v : Value) (d : Datom) → IsAbout B k v d → IsAbout (Either A B) k v d
IsAbout-right A B k v d b = record {
  included = inr b.included;
  key_eq = b.key_eq;
  value_eq = b.value_eq;
}

pub IsAbout-split :
    (A B : Datoms) (k : Key) (v : Value) (d : Datom)
    → IsAbout (Either A B) k v d
    → IsAbout A k v d ⊎ IsAbout B k v d
IsAbout-split A B k v d x = elim x.included [
  | inl a ↦ inl (record { included = a; key_eq = x.key_eq; value_eq = x.value_eq })
  | inr b ↦ inr (record { included = b; key_eq = x.key_eq; value_eq = x.value_eq })
]

IsAbout-map :
    (A B : Datoms) (k : Key) (v : Value) (d : Datom)
    → (A d → B d)
    → IsAbout A k v d
    → IsAbout B k v d
IsAbout-map A B k v d f a = record {
  included = f a.included;
  key_eq = a.key_eq;
  value_eq = a.value_eq;
}

-- Sets with the same datoms have the same latest events.
pub IsLatest-same :
    (A B : Datoms) (k : Key) (v : Value) (e : Option Event)
    → ((d : Datom) → A d → B d)
    → ((d : Datom) → B d → A d)
    → IsLatest A k v e
    → IsLatest B k v e
IsLatest-same A B k v none f g h = λ d b. h d (IsAbout-map B A k v d (g d) b)
IsLatest-same A B k v (some e) f g ((d, a, same), h) =
    ((d, IsAbout-map A B k v d (f d) a, same), λ x b. h x (IsAbout-map B A k v x (g x) b))

abbrev pub Only : Datom → Datoms
Only d x = x ≡ d

not_before_itself : (d x : Datom) → x ≡ d → ¬ (tx_cmp d.tx x.tx ≡ Ordering.lt)
not_before_itself d x h k =
    let same : tx_cmp d.tx d.tx ≡ Ordering.lt = rw h at k in let itself = tx_refl d.tx in cc

pub later_lt :
    (d : Datom) (e : Event) → tx_cmp e.0 d.tx ≡ Ordering.lt → later d (some e) ≡ some (event_of d)
later_lt d (t, op) h = rw (h, later) refl

pub later_ge :
    (d : Datom) (e : Event) → ¬ (tx_cmp e.0 d.tx ≡ Ordering.lt) → later d (some e) ≡ some e
later_ge d (t, op) h = ground (arith, h)

pub lt_cases : (o : Ordering) → (o ≡ Ordering.lt) ⊎ (¬ (o ≡ Ordering.lt))
lt_cases Ordering.lt = inl refl
lt_cases Ordering.eq = inr (λ h. cc)
lt_cases Ordering.gt = inr (λ h. cc)

not-IsAbout :
    (A : Datoms) (d : Datom) (k : Key) (v : Value) (x : Datom)
    → ¬ ((key d ≡ k) × (d.value ≡ v))
    → ¬ IsAbout (Only d) k v x
not-IsAbout A d k v x n b =
    let same : x ≡ d = b.included in
    n (ap key (sym same) ∙ b.key_eq, ap (λ y. y.value) (sym same) ∙ b.value_eq)

pub later-IsLatest :
    (A : Datoms) (d : Datom) (e : Option Event)
    → IsLatest A (key d) d.value e
    → IsLatest (Either A (Only d)) (key d) d.value (later d e)
later-IsLatest A d none h = (
  (d, record { included = inr refl; key_eq = refl; value_eq = refl }, refl),
  λ x a. elim (IsAbout-split A (Only d) (key d) d.value x a) [
    | inl b ↦ absurd (h x b)
    | inr b ↦ not_before_itself d x b.included
  ],
)
later-IsLatest A d (some e) ((w, a, same), h) = elim (lt_cases (tx_cmp e.0 d.tx)) [
  | inl lt ↦ rw (later_lt d e lt) (
    (d, record { included = inr refl; key_eq = refl; value_eq = refl }, refl),
    λ x b. elim (IsAbout-split A (Only d) (key d) d.value x b) [
      | inl c ↦ λ k. h x c (tx_trans e.0 d.tx x.tx lt k)
      | inr c ↦ not_before_itself d x c.included
    ],
  )
  | inr ge ↦ rw (later_ge d e ge) (
    (w, IsAbout-left A (Only d) (key d) d.value w a, same),
    λ x b. elim (IsAbout-split A (Only d) (key d) d.value x b) [
      | inl c ↦ h x c
      | inr c ↦ let last : x ≡ d = c.included in λ k. ge (rw (sym last) k)
    ],
  )
]

-- A datom of another triple changes nothing.
pub other-IsLatest :
    (A : Datoms) (d : Datom) (k : Key) (v : Value) (e : Option Event)
    → ¬ ((key d ≡ k) × (d.value ≡ v))
    → IsLatest A k v e
    → IsLatest (Either A (Only d)) k v e
other-IsLatest A d k v none n h = λ x a. elim (IsAbout-split A (Only d) k v x a) [
  | inl b ↦ h x b
  | inr b ↦ not-IsAbout A d k v x n b
]
other-IsLatest A d k v (some e) n ((w, a, same), h) = (
  (w, IsAbout-left A (Only d) k v w a, same),
  λ x b. elim (IsAbout-split A (Only d) k v x b) [
    | inl c ↦ h x c
    | inr c ↦ absurd (not-IsAbout A d k v x n c)
  ],
)
