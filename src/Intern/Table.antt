-- ===== src/Intern/Table.antt =====
-- Ids and names correspond (ADR-FERR-030).
use ferratomic.Prelude.{
  ℕ, zero, suc, ◌+◌, ◌<◌, ◌≡◌, refl, sym, ◌∙◌, ◌⊎◌, inl, inr, none, some, List, [], ◌∷◌, ◌++◌, ltb,
  length, get_elem?, Option-cases, Bool-cases, Ordering, arith,
}
use ferratomic.Prelude.Results.{ok}
use ferratomic.Prelude.Order.{eq_cases}
use ferratomic.Prelude.TreeMap
use ferratomic.Prelude.TreeMap.{TreeMap}
use ferratomic.Clock.TxId.{node_ord}
use ferratomic.Datom.Types.{Attribute}
use ferratomic.Datom.Inverse.{if-cases}
use ferratomic.Intern.{
  AttributeIntern, push_name, number, from_attributes, id_of, resolve, intern, intern_as, collect,
}

-- Every id that the table gives resolves to its name.
pub record IsIntern (t : AttributeIntern) : Type 0 where
  pub resolves : (a : Attribute) (i : ℕ) → id_of a t ≡ some i → resolve i t ≡ some a

module _ {ℓ} {A : Type ℓ} where
  get_elem?-append :
      (l m : List A) (i : ℕ) (a : A) → get_elem? l i ≡ some a → get_elem? (l ++ m) i ≡ some a
  get_elem?-append [] m i a h = cc
  get_elem?-append (x ∷ l) m zero a h = h
  get_elem?-append (x ∷ l) m (suc i) a h = get_elem?-append l m i a h

  get_elem?_last : (l : List A) (a : A) → get_elem? (l ++ a ∷ []) (length l) ≡ some a
  get_elem?_last [] a = refl
  get_elem?_last (x ∷ l) a = get_elem?_last l a

new_id : (a : Attribute) (t : AttributeIntern) → id_of a (push_name a t) ≡ some (length t.to_name)
unfolding id_of
new_id a t = TreeMap.lookup-insert_self node_ord a (length t.to_name) t.to_id

new_name :
    (a : Attribute) (t : AttributeIntern) → resolve (length t.to_name) (push_name a t) ≡ some a
unfolding resolve
new_name a t = get_elem?_last t.to_name a

old_id :
    (a b : Attribute) (t : AttributeIntern)
    → ¬ (node_ord.cmp b a ≡ Ordering.eq)
    → id_of b (push_name a t) ≡ id_of b t
unfolding id_of
old_id a b t h = TreeMap.lookup-insert_ne node_ord b a (length t.to_name) t.to_id h

old_name :
    (a b : Attribute) (t : AttributeIntern) (i : ℕ)
    → resolve i t ≡ some b
    → resolve i (push_name a t) ≡ some b
unfolding resolve
old_name a b t i h = get_elem?-append t.to_name (a ∷ []) i b h

push_name-IsIntern : (a : Attribute) (t : AttributeIntern) → IsIntern t → IsIntern (push_name a t)
push_name-IsIntern a t h = record {
  resolves = λ b i e. elim (eq_cases node_ord b a) [
    | inl same ↦
        let found : some (length t.to_name) ≡ some i = cc (e, new_id a t, same) in
        let index : length t.to_name ≡ i = cc in rw (sym index, same) (new_name a t)
    | inr other ↦ old_name a b t i (h.resolves b i (sym (old_id a b t other) ∙ e))
  ];
}

kept_id :
    (a b : Attribute) (t : AttributeIntern) (j : ℕ)
    → id_of a t ≡ none
    → id_of b t ≡ some j
    → id_of b (push_name a t) ≡ some j
kept_id a b t j none_yet h = elim (eq_cases node_ord b a) [
  | inl same ↦ cc (same, none_yet, h)
  | inr other ↦ old_id a b t other ∙ h
]

number-IsIntern :
    (sorted : TreeMap Attribute (Unit {0})) (t : AttributeIntern)
    → IsIntern t
    → IsIntern (number sorted t)
unfolding number
number-IsIntern [] t h = h
number-IsIntern ((a, u) ∷ sorted) t h =
    number-IsIntern sorted (push_name a t) (push_name-IsIntern a t h)

empty-IsIntern : IsIntern (record { to_id = []; to_name = [] })
unfolding id_of
empty-IsIntern = record {
  resolves = λ a i e. let gone = TreeMap.lookup-Above {V = ℕ} node_ord a [] tt in cc;
}

-- In the table that `from_attributes` builds every id resolves to its name.
pub from_attributes-IsIntern :
    (attrs : List Attribute) (t : AttributeIntern) → from_attributes attrs ≡ ok t → IsIntern t
unfolding from_attributes
from_attributes-IsIntern attrs t h =
    elim (if-cases (ltb (0xFFFF + 1) (length (collect attrs []))) h) [
      | inl (_, bad) ↦ cc
      | inr (_, r) ↦
          let built : t ≡ number (collect attrs []) (record { to_id = []; to_name = [] }) = cc in
          rw built (number-IsIntern (collect attrs []) _ empty-IsIntern)
    ]

-- What `intern` gives: an id that stands for the name, which keeps the ids that were given before.
pub record Interned (a : Attribute) (t t' : AttributeIntern) (id : ℕ) : Type 0 where
  pub table : IsIntern t'
  pub found : id_of a t' ≡ some id
  pub name : resolve id t' ≡ some a
  pub kept : (b : Attribute) (j : ℕ) → id_of b t ≡ some j → id_of b t' ≡ some j

-- Interning a name in a table whose ids resolve either gives an id that stands for it, keeps all ids
-- given before and keeps the table so; or the name is not in the table, which holds more than 65535
-- names and stays as it is.
pub intern_verdict :
    (a : Attribute) (t : AttributeIntern)
    → IsIntern t
    → ((id : ℕ) × ((intern a t).1 ≡ ok id) × Interned a t (intern a t).0 id)
      ⊎ (((intern a t).0 ≡ t) × (id_of a t ≡ none) × (0xFFFF < length t.to_name))
unfolding intern
intern_verdict a t h = elim (Option-cases (id_of a t)) [
  | inr (id, e) ↦
      rw (e, intern_as)
        (inl
          (id, refl, record { table = h; found = e; name = h.resolves a id e; kept = λ b j k. k }))
  | inl e ↦ elim (Bool-cases (ltb 0xFFFF (length t.to_name))) [
    | inl full ↦ rw (e, intern_as, full) (inr (refl, refl, ground arith))
    | inr room ↦
        rw (e, intern_as, room)
          (inl (
            length t.to_name,
            refl,
            record {
              table = push_name-IsIntern a t h;
              found = new_id a t;
              name = new_name a t;
              kept = λ b j k. kept_id a b t j e k;
            },
          ))
  ]
]
