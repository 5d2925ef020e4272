-- ===== src/Store/AnyOrder.antt =====
-- When the order in which a `HashMap` yields the groups matters to schema evolution
-- (schema_evolution.rs, INV-FERR-009).
use ferratomic.Prelude.{
  ◌≡◌, refl, sym, ap, ◌∙◌, ◌⊎◌, inl, inr, ◌↔◌, Option, none, some, List, [], ◌∷◌,
}
use ferratomic.Prelude.Order.{eq_cases}
use ferratomic.Prelude.Results.{Result, ok, err}
use ferratomic.Prelude.TreeMap
use ferratomic.Prelude.TreeMap.{lookup}
use ferratomic.Clock.TxId.{node_ord}
use ferratomic.Datom.Types.{Attribute, Datom}
use ferratomic.Tx.Schema.{AttributeDef, Schema, define}
use ferratomic.Store.SchemaLaws.{IsSchema}
use ferratomic.Store.Evolution.{
  ApplyError, extract_attribute_def, by_entity, evolve_groups, Visit, evolve_schema,
}

abbrev pub IsIn : {A : Type 0} → A → List A → Type 0
IsIn a [] = ⊥
IsIn a (b ∷ l) = (a ≡ b) ⊎ IsIn a l

-- A `HashMap` yields each of its values, in any order.
abbrev pub IsVisit : Visit → Type 0
IsVisit visit =
    (groups : List (List Datom)) (g : List Datom) → IsIn g (visit groups) ↔ IsIn g groups

-- The datoms of one entity define the attribute.
abbrev pub Defines : List Datom → Attribute → AttributeDef → Type 0
Defines g attr def = extract_attribute_def g ≡ ok (some (attr, def))

-- No two entities define one attribute differently.
abbrev pub IsUnambiguous : List (List Datom) → Type 0
IsUnambiguous groups =
    (g h : List Datom) (attr : Attribute) (d e : AttributeDef)
    → IsIn g groups
    → IsIn h groups
    → Defines g attr d
    → Defines h attr e
    → d ≡ e

pub extract_cases :
    (r : Result ApplyError (Option (Attribute × AttributeDef)))
    → ((e : ApplyError) × (r ≡ err e))
      ⊎ (r ≡ ok none)
      ⊎ ((attr : Attribute) × (def : AttributeDef) × (r ≡ ok (some (attr, def))))
extract_cases (err e) = inl (e, refl)
extract_cases (ok none) = inr (inl refl)
extract_cases (ok (some (attr, def))) = inr (inr (attr, def, refl))

abbrev pub IsSound : List (List Datom) → Type 0
IsSound groups =
    (g : List Datom)
    → IsIn g groups
    → (o : Option (Attribute × AttributeDef)) × (extract_attribute_def g ≡ ok o)

err_ne_ok :
    {e : ApplyError} {u : Unit {0}} → ◌≡◌ {A = Result ApplyError (Unit {0})} (err e) (ok u) → ⊥
err_ne_ok h = cc

pub IsSound-of_ok :
    (groups : List (List Datom)) (s : Schema) → (evolve_groups groups s).1 ≡ ok tt → IsSound groups
unfolding evolve_groups
IsSound-of_ok [] s h g m = absurd m
IsSound-of_ok (f ∷ groups) s h g m = elim (extract_cases (extract_attribute_def f)) [
  | inl (e, x) ↦ absurd (err_ne_ok (rw x at h))
  | inr (inl x) ↦ elim m [
    | inl same ↦ (none, rw same x)
    | inr later ↦ IsSound-of_ok groups s (rw x at h) g later
  ]
  | inr (inr (attr, def, x)) ↦ elim m [
    | inl same ↦ (some (attr, def), rw same x)
    | inr later ↦ IsSound-of_ok groups (define attr def s) (rw x at h) g later
  ]
]

pub ok_of_IsSound :
    (groups : List (List Datom)) (s : Schema) → IsSound groups → (evolve_groups groups s).1 ≡ ok tt
unfolding evolve_groups
ok_of_IsSound [] s sound = refl
ok_of_IsSound (f ∷ groups) s sound = elim (extract_cases (extract_attribute_def f)) [
  | inl (e, x) ↦ let (o, y) = sound f (inl refl) in cc
  | inr (inl x) ↦ rw x (ok_of_IsSound groups s (λ g m. sound g (inr m)))
  | inr (inr (attr, def, x)) ↦
      rw x (ok_of_IsSound groups (define attr def s) (λ g m. sound g (inr m)))
]

evolve_groups-IsSchema :
    (groups : List (List Datom)) (s : Schema) → IsSchema s → IsSchema (evolve_groups groups s).0
unfolding evolve_groups define
evolve_groups-IsSchema [] s h = h
evolve_groups-IsSchema (f ∷ groups) s h = elim (extract_cases (extract_attribute_def f)) [
  | inl (e, x) ↦ rw x h
  | inr (inl x) ↦ rw x (evolve_groups-IsSchema groups s h)
  | inr (inr (attr, def, x)) ↦ rw x (
      evolve_groups-IsSchema groups (define attr def s)
        (TreeMap.insert-IsSorted node_ord attr def s h))
]

-- What the schema has for an attribute afterwards: the definition of a group, or what it had.
abbrev Outcome : List (List Datom) → Schema → Attribute → Option AttributeDef → Type 0
Outcome groups s attr r =
    ((g : List Datom) × (d : AttributeDef) × IsIn g groups × Defines g attr d × (r ≡ some d))
    ⊎ (((g : List Datom) (d : AttributeDef) → IsIn g groups → ¬ Defines g attr d)
        × (r ≡ lookup node_ord attr s))

-- A group before the others that does not define the attribute
silent_group :
    (f : List Datom) (groups : List (List Datom)) (s : Schema) (attr : Attribute)
    (r : Option AttributeDef)
    → ((d : AttributeDef) → ¬ Defines f attr d)
    → Outcome groups s attr r
    → Outcome (f ∷ groups) s attr r
silent_group f groups s attr r not h = elim h [
  | inl (g, d, m, def, e) ↦ inl (g, d, inr m, def, e)
  | inr (nobody, e) ↦
      inr ((λ g d m. elim m [ inl same ↦ rw same (not d) | inr later ↦ nobody g d later ]), e)
]

-- One that defines it, or another attribute
speaking_group :
    (f : List Datom) (groups : List (List Datom)) (s : Schema) (attr b : Attribute)
    (def : AttributeDef) (r : Option AttributeDef)
    → Defines f b def
    → Outcome groups (define b def s) attr r
    → Outcome (f ∷ groups) s attr r
unfolding define
speaking_group f groups s attr b def r x h = elim h [
  | inl (g, d, m, h', e) ↦ inl (g, d, inr m, h', e)
  | inr (nobody, e) ↦ elim (eq_cases node_ord attr b) [
    | inl same ↦
        inl (f, def, inl refl, rw same x, e ∙ rw same (TreeMap.lookup-insert_self node_ord b def s))
    | inr ne ↦
        silent_group f groups s attr r
          (λ d y. let same : attr ≡ b = cc in ne (rw same (node_ord.cmp_refl b)))
          (inr (nobody, e ∙ TreeMap.lookup-insert_ne node_ord attr b def s ne))
  ]
]

outcome :
    (groups : List (List Datom)) (s : Schema) (attr : Attribute)
    → IsSound groups
    → Outcome groups s attr (lookup node_ord attr (evolve_groups groups s).0)
unfolding evolve_groups
outcome [] s attr sound = inr ((λ g d m x. m), refl)
outcome (f ∷ groups) s attr sound = elim (extract_cases (extract_attribute_def f)) [
  | inl (e, x) ↦ let (o, y) = sound f (inl refl) in cc
  | inr (inl x) ↦ rw x (
      silent_group f groups s attr (lookup node_ord attr (evolve_groups groups s).0) (λ d y. cc)
        (outcome groups s attr (λ g m. sound g (inr m))))
  | inr (inr (b, def, x)) ↦ rw x (
      speaking_group f groups s attr b def
        (lookup node_ord attr (evolve_groups groups (define b def s)).0) x
        (outcome groups (define b def s) attr (λ g m. sound g (inr m))))
]

same_lookup :
    (gs hs : List (List Datom)) (s : Schema) (attr : Attribute) (r t : Option AttributeDef)
    → ((g : List Datom) → IsIn g gs ↔ IsIn g hs)
    → IsUnambiguous gs
    → Outcome gs s attr r
    → Outcome hs s attr t
    → r ≡ t
same_lookup gs hs s attr r t same one a b = elim a [
  | inl (g, d, m, x, e) ↦ elim b [
    | inl (h, d', m', y, e') ↦ e ∙ ap some (one g h attr d d' m ((same h).1 m') x y) ∙ sym e'
    | inr (nobody, e') ↦ absurd (nobody g d ((same g).0 m) x)
  ]
  | inr (nobody, e) ↦ elim b [
    | inl (h, d', m', y, e') ↦ absurd (nobody h d' ((same h).1 m') y)
    | inr (nobody', e') ↦ e ∙ sym e'
  ]
]

module _ (v w : Visit) (datoms : List Datom) (schema : Schema) where
  -- When no two entities define one attribute differently, and in some order of the groups the
  -- evolution succeeds, it succeeds in every order, with the same schema.
  pub evolve_schema_any_order :
      IsVisit v
      → IsVisit w
      → IsSchema schema
      → IsUnambiguous (by_entity datoms)
      → (evolve_schema v schema datoms).1 ≡ ok tt
      → evolve_schema w schema datoms ≡ evolve_schema v schema datoms
  unfolding evolve_schema
  evolve_schema_any_order iv iw sorted one h =
      let gs : List (List Datom) = v (by_entity datoms) in
      let hs : List (List Datom) = w (by_entity datoms) in
      let sound : IsSound gs = IsSound-of_ok gs schema h in
      let sound' : IsSound hs =
        λ g m. sound g ((iv (by_entity datoms) g).1 ((iw (by_entity datoms) g).0 m)) in
      let ext : (evolve_groups hs schema).0 ≡ (evolve_groups gs schema).0 =
        TreeMap.ext node_ord (evolve_groups hs schema).0 (evolve_groups gs schema).0
          (evolve_groups-IsSchema hs schema sorted) (evolve_groups-IsSchema gs schema sorted)
          (λ attr.
            same_lookup hs gs schema attr _ _
              (λ g. (
                (λ m. (iv (by_entity datoms) g).1 ((iw (by_entity datoms) g).0 m)),
                (λ m. (iw (by_entity datoms) g).1 ((iv (by_entity datoms) g).0 m)),
              ))
              (λ g g' a d e m m'.
                one g g' a d e ((iw (by_entity datoms) g).0 m) ((iw (by_entity datoms) g').0 m'))
              (outcome hs schema attr sound') (outcome gs schema attr sound)) in
      let done : (evolve_groups hs schema).1 ≡ (evolve_groups gs schema).1 =
        ok_of_IsSound hs schema sound' ∙ sym h in
      λ i. (ext i, done i)
