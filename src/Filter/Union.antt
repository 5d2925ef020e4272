-- ===== src/Filter/Union.antt =====
-- Filtering distributes over the merge (INV-FERR-039).
use ferratomic.Prelude.{
  ◌≡◌, refl, sym, ap, ◌∙◌, inl, inr, Bool, true, false, Option, none, List, [], ◌∷◌, Bool-cases,
}
use ferratomic.Prelude.Order.{Ord, eq_cases}
use ferratomic.Prelude.TreeMap
use ferratomic.Datom.Types.{Datom}
use ferratomic.Filter.{DatomFilter, matches}
use ferratomic.Positional.Merge.{merge_sort_dedup}
use ferratomic.Positional.MergeLaws.{
  member, IsCanonical, Above, either, canonical_ext, member_head, member_ne,
  member-merge_sort_dedup, merge_sort_dedup-IsCanonical,
}

-- The elements that pass a test, as `iter().filter(..)` yields them.
unfoldable pub select {ℓ} : {A : Type ℓ} → (A → Bool) → List A → List A
select p [] = []
select p (x ∷ l) = elim (p x) [ true ↦ x ∷ select p l | false ↦ select p l ]

abbrev pub kept : Bool → Option (Unit {0}) → Option (Unit {0})
kept true m = m
kept false m = none

either_kept :
    (b : Bool) (m n : Option (Unit {0})) → kept b (either m n) ≡ either (kept b m) (kept b n)
either_kept true m n = refl
either_kept false m n = refl

module _ {ℓ} {A : Type ℓ} (o : Ord A) (p : A → Bool) where
  Above-select : (i : A) (l : List A) → Above o i l → Above o i (select p l)
  unfolding select
  Above-select i [] h = tt
  Above-select i (x ∷ l) h = elim (Bool-cases (p x)) [
    | inl e ↦ rw (e, select) (h.0, Above-select i l h.1)
    | inr e ↦ rw (e, select) (Above-select i l h.1)
  ]

  pub select-IsCanonical : (l : List A) → IsCanonical o l → IsCanonical o (select p l)
  unfolding select
  select-IsCanonical [] s = tt
  select-IsCanonical (x ∷ l) s = elim (Bool-cases (p x)) [
    | inl e ↦ rw (e, select) (Above-select x l s.0, select-IsCanonical l s.1)
    | inr e ↦ rw (e, select) (select-IsCanonical l s.1)
  ]

  kept_none : (b : Bool) → kept b none ≡ none
  kept_none true = refl
  kept_none false = refl

  pub select_yes : (x : A) (l : List A) → p x ≡ true → select p (x ∷ l) ≡ x ∷ select p l
  unfolding select
  select_yes x l b = rw (b, select) refl

  pub select_no : (x : A) (l : List A) → p x ≡ false → select p (x ∷ l) ≡ select p l
  unfolding select
  select_no x l b = rw (b, select) refl

  pub member-select : (i : A) (l : List A) → member o i (select p l) ≡ kept (p i) (member o i l)
  unfolding select
  member-select i [] =
      TreeMap.lookup-Above o i [] tt
      ∙ sym (kept_none (p i))
      ∙ ap (kept (p i)) (sym (TreeMap.lookup-Above o i [] tt))
  member-select i (x ∷ l) = elim (eq_cases o i x) [
    | inl e ↦ elim (Bool-cases (p x)) [
      | inl b ↦ rw (e, select_yes x l b, b, member_head o x (select p l), member_head o x l) refl
      | inr b ↦ rw (e, select_no x l b, member-select x l, b) refl
    ]
    | inr k ↦ elim (Bool-cases (p x)) [
      | inl b ↦
          rw (select_yes x l b, member_ne o i x (select p l) k, member_ne o i x l k)
            (member-select i l)
      | inr b ↦ rw (select_no x l b, member_ne o i x l k) (member-select i l)
    ]
  ]

  select-merge_sort_dedup :
      (a b : List A)
      → IsCanonical o a
      → IsCanonical o b
      → select p (merge_sort_dedup o a b) ≡ merge_sort_dedup o (select p a) (select p b)
  select-merge_sort_dedup a b s t =
      canonical_ext o _ _
        (select-IsCanonical (merge_sort_dedup o a b) (merge_sort_dedup-IsCanonical o a b s t))
        (merge_sort_dedup-IsCanonical o (select p a) (select p b) (select-IsCanonical a s)
          (select-IsCanonical b t))
        λ i.
          member-select i (merge_sort_dedup o a b)
          ∙ ap (kept (p i)) (member-merge_sort_dedup o i a b)
          ∙ either_kept (p i) (member o i a) (member o i b)
          ∙ sym (ap (λ m. either m (kept (p i) (member o i b))) (member-select i a))
          ∙ sym (ap (either (member o i (select p a))) (member-select i b))
          ∙ sym (member-merge_sort_dedup o i (select p a) (select p b))

-- For any order of datoms, filtering the merge of two canonical arrays gives the merge of what the
-- filter takes from each: more datoms can only add matches.
pub filter_distributes :
    (o : Ord Datom) (f : DatomFilter) (a b : List Datom)
    → IsCanonical o a
    → IsCanonical o b
    → select (matches f) (merge_sort_dedup o a b)
      ≡ merge_sort_dedup o (select (matches f) a) (select (matches f) b)
filter_distributes o f a b s t = select-merge_sort_dedup o (matches f) a b s t
