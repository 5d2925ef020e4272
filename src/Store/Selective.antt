-- ===== src/Store/Selective.antt =====
-- A selective merge takes what the filter takes, and its receipt counts it (INV-FERR-039,
-- INV-FERR-062).
use ferratomic.Prelude.{
  ℕ, suc, ◌+◌, ◌≡◌, refl, sym, ap, ◌∙◌, inl, inr, Bool, true, false, Option, none, some, List, [],
  ◌∷◌, length, Bool-cases, Option-cases, arith,
}
use ferratomic.Datom.Types.{Datom}
use ferratomic.Filter.{DatomFilter, everything, matches}
use ferratomic.Filter.Union.{select, kept, select-IsCanonical, member-select, select_yes, select_no}
use ferratomic.Positional.Merge.{merge_sort_dedup}
use ferratomic.Positional.MergeLaws.{member, either, member-merge_sort_dedup}
use ferratomic.Store.Merge.{
  Parts, Store, datoms, Filtered, count_datom, filter_remote, from_merge, selective_merge,
  from_sorted_canonical, sort_unstable, dedup,
}
use ferratomic.Store.Sorting.{
  dedup-sort_unstable, one_if_absent, count_new, length-merge_sort_dedup_new,
}
use ferratomic.Store.Converge.{IsStore, datoms-from_merge}

module _ (p : Parts) where
  abbrev pub receipt_total : Filtered p → ℕ
  receipt_total r = r.transferred + (r.filtered_out + r.already_present)

  accepted-count_datom :
      (b : Bool) (o : Option (Unit {0})) (d : Datom) (r : Filtered p) (l : List Datom)
      → (b ≡ true → l ≡ d ∷ r.accepted)
      → (b ≡ false → l ≡ r.accepted)
      → (count_datom p b o d r).accepted ≡ l
  unfolding count_datom
  accepted-count_datom false o d r l taken left = sym (left refl)
  accepted-count_datom true none d r l taken left = sym (taken refl)
  accepted-count_datom true (some u) d r l taken left = sym (taken refl)

  accepted-filter_remote :
      (local remote : List Datom) (f : DatomFilter)
      → (filter_remote p local remote f).accepted ≡ select (matches f) remote
  unfolding filter_remote select
  accepted-filter_remote local [] f = refl
  accepted-filter_remote local (d ∷ remote) f =
      let rest = accepted-filter_remote local remote f in
      accepted-count_datom (matches f d) _ d _ (select (matches f) (d ∷ remote))
        (λ e. select_yes p.datom_order (matches f) d remote e ∙ ap (λ l. d ∷ l) (sym rest))
        (λ e. select_no p.datom_order (matches f) d remote e ∙ sym rest)

  total-count_datom :
      (b : Bool) (o : Option (Unit {0})) (d : Datom) (r : Filtered p)
      → receipt_total (count_datom p b o d r) ≡ suc (receipt_total r)
  unfolding count_datom
  total-count_datom false o d r = omega arith
  total-count_datom true none d r = omega arith
  total-count_datom true (some u) d r = omega arith

  total-filter_remote :
      (local remote : List Datom) (f : DatomFilter)
      → receipt_total (filter_remote p local remote f) ≡ length remote
  unfolding filter_remote
  total-filter_remote local [] f = refl
  total-filter_remote local (d ∷ remote) f =
      total-count_datom (matches f d) (member p.datom_order d local) d
        (filter_remote p local remote f)
      ∙ ap suc (total-filter_remote local remote f)

  transferred-filter_remote :
      (local remote : List Datom) (f : DatomFilter)
      → (filter_remote p local remote f).transferred
        ≡ count_new p.datom_order local (select (matches f) remote)
  unfolding filter_remote select count_datom
  transferred-filter_remote local [] f = refl
  transferred-filter_remote local (d ∷ remote) f =
      let rest = transferred-filter_remote local remote f in
      elim (Bool-cases (matches f d)) [
        | inl e ↦ elim (Option-cases (member p.datom_order d local)) [
          | inl g ↦ rw (e, g, count_datom, select, one_if_absent) (omega (arith, rest))
          | inr (u, g) ↦ rw (e, g, count_datom, select, one_if_absent) (omega (arith, rest))
        ]
        | inr e ↦ rw (e, count_datom, select) rest
      ]

  select_everything : (l : List Datom) → select (matches everything) l ≡ l
  unfolding select matches
  select_everything [] = refl
  select_everything (d ∷ l) = ap (λ r. d ∷ r) (select_everything l)

  datoms-selective_merge :
      (local remote : Store p) (f : DatomFilter)
      → IsStore p remote
      → datoms p (selective_merge p local remote f).0
        ≡ merge_sort_dedup p.datom_order (datoms p local) (select (matches f) (datoms p remote))
  unfolding selective_merge from_sorted_canonical
  datoms-selective_merge local remote f s =
      let taken = accepted-filter_remote (datoms p local) (datoms p remote) f in
      ap (merge_sort_dedup p.datom_order (datoms p local)) (
        ap (λ l. dedup p.datom_order (sort_unstable p.datom_order l)) taken
        ∙ dedup-sort_unstable p.datom_order (select (matches f) (datoms p remote))
            (select-IsCanonical p.datom_order (matches f) (datoms p remote) s.canonical))

  -- For well-formed stores, the selective merge has the datoms of the local store and those of the
  -- remote store that the filter matches, and no others; its length is that of the local store and
  -- the number of datoms that the receipt counts as transferred; the three counts of the receipt add
  -- up to the length of the remote store; and with the filter that takes everything the datoms are
  -- those of the full merge.
  pub selective_merge_receipt :
      (local remote : Store p) (f : DatomFilter)
      → IsStore p local
      → IsStore p remote
      → ((i : Datom)
          → member p.datom_order i (datoms p (selective_merge p local remote f).0)
            ≡ either
                (member p.datom_order i (datoms p local))
                (kept (matches f i) (member p.datom_order i (datoms p remote))))
        × (length (datoms p (selective_merge p local remote f).0)
            ≡ length (datoms p local) + (selective_merge p local remote f).1.transferred)
        × (receipt_total (selective_merge p local remote f).1 ≡ length (datoms p remote))
        × (datoms p (selective_merge p local remote everything).0
            ≡ datoms p (from_merge p local remote))
  unfolding selective_merge
  selective_merge_receipt local remote f s t =
      let o = p.datom_order in
      let taken = select-IsCanonical o (matches f) (datoms p remote) t.canonical in
      (
        λ i.
            ap (member o i) (datoms-selective_merge local remote f t)
            ∙ member-merge_sort_dedup o i (datoms p local) (select (matches f) (datoms p remote))
            ∙ ap (either (member o i (datoms p local)))
                (member-select o (matches f) i (datoms p remote)),
        ap length (datoms-selective_merge local remote f t)
            ∙ length-merge_sort_dedup_new o (datoms p local) (select (matches f) (datoms p remote))
                s.canonical taken
            ∙ ap (λ n. length (datoms p local) + n)
                (sym (transferred-filter_remote (datoms p local) (datoms p remote) f)),
        total-filter_remote (datoms p local) (datoms p remote) f,
        datoms-selective_merge local remote everything t
            ∙ ap (merge_sort_dedup o (datoms p local)) (select_everything (datoms p remote))
            ∙ sym (datoms-from_merge p local remote),
      )
