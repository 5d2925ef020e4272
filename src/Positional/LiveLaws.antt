-- ===== src/Positional/LiveLaws.antt =====
-- What the kernel returns on a sorted array (INV-FERR-029).
use ferratomic.Prelude.{
  ℕ, ◌+◌, ◌^◌, ◌<◌, ◌≡◌, refl, sym, ap, ◌∙◌, ◌⊎◌, ◌↔◌, inl, inr, Bool, true, false, ◌||◌, List, [],
  ◌∷◌, length, Ordering, arith, Bool-cases,
}
use ferratomic.Prelude.Order.{Ord}
use ferratomic.Datom.Types.{Op, assert, retract}
use ferratomic.Positional.Live.{push_live, live_run, live_positions_from_sorted_runs}

module _ {ℓ} {K : Type ℓ} (o : Ord K) (same : K → K → Bool)
    (agrees : (a b : K) → (same a b ≡ true) ↔ (a ≡ b)) where
  abbrev occurs : K → List (K × Op) → Bool
  occurs key [] = false
  occurs key ((k, op) ∷ entries) = same k key || occurs key entries

  -- The position, if it stands for an assertion whose key does not come again.
  abbrev push_latest : Bool → Op → ℕ → List ℕ → List ℕ
  push_latest again retract pos later = later
  push_latest true assert pos later = later
  push_latest false assert pos later = pos ∷ later

  -- The positions, counted from `pos`, of the assertions that no later entry of their key follows.
  unfoldable pub latest_asserts : ℕ → List (K × Op) → List ℕ
  latest_asserts pos [] = []
  latest_asserts pos ((k, op) ∷ entries) =
      push_latest (occurs k entries) op pos (latest_asserts (pos + 1) entries)

  -- No key of the entries lies below `key`, or all lie above it.
  abbrev AtLeast : K → List (K × Op) → Type ℓ
  AtLeast key [] = Unit
  AtLeast key ((k, op) ∷ entries) = ((o.cmp key k ≡ Ordering.lt) ⊎ (key ≡ k)) × AtLeast key entries

  abbrev Above : K → List (K × Op) → Type ℓ
  Above key [] = Unit
  Above key ((k, op) ∷ entries) = (o.cmp key k ≡ Ordering.lt) × Above key entries

  -- The keys do not descend.
  abbrev pub IsGrouped : List (K × Op) → Type ℓ
  IsGrouped [] = Unit
  IsGrouped ((k, op) ∷ entries) = AtLeast k entries × IsGrouped entries

  Above-of_AtLeast :
      (key k : K) (entries : List (K × Op))
      → o.cmp key k ≡ Ordering.lt
      → AtLeast k entries
      → Above key entries
  Above-of_AtLeast key k [] h a = tt
  Above-of_AtLeast key k ((j, op) ∷ entries) h a = elim a.0 [
    | inl e ↦ (o.cmp_trans key k j h e, Above-of_AtLeast key k entries h a.1)
    | inr e ↦ (rw (sym e) h, Above-of_AtLeast key k entries h a.1)
  ]

  differs : (key k : K) → o.cmp key k ≡ Ordering.lt → same k key ≡ false
  differs key k h = elim (Bool-cases (same k key)) [
    | inl e ↦
        let eq : k ≡ key = (agrees k key).0 e in
        let self : o.cmp key key ≡ Ordering.lt = cc in cc (o.cmp_refl key)
    | inr e ↦ e
  ]

  rises :
      (key k : K)
      → (o.cmp key k ≡ Ordering.lt) ⊎ (key ≡ k)
      → same k key ≡ false
      → o.cmp key k ≡ Ordering.lt
  rises key k (inl h) e = h
  rises key k (inr h) e = let yes : same k key ≡ true = (agrees k key).1 (sym h) in cc

  occurs-Above :
      (key : K) (entries : List (K × Op)) → Above key entries → occurs key entries ≡ false
  occurs-Above key [] a = refl
  occurs-Above key ((k, op) ∷ entries) a = rw (differs key k a.0, occurs-Above key entries a.1) refl

  push_live_once :
      (op : Op) (pos : ℕ) (later : List ℕ)
      → pos < 2 ^ 32
      → push_live op pos later ≡ push_latest false op pos later
  push_live_once assert pos later h = ap (λ p. p ∷ later) (omega arith)
  push_live_once retract pos later h = refl

  skip : (op : Op) (pos : ℕ) (later : List ℕ) → push_latest true op pos later ≡ later
  skip assert pos later = refl
  skip retract pos later = refl

  live_run-latest_asserts :
      (key : K) (op : Op) (pos : ℕ) (entries : List (K × Op))
      → pos + length entries < 2 ^ 32
      → AtLeast key entries
      → IsGrouped entries
      → live_run same key op pos entries ≡ latest_asserts pos ((key, op) ∷ entries)
  unfolding live_run latest_asserts
  live_run-latest_asserts key op pos [] h a g = push_live_once op pos [] (omega arith)
  live_run-latest_asserts key op pos ((k, p) ∷ entries) h a g = elim (Bool-cases (same k key)) [
    | inl e ↦
        let eq : k ≡ key = (agrees k key).0 e in
        rw (e, live_run)
          (live_run-latest_asserts key p (pos + 1) entries (omega arith) a.1 g.1
            ∙ ap (λ j. latest_asserts (pos + 1) ((j, p) ∷ entries)) (sym eq)
            ∙ sym (skip op pos (latest_asserts (pos + 1) ((k, p) ∷ entries))))
    | inr e ↦
        let less : o.cmp key k ≡ Ordering.lt = rises key k a.0 e in
        let again : occurs key entries ≡ false =
          occurs-Above key entries (Above-of_AtLeast key k entries less g.0) in
        rw (e, live_run, again)
          (push_live_once op pos (live_run same k p (pos + 1) entries) (omega arith)
            ∙ ap (push_latest false op pos)
                (live_run-latest_asserts k p (pos + 1) entries (omega arith) g.0 g.1))
  ]

  -- On an array whose keys do not descend, of fewer than 2^32 entries, the kernel returns the
  -- positions of those assertions that no later entry of the same key follows, in order.
  pub live_positions-latest_asserts :
      (entries : List (K × Op))
      → length entries < 2 ^ 32
      → IsGrouped entries
      → live_positions_from_sorted_runs same entries ≡ latest_asserts 0 entries
  unfolding live_positions_from_sorted_runs latest_asserts
  live_positions-latest_asserts [] h g = refl
  live_positions-latest_asserts ((k, op) ∷ entries) h g =
      live_run-latest_asserts k op 0 entries (omega arith) g.0 g.1
