-- ===== src/Prolly/Pass.antt =====
-- A pass over the groups of a level stores their chunks (ferratomic-core/src/prolly/build.rs).
use ferratomic.Prelude.{ℕ, ◌≡◌, refl, inl, inr, List, [], ◌∷◌, ◌++◌, length, arith}
use ferratomic.Prelude.Bytes.{Bytes}
use ferratomic.Prelude.Results.{Result, ok, err, step_cases}
use ferratomic.Prolly.Build.{
  FerraError, ChunkStore, Entry, put_group, put_groups, prepend, separator, then_put,
}
use ferratomic.Prolly.Stored.{IsChunkStore, Grows, Reads, Reads-Grows, ReadsAll}
use ferratomic.Prolly.Covers.{Covers}

module _ {ℓ κ} {S : Type ℓ} {X : Type κ} (chunk_store : ChunkStore S X) (blake : Bytes → Bytes)
    (honest : IsChunkStore chunk_store blake)
    (sized : (content : Bytes) → length (blake content) ≡ 32) where
  abbrev pub CoversAll :
      (List Entry → Result (FerraError X) Bytes)
      → ℕ
      → S
      → List (List Entry)
      → List Entry
      → Type (ℓ ⊔ κ)
  CoversAll serialize n s [] es = ◌≡◌ {A = List Entry} es [] × Unit {ℓ ⊔ κ}
  CoversAll serialize n s (group ∷ groups) es =
      (front back : List Entry) × (es ≡ front ++ back)
      × Covers chunk_store serialize n s group front
      × CoversAll serialize n s groups back

  CoversAll-Grows :
      (serialize : List Entry → Result (FerraError X) Bytes) (n : ℕ) (s t : S)
      (groups : List (List Entry)) (es : List Entry)
      → Grows chunk_store s t
      → CoversAll serialize n s groups es
      → CoversAll serialize n t groups es
  CoversAll-Grows serialize n s t [] es g h = h
  CoversAll-Grows serialize n s t (group ∷ groups) es g (front, back, e, covers, more) = (
    front,
    back,
    e,
    (λ u addr content k. covers u addr content (λ a c x. k a c (g a c x))),
    CoversAll-Grows serialize n s t groups back g more,
  )

  -- A pass over groups that succeeds has addresses of subtrees with the entries of the groups.
  abbrev pub Passed : ℕ → S → List Entry → S × Result (FerraError X) (List Entry) → Type (ℓ ⊔ κ)
  Passed n s es (t, err x) = Unit
  Passed n s es (t, ok addrs) = Grows chunk_store s t × ReadsAll chunk_store n t addrs es

  prepend-Passed :
      (n : ℕ) (s t : S) (sep addr : Bytes) (front back : List Entry)
      (x : S × Result (FerraError X) (List Entry))
      → Grows chunk_store s t
      → length addr ≡ 32
      → Reads chunk_store n t addr front
      → Passed n t back x
      → Passed n s (front ++ back) (prepend chunk_store blake sep addr x)
  prepend-Passed n s t sep addr front back (u, err x) g size h k = tt
  prepend-Passed n s t sep addr front back (u, ok addrs) g size h (grows, more) = (
    (λ a c e. grows a c (g a c e)),
    (
      front,
      back,
      refl,
      size,
      Reads-Grows chunk_store n n t u addr front grows (omega arith) h,
      more,
    ),
  )

  put-Passed :
      (n : ℕ) (s : S) (group front back : List Entry)
      (serialize : List Entry → Result (FerraError X) Bytes) (r : Result (FerraError X) Bytes)
      (go_on : S → S × Result (FerraError X) (List Entry))
      → serialize group ≡ r
      → Covers chunk_store serialize n s group front
      → ((t : S) → Grows chunk_store s t → Passed n t back (go_on t))
      → Passed n s
          (front ++ back)
          (then_put chunk_store blake group go_on (put_group chunk_store blake s r))
  put-Passed n s group front back serialize (err x) go_on e covers rest = tt
  put-Passed n s group front back serialize (ok content) go_on e covers rest =
      elim (step_cases (chunk_store.put_chunk s (blake content) content)) [
        | inl (t, x, k) ↦ rw k tt
        | inr (t, stored, k) ↦
            let grows : Grows chunk_store s t =
              λ addr other h. honest.put_keeps s t content stored addr other k h in
            rw k (
              prepend-Passed n s t (separator group) (blake content) front back (go_on t) grows
                (sized content)
                (covers t (blake content) content grows e (honest.put_get s t content stored k))
                (rest t grows))
      ]

  pub put_groups-Passed :
      (n : ℕ) (serialize : List Entry → Result (FerraError X) Bytes) (groups : List (List Entry))
      (s : S) (es : List Entry)
      → CoversAll serialize n s groups es
      → Passed n s es (put_groups chunk_store blake serialize groups s)
  unfolding put_groups
  put_groups-Passed n serialize [] s es h = ((λ addr content e. e), h)
  put_groups-Passed n serialize (group ∷ groups) s es (front, back, e, covers, more) = rw e (
      put-Passed n s group front back serialize (serialize group)
        (put_groups chunk_store blake serialize groups) refl covers
        (λ t g.
          put_groups-Passed n serialize groups t back
            (CoversAll-Grows serialize n s t groups back g more)))
