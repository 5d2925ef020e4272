-- ===== src/Prolly/LeafRead.antt =====
-- A leaf chunk that was written is read back (build.rs, INV-FERR-045a).
use ferratomic.Prelude.{
  ℕ, ◌+◌, ◌^◌, ◌<◌, ◌≡◌, refl, sym, ap, ◌∙◌, inl, inr, true, List, [], ◌∷◌, ◌++◌, append_assoc,
  append-nil, ltb, length, length-append, arith, Bool-cases,
}
use ferratomic.Prelude.Bytes.{
  Bytes, slice_second, to_le_bytes, from_le_bytes, from_le_bytes-to_le_bytes, length-to_le_bytes,
}
use ferratomic.Prelude.Results.{Result, ok, err}
use ferratomic.Prolly.Build.{FerraError, Entry, len_u32, leaf_entries, serialize_leaf_chunk}
use ferratomic.Prolly.Read.{keys_ascend, read_len, read_entries, deserialize_leaf_chunk}

unfoldable pub prefixed : Bytes → Bytes → Bytes
prefixed content rest = to_le_bytes 4 (length content) ++ (content ++ rest)

leaf_bytes : List Entry → Bytes
leaf_bytes [] = []
leaf_bytes (e ∷ entries) = prefixed e.0 (prefixed e.1 (leaf_bytes entries))

abbrev Fits : List Entry → Type 0
Fits [] = Unit
Fits (e ∷ entries) = (length e.0 < 2 ^ 32) × (length e.1 < 2 ^ 32) × Fits entries

module _ {κ} {X : Type κ} where
  pub differ :
      {x : FerraError X} {y : Bytes} {r : Result (FerraError X) Bytes} → r ≡ err x → r ≡ ok y → ⊥
  differ e h = cc

  written :
      (entries : List Entry) (buf : Bytes) {out : Bytes}
      → leaf_entries {X = X} buf entries ≡ ok out
      → (out ≡ buf ++ leaf_bytes entries) × Fits entries
  unfolding leaf_entries len_u32 leaf_bytes prefixed
  written [] buf h = (cc (append-nil buf), tt)
  written ((k, v) ∷ entries) buf {out = out} h =
      let lk : Bytes = to_le_bytes 4 (length k) in
      let lv : Bytes = to_le_bytes 4 (length v) in
      elim (Bool-cases (ltb (length k) (2 ^ 32))) [
        | inl a ↦ elim (Bool-cases (ltb (length v) (2 ^ 32))) [
          | inl b ↦
              let next : leaf_entries {X = X} (buf ++ lk ++ k ++ lv ++ v) entries ≡ ok out =
                rw (a, b) at h in
              let (e, f) = written entries (buf ++ lk ++ k ++ lv ++ v) next in
              (e ∙ simp append_assoc refl, (ground arith, ground arith, f))
          | inr b ↦ absurd (differ refl (rw (a, b) at h))
        ]
        | inr a ↦ absurd (differ refl (rw a at h))
      ]

  pub read_at :
      (buf pre mid post : Bytes) (i n : ℕ)
      → buf ≡ pre ++ (mid ++ post)
      → i ≡ length pre
      → n ≡ length mid
      → read_len {X = X} buf i n ≡ ok mid
  unfolding read_len
  read_at buf pre mid post i n e p q = rw e (
      ground (
        arith,
        length-append pre (mid ++ post),
        length-append mid post,
        slice_second pre mid post i (i + n) p (omega arith),
      ))

  read_entries-leaf_bytes :
      (entries : List Entry) (buf pre : Bytes) (pos : ℕ)
      → buf ≡ pre ++ leaf_bytes entries
      → Fits entries
      → pos ≡ length pre
      → read_entries {X = X} buf (length entries) pos ≡ ok (entries, length buf)
  unfolding read_entries leaf_bytes prefixed
  read_entries-leaf_bytes [] buf pre pos e f p =
      ap (λ n. ok ([], n)) (p ∙ sym (ap length (e ∙ append-nil pre)))
  read_entries-leaf_bytes ((k, v) ∷ entries) buf pre pos e f p =
      let lk : Bytes = to_le_bytes 4 (length k) in
      let lv : Bytes = to_le_bytes 4 (length v) in
      let rest : Bytes = leaf_bytes entries in
      let tail : Bytes = lv ++ (v ++ rest) in
      let nk : from_le_bytes lk ≡ length k = from_le_bytes-to_le_bytes 4 (length k) f.0 in
      let nv : from_le_bytes lv ≡ length v = from_le_bytes-to_le_bytes 4 (length v) f.1 in
      let four : length lk ≡ 4 = length-to_le_bytes 4 (length k) in
      let four' : length lv ≡ 4 = length-to_le_bytes 4 (length v) in
      let e1 : buf ≡ (pre ++ lk) ++ (k ++ tail) = e ∙ sym (append_assoc pre lk (k ++ tail)) in
      let e2 : buf ≡ ((pre ++ lk) ++ k) ++ tail = e1 ∙ sym (append_assoc (pre ++ lk) k tail) in
      let p1 : pos + 4 ≡ length (pre ++ lk) = omega (arith, length-append pre lk) in
      let p2 : pos + 4 + from_le_bytes lk ≡ length ((pre ++ lk) ++ k) =
        omega (arith, length-append (pre ++ lk) k) in
      let front : Bytes = (pre ++ lk) ++ k in
      let e3 : buf ≡ (front ++ lv) ++ (v ++ rest) = e2 ∙ sym (append_assoc front lv (v ++ rest)) in
      let e4 : buf ≡ ((front ++ lv) ++ v) ++ rest = e3 ∙ sym (append_assoc (front ++ lv) v rest) in
      let p3 : pos + 4 + from_le_bytes lk + 4 ≡ length (front ++ lv) =
        omega (arith, length-append front lv) in
      let p4 : pos + 4 + from_le_bytes lk + 4 + from_le_bytes lv ≡ length ((front ++ lv) ++ v) =
        omega (arith, length-append (front ++ lv) v) in
      rw
        (
          read_at buf pre lk (k ++ tail) pos 4 e p (sym four),
          read_at buf (pre ++ lk) k tail (pos + 4) (from_le_bytes lk) e1 p1 nk,
          read_at buf front lv (v ++ rest) (pos + 4 + from_le_bytes lk) 4 e2 p2 (sym four'),
          read_at buf (front ++ lv) v rest (pos + 4 + from_le_bytes lk + 4) (from_le_bytes lv) e3 p3
              nv,
          read_entries-leaf_bytes entries buf ((front ++ lv) ++ v)
              (pos + 4 + from_le_bytes lk + 4 + from_le_bytes lv) e4 f.2 p4,
        )
        refl

  -- A leaf chunk that was serialized, from entries whose keys ascend, is read back as those entries.
  pub deserialize_leaf_chunk-serialize_leaf_chunk :
      (entries : List Entry) {buf : Bytes}
      → keys_ascend entries ≡ true
      → serialize_leaf_chunk {X = X} entries ≡ ok buf
      → deserialize_leaf_chunk {X = X} buf ≡ ok entries
  unfolding serialize_leaf_chunk deserialize_leaf_chunk len_u32
  deserialize_leaf_chunk-serialize_leaf_chunk entries {buf = buf} asc h =
      let count : Bytes = to_le_bytes 4 (length entries) in
      elim (Bool-cases (ltb (length entries) (2 ^ 32))) [
        | inl a ↦
            let (e, f) = written entries (0x01 ∷ count) (rw a at h) in
            rw (e, reads f (ground arith)) refl
        | inr a ↦ absurd (differ refl (rw a at h))
      ]
    where
      count_bytes : Bytes
      count_bytes = to_le_bytes 4 (length entries)

      reads :
          Fits entries
          → length entries < 2 ^ 32
          → deserialize_leaf_chunk {X = X} (0x01 ∷ (count_bytes ++ leaf_bytes entries)) ≡ ok entries
      reads f b =
          let whole : Bytes = 0x01 ∷ (count_bytes ++ leaf_bytes entries) in
          let n : from_le_bytes count_bytes ≡ length entries =
            from_le_bytes-to_le_bytes 4 (length entries) b in
          rw
            (
              read_at whole (0x01 ∷ []) count_bytes (leaf_bytes entries) 1 4 refl refl
                  (sym (length-to_le_bytes 4 (length entries))),
              n,
              read_entries-leaf_bytes entries whole (0x01 ∷ count_bytes) 5 refl f
                  (omega (arith, length-to_le_bytes 4 (length entries))),
            )
            (ground (arith, asc))
