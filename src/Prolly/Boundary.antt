-- ===== src/Prolly/Boundary.antt =====
-- The rolling hash and the boundary test (ferratomic-core/src/prolly/boundary.rs), and the split of
-- the entries of one level into chunks (build.rs). The table of the hash is derived by BLAKE3, which
-- is outside the program.
use ferratomic.Prelude.{
  ℕ, zero, suc, ◌+◌, ◌-◌, ◌*◌, ◌/◌, ◌%◌, ◌^◌, Bool, true, false, not, ◌&&◌, List, [], ◌∷◌, ◌++◌,
  ltb, leb, ◌==◌, if◌then◌else◌, length,
}
use ferratomic.Prelude.Bytes.{Bytes}

abbrev pub min_chunk_size : ℕ
min_chunk_size = 32

abbrev pub max_chunk_size : ℕ
max_chunk_size = 1024

-- `^` and `&` on numbers of `w` bits
unfoldable pub bit_xor : ℕ → ℕ → ℕ → ℕ
bit_xor zero a b = 0
bit_xor (suc w) a b = (a + b) % 2 + 2 * bit_xor w (a / 2) (b / 2)

unfoldable pub bit_and : ℕ → ℕ → ℕ → ℕ
bit_and zero a b = 0
bit_and (suc w) a b = a % 2 * (b % 2) + 2 * bit_and w (a / 2) (b / 2)

-- `u64::rotate_left(1)`
abbrev pub rotate_left_one : ℕ → ℕ
rotate_left_one hash = (hash * 2) % 2 ^ 64 + hash / 2 ^ 63

-- Every byte of the key in turn into `hash`
unfoldable pub gear_from : (ℕ → ℕ) → ℕ → Bytes → ℕ
gear_from table hash [] = hash
gear_from table hash (byte ∷ key) =
    gear_from table (bit_xor 64 (rotate_left_one hash) (table byte)) key

abbrev pub gear_hash : (ℕ → ℕ) → Bytes → ℕ
gear_hash table key = gear_from table 0 key

-- `(1u64 << pattern_width) - 1`, with the shift's amount taken modulo 64 as in a release build
abbrev pub mask : ℕ → ℕ
mask pattern_width = 2 ^ (pattern_width % 64) - 1

unfoldable pub is_boundary : (ℕ → ℕ) → Bytes → ℕ → ℕ → Bool
is_boundary table key pattern_width entries_since_last =
    if ltb entries_since_last min_chunk_size
    then false
    else if leb max_chunk_size entries_since_last
    then true
    else bit_and 64 (gear_hash table key) (mask pattern_width) == mask pattern_width

unfoldable pub is_empty {ℓ} : {A : Type ℓ} → List A → Bool
is_empty [] = true
is_empty (x ∷ xs) = false

-- The loop that `split_at_boundaries` and `build_internal_nodes` share, with the group begun so far;
-- `key_of` gives an entry's key or separator.
module _ {ℓ} {A : Type ℓ} (table : ℕ → ℕ) (pattern_width : ℕ) (key_of : A → Bytes) where
  unfoldable pub split_from : List A → List A → List (List A)
  split_from current [] = if is_empty current then [] else current ∷ []
  split_from current (entry ∷ entries) =
      let grown = current ++ entry ∷ [] in
      let cut = split_from [] entries in
      let kept = split_from grown entries in
      if not (is_empty entries) && is_boundary table (key_of entry) pattern_width (length grown)
      then grown ∷ cut
      else kept

  unfoldable pub split_at_boundaries : List A → List (List A)
  split_at_boundaries entries = split_from [] entries
