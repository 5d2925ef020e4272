-- ===== src/Datom/Types.antt =====
-- Datoms and values (mod.rs, value.rs, entity.rs). A string is its bytes. An `i64`, an `i128` and an
-- `f64` are the numbers whose little-endian bytes `to_le_bytes` gives, that is their bit patterns.
use ferratomic.Prelude.{ℕ, ◌+◌, ◌^◌, ◌<◌, ◌≡◌, Bool, true, false, ltb, ◌==◌, if◌then◌else◌, length}
use ferratomic.Prelude.Bytes.{Bytes}
use ferratomic.Clock.TxId.{TxId}
use ferratomic.Datom.Utf8.{is_utf8}

abbrev pub EntityId : Type 0
EntityId = Bytes

abbrev pub Attribute : Type 0
Attribute = Bytes

pub data Op : Type 0 where
  assert retract : Op

pub data Value : Type 0 where
  keyword string : Bytes → Value
  long double : ℕ → Value
  bool : Bool → Value
  instant : ℕ → Value
  uuid bytes : Bytes → Value
  ref : EntityId → Value
  big_int big_dec : ℕ → Value

pub record Datom : Type 0 where
  pub entity : EntityId
  pub attribute : Attribute
  pub value : Value
  pub tx : TxId
  pub op : Op

-- The bits of -0.0 and of infinity.
abbrev pub negative_zero : ℕ
negative_zero = 0x8000_0000_0000_0000

abbrev pub infinity : ℕ
infinity = 0x7FF0_0000_0000_0000

-- `f + 0.0`: turns -0.0 into 0.0, and keeps every other number.
abbrev pub plus_zero : ℕ → ℕ
plus_zero f = if f == negative_zero then 0 else f

-- `f.is_nan()`, of a positive or a negative number
abbrev pub is_nan : ℕ → Bool
is_nan f = if ltb f negative_zero then ltb infinity f else ltb (negative_zero + infinity) f

-- The values that the types of the source admit, of which a keyword's and a string's length fit
-- their prefixes.
abbrev pub IsValue : Value → Type 0
IsValue (keyword s) = (length s < 256 ^ 2) × (is_utf8 s ≡ true)
IsValue (string s) = (length s < 256 ^ 4) × (is_utf8 s ≡ true)
IsValue (long n) = n < 256 ^ 8
IsValue (double f) = (f < 256 ^ 8) × (is_nan f ≡ false)
IsValue (bool b) = Unit
IsValue (instant n) = n < 256 ^ 8
IsValue (uuid u) = length u ≡ 16
IsValue (bytes s) = length s < 256 ^ 4
IsValue (ref e) = length e ≡ 32
IsValue (big_int n) = n < 256 ^ 16
IsValue (big_dec n) = n < 256 ^ 16

pub record IsTx (t : TxId) : Type 0 where
  pub physical : t.physical < 256 ^ 8
  pub logical : t.logical < 256 ^ 4
  pub node : length t.node ≡ 16

pub record IsDatom (d : Datom) : Type 0 where
  pub entity : length d.entity ≡ 32
  pub attribute : length d.attribute < 256 ^ 2
  pub name : is_utf8 d.attribute ≡ true
  pub value : IsValue d.value
  pub tx : IsTx d.tx
