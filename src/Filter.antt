-- ===== src/Filter.antt =====
-- `DatomFilter` (ferratom/src/filter.rs): which datoms a selective merge takes.
pub mod Union
use ferratomic.Prelude.{ℕ, Bool, true, false, ◌&&◌, ◌||◌, List, [], ◌∷◌, ◌==◌}
use ferratomic.Prelude.Bytes.{Bytes, bytes_eq}
use ferratomic.Clock.TxId.{NodeId}
use ferratomic.Datom.Types.{EntityId, Datom}

mutual
  pub data DatomFilter : Type 0 where
    everything : DatomFilter
    attribute_namespace : List Bytes → DatomFilter
    from_nodes : List NodeId → DatomFilter
    entities : List EntityId → DatomFilter
    and or : DatomFilters → DatomFilter

  -- `Vec<DatomFilter>`
  pub data DatomFilters : Type 0 where
    nil : DatomFilters
    cons : DatomFilter → DatomFilters → DatomFilters

-- `str::starts_with`
unfoldable pub starts_with : Bytes → Bytes → Bool
starts_with s [] = true
starts_with [] (p ∷ prefix) = false
starts_with (b ∷ s) (p ∷ prefix) = (b == p) && starts_with s prefix

-- `iter().any(..)` and `contains`
unfoldable pub any_prefix : Bytes → List Bytes → Bool
any_prefix attr [] = false
any_prefix attr (prefix ∷ prefixes) = starts_with attr prefix || any_prefix attr prefixes

unfoldable pub contains : List Bytes → Bytes → Bool
contains [] x = false
contains (y ∷ ys) x = bytes_eq x y || contains ys x

unfoldable mutual
  pub matches : DatomFilter → Datom → Bool
  matches everything d = true
  matches (attribute_namespace prefixes) d = any_prefix d.attribute prefixes
  matches (from_nodes nodes) d = contains nodes d.tx.node
  matches (entities ids) d = contains ids d.entity
  matches (and filters) d = all_match filters d
  matches (or filters) d = any_matches filters d

  pub all_match : DatomFilters → Datom → Bool
  all_match nil d = true
  all_match (cons f filters) d = matches f d && all_match filters d

  pub any_matches : DatomFilters → Datom → Bool
  any_matches nil d = false
  any_matches (cons f filters) d = matches f d || any_matches filters d
