-- ===== src/Observer.antt =====
-- The broadcast of commits to observers (ferratomic-core/src/observer.rs). An observer is the calls
-- it has received; a store enters by its epoch and its datoms.
pub mod Calls
pub mod InOrder
pub mod Late
use ferratomic.Prelude.{
  ℕ, suc, ◌+◌, min, max, Option, none, some, List, [], ◌∷◌, ◌++◌, map, length, leb, ltb,
  if◌then◌else◌,
}
use ferratomic.Datom.Types.{Datom}
use ferratomic.Filter.{DatomFilter, matches}
use ferratomic.Filter.Union.{select}

-- The largest `u64`
abbrev pub u64_max : ℕ
u64_max = 0xFFFF_FFFF_FFFF_FFFF

-- A call of `DatomObserver`.
pub data Delivery : Type 0 where
  on_commit on_catchup : ℕ → List Datom → Delivery

pub record BroadcastEntry : Type 0 where
  pub epoch : ℕ
  pub datoms : List Datom

pub record RegisteredObserver : Type 0 where
  pub received : List Delivery
  pub last_seen_epoch : ℕ
  pub filter : Option DatomFilter

pub record ObserverBroadcast : Type 0 where
  pub observers : List RegisteredObserver
  pub recent : List BroadcastEntry
  pub max_buffer : ℕ

unfoldable pub new : ℕ → ObserverBroadcast
new max_buffer = record { observers = []; recent = []; max_buffer = max max_buffer 1 }

abbrev pub filtered : Option DatomFilter → List Datom → List Datom
filtered none datoms = datoms
filtered (some f) datoms = select (matches f) datoms

-- `register_impl`, for a store with this epoch and these datoms
unfoldable pub register_impl :
    Option DatomFilter → ℕ → List Datom → ObserverBroadcast → ObserverBroadcast
register_impl filter current_epoch datoms b =
    let caught_up =
      if ltb 0 current_epoch then on_catchup 0 (filtered filter datoms) ∷ [] else [] in
    let registered : RegisteredObserver = record {
      received = caught_up;
      last_seen_epoch = current_epoch;
      filter = filter;
    } in
    record b { observers = b.observers ++ (registered ∷ []) }

-- `while self.recent.len() > self.max_buffer`
unfoldable pub trim : ℕ → List BroadcastEntry → List BroadcastEntry
trim max_buffer [] = []
trim max_buffer (e ∷ recent) =
    if ltb max_buffer (suc (length recent)) then trim max_buffer recent else e ∷ recent

-- The loop of `buffered_delta_since`
unfoldable pub delta_after : ℕ → List BroadcastEntry → List Datom
delta_after from_epoch [] = []
delta_after from_epoch (e ∷ recent) =
    if ltb from_epoch e.epoch
    then e.datoms ++ delta_after from_epoch recent
    else delta_after from_epoch recent

unfoldable pub buffered_delta_since : List BroadcastEntry → ℕ → Option (List Datom)
buffered_delta_since [] from_epoch = none
buffered_delta_since (e ∷ recent) from_epoch =
    if ltb (min (from_epoch + 1) u64_max) e.epoch
    then none
    else some (delta_after from_epoch (e ∷ recent))

-- `unwrap_or_else(|| full_store_catchup(store))`
abbrev pub or_full_store : Option (List Datom) → List Datom → List Datom
or_full_store none store = store
or_full_store (some delta) store = delta

-- The call that an observer gets
unfoldable pub delivery :
    List BroadcastEntry → ℕ → List Datom → List Datom → RegisteredObserver → Delivery
delivery recent epoch datoms store r =
    let catchup = or_full_store (buffered_delta_since recent r.last_seen_epoch) store in
    if ltb (r.last_seen_epoch + 1) epoch
    then on_catchup r.last_seen_epoch (filtered r.filter catchup)
    else on_commit epoch (filtered r.filter datoms)

-- The body of the loop over the observers
unfoldable pub notify :
    List BroadcastEntry → ℕ → List Datom → List Datom → RegisteredObserver → RegisteredObserver
notify recent epoch datoms store r = if leb epoch r.last_seen_epoch then r else record r {
  received = r.received ++ (delivery recent epoch datoms store r ∷ []);
  last_seen_epoch = epoch;
}

unfoldable pub publish : ℕ → List Datom → List Datom → ObserverBroadcast → ObserverBroadcast
publish epoch datoms store b =
    let recent = trim b.max_buffer (b.recent ++ (record { epoch = epoch; datoms = datoms } ∷ [])) in
    record b { observers = map (notify recent epoch datoms store) b.observers; recent = recent }

-- A commit, with the datoms of the store at the time of its delivery
pub record Commit : Type 0 where
  pub epoch : ℕ
  pub datoms : List Datom
  pub store : List Datom

unfoldable pub publish_all : List Commit → ObserverBroadcast → ObserverBroadcast
publish_all [] b = b
publish_all (c ∷ commits) b = publish_all commits (publish c.epoch c.datoms c.store b)
