-- ===== src/Db/Entries.antt =====
-- Replaying the entries of the log gives the store of the transactions (ferratomic-core/src/db).
use ferratomic.Prelude.{ℕ, ◌≡◌, refl, ap, Bool, true, Option, some, List, [], ◌∷◌, ◌++◌, map, All}
use ferratomic.Prelude.Bytes.{Bytes}
use ferratomic.Prelude.Results.{ok}
use ferratomic.Datom.Types.{EntityId, Datom}
use ferratomic.Positional.MergeLaws.{IsCanonical}
use ferratomic.Store.Evolution.{Visit}
use ferratomic.Store.Merge.{Parts, Store, datoms}
use ferratomic.Store.Apply.{TxReceipt}
use ferratomic.Store.Written.{opened}
use ferratomic.Store.Recovery.{Transacted, done, next, replay_entry-transact}
use ferratomic.Wal.Frame.{WalEntry}
use ferratomic.Db.Wire.{WireDatom, into_trusted}
use ferratomic.Db.Recover.{replay_entries}

-- What bincode is relied on for: datoms that it wrote are read back, as wire datoms.
abbrev pub ReadsBack : (List Datom → Option Bytes) → (Bytes → Option (List WireDatom)) → Type 0
ReadsBack serialize deserialize =
    (ds : List Datom) (payload : Bytes)
    → serialize ds ≡ some payload
    → (ws : List WireDatom) × (deserialize payload ≡ some ws) × (map into_trusted ws ≡ ds)

module _ (serialize : List Datom → Option Bytes) where
  -- The entries are the frames of the receipts.
  abbrev pub IsFrames : List WalEntry → List TxReceipt → Type 0
  IsFrames [] [] = Unit
  IsFrames [] (r ∷ rs) = ⊥
  IsFrames (e ∷ es) [] = ⊥
  IsFrames (e ∷ es) (r ∷ rs) =
      (e.epoch ≡ r.epoch) × (serialize r.datoms ≡ some e.payload) × IsFrames es rs

  pub IsFrames-append :
      (es fs : List WalEntry) (rs qs : List TxReceipt)
      → IsFrames es rs
      → IsFrames fs qs
      → IsFrames (es ++ fs) (rs ++ qs)
  IsFrames-append [] fs [] qs h k = k
  IsFrames-append [] fs (r ∷ rs) qs h k = absurd h
  IsFrames-append (e ∷ es) fs [] qs h k = absurd h
  IsFrames-append (e ∷ es) fs (r ∷ rs) qs h k = (h.0, h.1, IsFrames-append es fs rs qs h.2 k)

  pub IsFrames-split :
      (es fs : List WalEntry) (rs : List TxReceipt)
      → IsFrames (es ++ fs) rs
      → (front back : List TxReceipt) × (rs ≡ front ++ back) × IsFrames es front × IsFrames fs back
  IsFrames-split [] fs rs h = ([], rs, refl, tt, h)
  IsFrames-split (e ∷ es) fs [] h = absurd h
  IsFrames-split (e ∷ es) fs (r ∷ rs) h =
      let (front, back, same, f, g) = IsFrames-split es fs rs h.2 in
      (r ∷ front, back, ap (λ l. r ∷ l) same, (h.0, h.1, f), g)

  pub IsFrames-parts :
      (es : List WalEntry) (rs qs : List TxReceipt)
      → IsFrames es (rs ++ qs)
      → (front back : List WalEntry) × (es ≡ front ++ back) × IsFrames front rs × IsFrames back qs
  IsFrames-parts es [] qs h = ([], es, refl, tt, h)
  IsFrames-parts [] (r ∷ rs) qs h = absurd h
  IsFrames-parts (e ∷ es) (r ∷ rs) qs h =
      let (front, back, same, f, g) = IsFrames-parts es rs qs h.2 in
      (e ∷ front, back, ap (λ l. e ∷ l) same, (h.0, h.1, f), g)

  pub no_frames : (es : List WalEntry) → IsFrames es [] → es ≡ []
  no_frames [] h = refl
  no_frames (e ∷ es) h = absurd h

  pub first_frame :
      (es : List WalEntry) (r : TxReceipt) (rs : List TxReceipt)
      → IsFrames es (r ∷ rs)
      → (e : WalEntry) × (fs : List WalEntry) × (es ≡ e ∷ fs) × (e.epoch ≡ r.epoch)
  first_frame [] r rs h = absurd h
  first_frame (e ∷ es) r rs h = (e, es, refl, h.0)

module _ (p : Parts) (from_content : Bytes → EntityId) (v w : Visit)
    (serialize : List Datom → Option Bytes) (deserialize : Bytes → Option (List WireDatom))
    (reads_back : ReadsBack serialize deserialize) where
  pub replay_frames :
      (keep : ℕ → Bool) (es : List WalEntry) (rs : List TxReceipt) (s u y : Store p)
      → All (λ (e : WalEntry). keep e.epoch ≡ true) es
      → IsFrames serialize es rs
      → IsCanonical p.datom_order (datoms p s)
      → opened p y ≡ opened p s
      → Transacted p from_content v w s rs u
      → (z : Store p) × (replay_entries p w deserialize keep es y ≡ ok z)
        × (opened p z ≡ opened p u)
  unfolding replay_entries
  replay_frames keep [] rs s u y k f h same done = (y, refl, same)
  replay_frames keep (e ∷ es) rs s u y k f h same done = absurd f
  replay_frames keep [] rs s u y k f h same (next tx ctx r x agree more) = absurd f
  replay_frames keep (e ∷ es) rs s u y k f h same (next {t = t} {rs = qs} tx ctx r x agree more) =
      let (ws, read, trusted) = reads_back r.datoms e.payload f.1 in
      let (z, replayed, same', canonical) =
        replay_entry-transact p from_content v w tx ctx s t y r h x agree same in
      let (z', rest, final) = replay_frames keep es qs t u z k.1 f.2 canonical same' more in
      (z', rw (k.0, read, trusted, f.0, replayed) rest, final)
