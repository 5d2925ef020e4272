-- ===== src/Examples/Hashes.antt =====
-- The content hash with a toy hasher, which keeps the first bytes of what it is given.
use ferratomic.Prelude.{[], ◌∷◌, ◌++◌, take, append_assoc, replicate}
use ferratomic.Prelude.Bytes.{Bytes}
use ferratomic.Datom.Types.{assert, long, Datom}
use ferratomic.Datom.Hash.{Hasher}

abbrev pub first_bytes : Hasher Bytes
first_bytes = record {
  new_hasher = [];
  update = λ h a. h ++ a;
  finalize = λ h. take 40 h;
  update_append = append_assoc;
}

abbrev answer : Datom
answer = record {
  entity = replicate 32 7;
  attribute = 0x61 ∷ [];
  value = long 42;
  tx = record { physical = 1000; logical = 3; node = replicate 16 1 };
  op = assert;
}
