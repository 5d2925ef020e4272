-- ===== src/Datom.antt =====
-- Datoms and their canonical bytes (ferratom/src/datom, INV-FERR-086).
pub mod Utf8
pub mod Inverse
pub mod Types
pub mod Encode
pub mod Decode
pub mod Values
pub mod Fields
pub mod RoundTrip
pub mod Hash
pub mod HashLaws
pub mod NegativeZero
pub mod FixedRead
pub mod ValuesRead
pub mod FieldsRead
pub mod Canonical
