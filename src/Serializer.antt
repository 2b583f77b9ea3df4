-- ===== src/Serializer.antt =====
-- serializer/: the writer and the reader of binary data, and encoding/binary's uvarint below them.
pub mod Uvarint
pub mod Writer
pub mod Reader
pub mod RoundTrip
pub mod Panics
