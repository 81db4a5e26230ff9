-- ===== src/Client.antt =====
-- clients/bun: the FRAMRPC client that runs on any JavaScript host, and Bun's transport for it.
pub mod Response
pub mod Results
pub mod Records
pub mod Codes
pub mod Term
pub mod Value
pub mod Bytes
pub mod Request
pub mod Reader
pub mod WireNumbers
pub mod Decimal
pub mod ReadAtom
pub mod Atoms
pub mod RoundTrip
pub mod RequestShape
pub mod NanBits
pub mod Counts
pub mod Transport
