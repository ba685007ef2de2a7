-- ===== src/External.antt =====
-- What the program calls and does not implement: the machine it runs on, the TTLV library, the
-- cryptography of the Go libraries, the SQL driver.
pub mod Machine
pub mod Kmiplib
pub mod Crypto
pub mod Libraries
pub mod Database
pub mod Float
pub mod Formats
