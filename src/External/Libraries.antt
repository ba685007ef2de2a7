-- ===== src/External/Libraries.antt =====
-- All that the request handlers call.
use open_kmip_server.External.Machine.{Machine}
use open_kmip_server.External.Kmiplib.{Kmiplib}
use open_kmip_server.External.Crypto.{Crypto}

pub record Libraries : Type 1 where
  pub lib : Kmiplib
  pub open lib use *
  pub crypto : Crypto
  pub open crypto use *
  pub machine : Machine
