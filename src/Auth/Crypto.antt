-- ===== src/Auth/Crypto.antt =====
-- What the relayer takes from the crates `hex`, `blake2`, `sui_crypto` and `sui_sdk_types`.
use nautilus_messaging_relay.Common.{String, Result}
use nautilus_messaging_relay.Models.Message.{Bytes}

pub record Crypto : Type 1 where
  -- `hex::decode`, with the text of its error, and `hex::encode`
  pub hex_decode : String → Result String Bytes
  pub hex_encode : Bytes → String
  -- `Blake2b256::digest`
  pub blake2b256 : Bytes → Bytes
  -- `UserSignature`, `UserSignature::from_bytes`, and `verify_personal_message` of the verifier
  pub UserSignature : Type 0
  pub signature_from_bytes : Bytes → Result String UserSignature
  pub verify_personal_message : Bytes → UserSignature → Result String (Unit {0})
