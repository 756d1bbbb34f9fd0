-- ===== src/Enclave/Signing.antt =====
-- src/relayer/src/enclave.rs: intent messages and the responses that the enclave signs.
use nautilus_messaging_relay.Common.{ℕ, String}
use nautilus_messaging_relay.Models.Message.{Bytes}

pub data IntentScope : Type 0 where
  generic sign_name message_delivery : IntentScope

-- The number that stands for the scope on the wire.
unfoldable pub scope_repr : IntentScope → ℕ
scope_repr generic = 0
scope_repr sign_name = 1
scope_repr message_delivery = 2

pub record IntentMessage (T : Type 0) : Type 0 where
  pub intent : IntentScope
  pub timestamp_ms : ℕ
  pub payload : T

pub record ProcessedDataResponse (T : Type 0) : Type 0 where
  pub response : T
  pub signature : String
  pub enclave_public_key : String

-- `EnclaveKeyPair` of the crate `nautilus_enclave`, and `hex::encode`.
pub record KeyPair : Type 0 where
  pub sign : Bytes → Bytes
  pub public_key_bytes : Bytes
  pub hex_encode : Bytes → String

-- `bcs` is the crate's encoding of the payload's intent message.
unfoldable pub to_signed_response :
    {T : Type 0}
    → (IntentMessage T → Bytes)
    → KeyPair
    → T
    → ℕ
    → IntentScope
    → ProcessedDataResponse (IntentMessage T)
to_signed_response {T} bcs kp payload timestamp_ms intent =
    let intent_msg : IntentMessage T = record {
      intent = intent;
      timestamp_ms = timestamp_ms;
      payload = payload;
    } in
    record {
      response = intent_msg;
      signature = kp.hex_encode (kp.sign (bcs intent_msg));
      enclave_public_key = kp.hex_encode kp.public_key_bytes;
    }
