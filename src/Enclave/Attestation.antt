-- ===== src/Enclave/Attestation.antt =====
-- src/relayer/src/enclave.rs: the attestation document and the health of the enclave, and
-- src/relayer/src/handlers/health.rs. The document is that of the crate `nautilus_enclave`, a
-- parameter, with the text of its error.
use nautilus_messaging_relay.Common.{ℕ, String, Result, map_err, ok, ◌>>=◌, []}
use nautilus_messaging_relay.Common.Text.{◌+s◌}
use nautilus_messaging_relay.Models.Message.{Bytes}
use nautilus_messaging_relay.Enclave.Signing.{KeyPair}

pub data EnclaveError : Type 0 where
  generic_error : String → EnclaveError

-- The status code and the text of the answer.
unfoldable pub error_response : EnclaveError → ℕ × String
error_response (generic_error message) = (500, message)

pub record GetAttestationResponse : Type 0 where
  pub attestation : String

unfoldable pub get_attestation :
    (Bytes → Bytes → Result String String) → KeyPair → Result EnclaveError GetAttestationResponse
get_attestation attest kp = do
  raw_cbor_hex ←
      map_err (λ e. generic_error ("attestation failed: " +s e)) (attest kp.public_key_bytes [])
  ok (record { attestation = raw_cbor_hex })

pub record EnclaveHealthResponse : Type 0 where
  pub public_key : String
  pub status : String

unfoldable pub enclave_health : KeyPair → Result EnclaveError EnclaveHealthResponse
enclave_health kp = ok (record { public_key = kp.hex_encode kp.public_key_bytes; status = "ok" })

pub record HealthCheckResponse : Type 0 where
  pub status : String

unfoldable pub health_check : HealthCheckResponse
health_check = record { status = "ok" }
