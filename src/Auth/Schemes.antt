-- ===== src/Auth/Schemes.antt =====
-- src/relayer/src/auth/schemes.rs: the signature schemes of Sui.
use nautilus_messaging_relay.Common.{ℕ, String, Option, none, some, if◌then◌else◌, ◌==◌, nat_eq}

pub data SignatureScheme : Type 0 where
  ed25519 secp256k1 secp256r1 : SignatureScheme

-- A flag is a byte.
unfoldable pub from_flag : ℕ → Option SignatureScheme
from_flag flag =
    if flag == 0x00
    then some ed25519
    else if flag == 0x01
    then some secp256k1
    else if flag == 0x02
    then some secp256r1
    else none

unfoldable pub flag : SignatureScheme → ℕ
flag ed25519 = 0x00
flag secp256k1 = 0x01
flag secp256r1 = 0x02

unfoldable pub public_key_length : SignatureScheme → ℕ
public_key_length ed25519 = 32
public_key_length secp256k1 = 33
public_key_length secp256r1 = 33

abbrev pub signature_length : SignatureScheme → ℕ
signature_length s = 64

unfoldable pub scheme_to_string : SignatureScheme → String
scheme_to_string ed25519 = "Ed25519"
scheme_to_string secp256k1 = "Secp256k1"
scheme_to_string secp256r1 = "Secp256r1"
