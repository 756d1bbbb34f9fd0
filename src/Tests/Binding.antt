-- ===== src/Tests/Binding.antt =====
-- Concrete signed bytes (src/relayer/src/auth and src/relayer/src/handlers).
use nautilus_messaging_relay.Common.{
  ℕ, pos, String, false, Bool-cases, List, [], ◌∷◌, if◌then◌else◌, nat_eq, ok, err, ◌≡◌, refl,
  arith, inl, inr,
}
use native.Mathlib.Decide.{ℕ_discrete}
use nautilus_messaging_relay.Common.Map.{contains}
use nautilus_messaging_relay.Common.Text.{codes, as_bytes}
use nautilus_messaging_relay.Common.Text.Fields.{Lacks, NoColon}
use nautilus_messaging_relay.Models.Message.{Bytes}
use nautilus_messaging_relay.Auth.Crypto.{Crypto}
use nautilus_messaging_relay.Auth.Schemes.{public_key_length}
use nautilus_messaging_relay.Auth.Signature.{verify_signature}
use nautilus_messaging_relay.Auth.Binding.{canonical_message-injective}
use nautilus_messaging_relay.Handlers.Contents.{
  decode_content, verify_message_signature, decode_attachments,
}
use nautilus_messaging_relay.Handlers.Binding.{decode_content-bound}
use nautilus_messaging_relay.Tests.Access.{crypto, ann, signature_text}
use nautilus_messaging_relay.Tests.Api.{nonce_text, content}

canonical_message-injective_example :
    (pos 1000 ≡ pos 1000) × (◌≡◌ {A = String} "0xa" "0xa") × (◌≡◌ {A = String} "a:b" "a:b")
canonical_message-injective_example =
    canonical_message-injective (pos 1000) (pos 1000) "0xa" "0xa" "a:b" "a:b"
      (omega arith, omega arith) (omega arith, omega arith) (omega arith) (omega arith) refl

-- Texts with a colon do not decode.
abbrev strict : Crypto
strict = record crypto {
  hex_decode = λ s. if contains b':' (codes s) then err "colon" else ok (as_bytes s);
}

contains-Lacks : (c : ℕ) (xs : List ℕ) → contains c xs ≡ false → Lacks c xs
unfolding contains
contains-Lacks c [] h = tt
contains-Lacks c (x ∷ xs) h = ((λ e. absurd (ground arith)), contains-Lacks c xs (ground arith))

strict-NoColon : (s : String) (b : Bytes) → strict.hex_decode s ≡ ok b → NoColon s
strict-NoColon s b h = elim (Bool-cases (contains b':' (codes s))) [
  | inl e ↦ absurd (cc (rw e at h))
  | inr e ↦ contains-Lacks b':' (codes s) e
]

strict_decoded :
    decode_content strict ann "team" "text" nonce_text (pos 1) signature_text [] ≡ ok content
unfolding decode_content verify_message_signature verify_signature decode_attachments as_bytes
    ℕ_discrete public_key_length contains
strict_decoded = refl

decode_content-bound_example :
    (◌≡◌ {A = String} "team" "team")
    × (pos 1 ≡ pos 1)
    × (content.encrypted_msg ≡ content.encrypted_msg)
    × (content.nonce ≡ content.nonce)
decode_content-bound_example =
    decode_content-bound strict strict-NoColon ann ann "team" "team" "text" "text" nonce_text
      nonce_text (pos 1) (pos 1) signature_text signature_text [] [] content content
      (omega arith, omega arith) (omega arith, omega arith) strict_decoded strict_decoded refl
