-- ===== src/Handlers/Binding.antt =====
-- What the signature of a message covers (src/relayer/src/handlers/messages/handlers.rs).
use nautilus_messaging_relay.Common.{ℤ, InI64, String, List, ok, ◌≡◌, sym, ap, ◌∙◌, ok-injective}
use nautilus_messaging_relay.Common.Text.{◌+s◌, show_int, as_bytes}
use nautilus_messaging_relay.Common.Text.Fields.{
  NoColon, split_last_colon, show_int-NoColon, show_int-injective,
}
use nautilus_messaging_relay.Common.Text.Utf8.{as_bytes-injective}
use text.Mathlib.TextLemmas.{append_assoc}
use nautilus_messaging_relay.Models.Message.{Bytes}
use nautilus_messaging_relay.Auth.Crypto.{Crypto}
use nautilus_messaging_relay.Auth.Types.{AuthContext}
use nautilus_messaging_relay.Handlers.Contents.{Content, canonical_content, decode_content}
use nautilus_messaging_relay.Handlers.Decoding.{decode_content-ok}
use nautilus_messaging_relay.Handlers.Request.{AttachmentRequest}

canonical_content-injective :
    (g g' t t' n n' : String) (kv kv' : ℤ)
    → InI64 kv
    → InI64 kv'
    → NoColon t
    → NoColon t'
    → NoColon n
    → NoColon n'
    → as_bytes (canonical_content g t n kv) ≡ as_bytes (canonical_content g' t' n' kv')
    → (g ≡ g') × (t ≡ t') × (n ≡ n') × (kv ≡ kv')
canonical_content-injective g g' t t' n n' kv kv' i i' at at' an an' e =
    let left : (g t n : String) (kv : ℤ)
        → canonical_content g t n kv ≡ (g +s ":" +s t +s ":" +s n) +s ":" +s show_int kv =
      λ g t n kv. simp append_assoc in
    let (p, last) =
      split_last_colon (g +s ":" +s t +s ":" +s n) (g' +s ":" +s t' +s ":" +s n') (show_int kv)
        (show_int kv') (sym (left g t n kv) ∙ as_bytes-injective _ _ e ∙ left g' t' n' kv')
        (show_int-NoColon kv) (show_int-NoColon kv') in
    let left2 : (g t n : String) → g +s ":" +s t +s ":" +s n ≡ (g +s ":" +s t) +s ":" +s n =
      λ g t n. simp append_assoc in
    let (q, nonces) =
      split_last_colon (g +s ":" +s t) (g' +s ":" +s t') n n'
        (sym (left2 g t n) ∙ p ∙ left2 g' t' n') an an' in
    let (groups, texts) = split_last_colon g g' t t' q at at' in
    (groups, texts, nonces, show_int-injective kv kv' i i' last)

module _ (c : Crypto)
    (hexadecimal : (s : String) (b : Bytes) → c.hex_decode s ≡ ok b → NoColon s) where
  -- The bytes that are signed for a message determine its content: if two requests decode, for whatever
  -- callers, and their signed bytes are the same, then they have the same group, the same version of
  -- the key, the same encrypted message and the same nonce. The versions are i64, and no text with a
  -- colon decodes as hexadecimal.
  pub decode_content-bound :
      (auth auth' : AuthContext) (g g' t t' n n' : String) (kv kv' : ℤ) (sg sg' : String)
      (rs rs' : List AttachmentRequest) (k k' : Content)
      → InI64 kv
      → InI64 kv'
      → decode_content c auth g t n kv sg rs ≡ ok k
      → decode_content c auth' g' t' n' kv' sg' rs' ≡ ok k'
      → as_bytes (canonical_content g t n kv) ≡ as_bytes (canonical_content g' t' n' kv')
      → (g ≡ g') × (kv ≡ kv') × (k.encrypted_msg ≡ k'.encrypted_msg) × (k.nonce ≡ k'.nonce)
  decode_content-bound auth auth' g g' t t' n n' kv kv' sg sg' rs rs' k k' i i' h h' e =
      let d = decode_content-ok c auth g t n kv sg rs k h in
      let d' = decode_content-ok c auth' g' t' n' kv' sg' rs' k' h' in
      let (groups, texts, nonces, versions) =
        canonical_content-injective g g' t t' n n' kv kv' i i' (hexadecimal t _ d.0)
          (hexadecimal t' _ d'.0) (hexadecimal n _ d.1) (hexadecimal n' _ d'.1) e in
      (
        groups,
        versions,
        ok-injective (sym d.0 ∙ ap c.hex_decode texts ∙ d'.0),
        ok-injective (sym d.1 ∙ ap c.hex_decode nonces ∙ d'.1),
      )
