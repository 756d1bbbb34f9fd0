-- ===== src/Auth/MethodReuse.antt =====
-- Credentials are not tied to a method: the middleware (src/relayer/src/auth/middleware.rs) reads the
-- method for the permission only, and nothing that is signed names it.
use nautilus_messaging_relay.Common.{
  ℤ, String, Bool, Option, some, Result, ok, err, ◌≡◌, refl, arith, if◌then◌else◌, inl, inr,
}
use nautilus_messaging_relay.Models.Message.{Bytes}
use nautilus_messaging_relay.Auth.Admission.{
  IsEntitled, context_of, verify_address_matches_pubkey_iff, auth_middleware_iff,
}
use nautilus_messaging_relay.Auth.Crypto.{Crypto}
use nautilus_messaging_relay.Auth.Middleware.{
  Request, Method, BodyAuthFields, Credentials, credentials, claim_of_headers, authorize,
  auth_middleware, required_permission, auth_error_response,
}
use nautilus_messaging_relay.Auth.Permissions.{MessagingPermission}
use nautilus_messaging_relay.Auth.Types.{AuthContext, not_group_member}

module _ (c : Crypto) (parse_body : Bytes → Result String BodyAuthFields) where
  credentials-method :
      (r : Request) (m : Method)
      → credentials c parse_body (record r { method = m }) ≡ credentials c parse_body r
  unfolding credentials claim_of_headers
  credentials-method r m = refl

  module _ (has_permission : String → String → MessagingPermission → Bool) (now ttl : ℤ) where
    authorize_other :
        (p q : MessagingPermission) (k : Credentials)
        → IsEntitled c has_permission now ttl p k
        → authorize c has_permission now ttl q k ≡ (
            if has_permission k.claim.group_id k.claim.sender_address q
            then ok (context_of c k)
            else err (
                auth_error_response 403 (not_group_member k.claim.sender_address k.claim.group_id)))
    unfolding authorize
    authorize_other p q k t = ground (
      arith,
      t.timely,
      t.signed,
      (verify_address_matches_pubkey_iff c k.claim.sender_address k.public_key_bytes k.scheme
            k.claim.sender_address).1
          (t.key_length, t.own_address, refl),
    )

    -- If a request was let through with a context, the same headers and body under another method
    -- for messages are let through with the same context exactly if the sender has the permission
    -- for that method in the same group, and are refused with status 403 otherwise: the signature
    -- does not tell the methods apart.
    pub auth_middleware-method :
        (r : Request) (b : Option Bytes) (ctx : AuthContext) (g : String) (m : Method)
        (q : MessagingPermission)
        → auth_middleware c parse_body has_permission now ttl r
          ≡ ok (record { body = b; context = some ctx })
        → ctx.authorized_group ≡ some g
        → required_permission m ≡ some q
        → auth_middleware c parse_body has_permission now ttl (record r { method = m }) ≡ (
            if has_permission g ctx.sender_address q
            then ok (record { body = b; context = some ctx })
            else err (auth_error_response 403 (not_group_member ctx.sender_address g)))
    unfolding auth_middleware
    auth_middleware-method r b ctx g m q h e w =
        elim ((auth_middleware_iff c parse_body has_permission now ttl r _).0 h) [
          | inl (p, u) ↦ absurd (ground arith)
          | inr (p, k, e', s, t, u) ↦
              ground (arith, credentials-method r m, authorize_other p q k t, s, u)
        ]
