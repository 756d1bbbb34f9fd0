-- ===== src/Auth/Admission.antt =====
-- What the middleware (src/relayer/src/auth/middleware.rs) lets through, and what it does not look at.
use nautilus_messaging_relay.Common.{
  ℤ, String, Bool, true, false, none, some, ◌∷◌, nat_eq, string_eq, Result, ok, err, refuse_if,
  map_err, ◌≡◌, ◌⊎◌, ◌↔◌, inl, inr, refl, arith, length, Result-cases, Option-cases,
}
use nautilus_messaging_relay.Common.Text.{◌+s◌}
use nautilus_messaging_relay.Models.Message.{Bytes}
use nautilus_messaging_relay.Auth.Crypto.{Crypto}
use nautilus_messaging_relay.Auth.Middleware.{
  Request, BodyAuthFields, Credentials, Forwarded, credentials, authorize, auth_middleware,
  required_permission,
}
use nautilus_messaging_relay.Auth.Permissions.{MessagingPermission}
use nautilus_messaging_relay.Auth.Schemes.{SignatureScheme, flag, public_key_length}
use nautilus_messaging_relay.Auth.Signature.{
  validate_timestamp, verify_signature, derive_sui_address, verify_address_matches_pubkey,
}
use nautilus_messaging_relay.Auth.Types.{AuthContext}

map_err-eq-ok :
    {E E' A : Type 0} (f : E → E') (r : Result E A) (a : A) → map_err f r ≡ ok a → r ≡ ok a
map_err-eq-ok f (ok a) b h = cc
map_err-eq-ok f (err e) b h = absurd (cc)

refuse_if-eq-ok : {E : Type 0} (b : Bool) (e : E) (u : Unit {0}) → refuse_if b e ≡ ok u → b ≡ false
refuse_if-eq-ok true e u h = absurd (cc)
refuse_if-eq-ok false e u h = refl

module _ (c : Crypto) where
  -- The address of a public key: "0x" and the digits of the hash of the flag and the key.
  abbrev pub address_of : SignatureScheme → Bytes → String
  address_of scheme key = "0x" +s c.hex_encode (c.blake2b256 (flag scheme ∷ key))

  pub verify_address_matches_pubkey_iff :
      (claimed : String) (key : Bytes) (scheme : SignatureScheme) (a : String)
      → (verify_address_matches_pubkey c claimed key scheme ≡ ok a) ↔ (
          (length key ≡ public_key_length scheme)
          × (claimed ≡ address_of scheme key)
          × (a ≡ claimed))
  unfolding verify_address_matches_pubkey derive_sui_address
  verify_address_matches_pubkey_iff claimed key scheme a = ground arith

  -- The credentials hold: the time, the signature, and the address of the key.
  pub record IsProven (now ttl : ℤ) (k : Credentials) : Type 0 where
    pub timely : validate_timestamp now k.claim.timestamp ttl ≡ ok tt
    pub signed :
        verify_signature c k.claim.message_bytes k.signature_bytes k.public_key_bytes k.scheme
        ≡ ok tt
    pub key_length : length k.public_key_bytes ≡ public_key_length k.scheme
    pub own_address : k.claim.sender_address ≡ address_of k.scheme k.public_key_bytes

  -- They give the right to an action.
  pub record IsEntitled (has_permission : String → String → MessagingPermission → Bool)
      (now ttl : ℤ) (permission : MessagingPermission) (k : Credentials) : Type 0 where
    pub proven : IsProven now ttl k
    pub open proven use *
    pub permitted : has_permission k.claim.group_id k.claim.sender_address permission ≡ true

  abbrev pub context_of : Credentials → AuthContext
  context_of k = record {
    sender_address = k.claim.sender_address;
    public_key = k.public_key_bytes;
    scheme = k.scheme;
    authorized_group = some k.claim.group_id;
  }

  module _ (has_permission : String → String → MessagingPermission → Bool) (now ttl : ℤ) where
    address_verified :
        (p : MessagingPermission) (k : Credentials) (ctx : AuthContext)
        → authorize c has_permission now ttl p k ≡ ok ctx
        → (length k.public_key_bytes ≡ public_key_length k.scheme)
          × (k.claim.sender_address ≡ address_of k.scheme k.public_key_bytes)
    unfolding authorize
    address_verified p k ctx h =
        elim (Result-cases
          (verify_address_matches_pubkey c k.claim.sender_address k.public_key_bytes k.scheme)) [
            | inl (a, e) ↦
                let t =
                  (verify_address_matches_pubkey_iff k.claim.sender_address k.public_key_bytes
                      k.scheme a).0
                    e in
                (t.0, t.1)
            | inr (x, e) ↦ absurd (ground arith)
          ]

    pub authorize_iff :
        (p : MessagingPermission) (k : Credentials) (ctx : AuthContext)
        → (authorize c has_permission now ttl p k ≡ ok ctx)
          ↔ (IsEntitled has_permission now ttl p k × (ctx ≡ context_of k))
    unfolding authorize
    authorize_iff p k ctx = (
      λ h.
          let a = address_verified p k ctx h in
          (
            record {
              proven = record {
                timely = ground arith;
                signed = ground arith;
                key_length = a.0;
                own_address = a.1;
              };
              permitted = ground arith;
            },
            ground arith,
          ),
      λ (t, e). ground (
        arith,
        t.timely,
        t.signed,
        (verify_address_matches_pubkey_iff k.claim.sender_address k.public_key_bytes k.scheme
              k.claim.sender_address).1
            (t.key_length, t.own_address, refl),
        t.permitted,
        e,
      ),
    )

module _ (c : Crypto) (parse_body : Bytes → Result String BodyAuthFields)
    (has_permission : String → String → MessagingPermission → Bool) (now ttl : ℤ) where
  -- A request for messages is let through exactly if its headers and its body give credentials,
  -- the timestamp is accepted, the signature is one by the key over the claimed bytes, the claimed
  -- sender is the address of the key, and the sender has the permission for the method in the
  -- claimed group. It goes on with its body and a context of just these values. A request with a
  -- method that needs no permission goes on with no context.
  pub auth_middleware_iff :
      (r : Request) (f : Forwarded)
      → (auth_middleware c parse_body has_permission now ttl r ≡ ok f) ↔ (
          ((required_permission r.method ≡ none) × (f ≡ record { body = r.body; context = none }))
          ⊎ ((p : MessagingPermission) × (k : Credentials) × (required_permission r.method ≡ some p)
              × (credentials c parse_body r ≡ ok k)
              × IsEntitled c has_permission now ttl p k
              × (f ≡ record { body = some k.body_bytes; context = some (context_of c k) })))
  unfolding auth_middleware
  auth_middleware_iff r f = (
    λ h. elim (Option-cases (required_permission r.method)) [
      | inl e ↦ inl (e, ground arith)
      | inr (p, e) ↦ elim (Result-cases (credentials c parse_body r)) [
        | inr (x, q) ↦ absurd (ground arith)
        | inl (k, q) ↦ elim (Result-cases (authorize c has_permission now ttl p k)) [
          | inr (x, w) ↦ absurd (ground arith)
          | inl (ctx, w) ↦
              let (t, u) = (authorize_iff c has_permission now ttl p k ctx).0 w in
              inr (p, k, e, q, t, ground arith)
        ]
      ]
    ],
    λ h. elim h [
      | inl (e, q) ↦ ground arith
      | inr (p, k, e, q, t, u) ↦
          ground (arith, (authorize_iff c has_permission now ttl p k (context_of c k)).1 (t, refl))
    ],
  )
