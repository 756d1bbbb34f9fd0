-- ===== src/Storage/Writing.antt =====
-- Writing one message into the store keeps the invariant, if the message fits.
use nautilus_messaging_relay.Common.{
  pos, ℕ, ◌≡◌, true, some, List, nat_eq, string_eq, bytes_eq, sym, ◌∙◌, ap, ◌≢◌, arith, inl, inr,
  ◌⊎◌,
}
use nautilus_messaging_relay.Common.Map.{
  insert, contains, lookup-insert, lookup-insert-cases, insert-DistinctKeys,
}
use nautilus_messaging_relay.Models.Message.{Uuid, Bytes, Message}
use nautilus_messaging_relay.Storage.Invariant.{Stored, Issued, IsValid}
use nautilus_messaging_relay.Storage.Memory.{InMemoryStorage}

-- What the message `m` and the set of nonces `ns` must satisfy to be written under `k`.
pub record Fits (s : InMemoryStorage) (k : Uuid) (m : Message) (ns : List Bytes) : Type 0 where
  pub own : m.id ≡ k
  pub given : (o : ℕ) × (m.order ≡ some (pos o)) × Issued s m.group_id o
  pub order_unused :
      (j : Uuid) (w : Message) → j ≢ k → Stored s j w → w.group_id ≡ m.group_id → w.order ≢ m.order
  pub nonce_unused : (j : Uuid) (w : Message) → j ≢ k → Stored s j w → w.nonce ≢ m.nonce
  pub listed :
      (n : Bytes)
      → contains n ns ≡ true
      → (n ≡ m.nonce) ⊎ ((j : Uuid) × (w : Message) × (j ≢ k) × Stored s j w × (w.nonce ≡ n))
  pub own_listed : contains m.nonce ns ≡ true
  pub others_listed : (j : Uuid) (w : Message) → j ≢ k → Stored s j w → contains w.nonce ns ≡ true

module _ (s : InMemoryStorage) (k : Uuid) (m : Message) (ns : List Bytes) where
  abbrev pub written : InMemoryStorage
  written = record s { messages = insert k m s.messages; nonces = ns }

  pub Stored-cases :
      (j : Uuid) (w : Message) → Stored written j w → ((j ≡ k) × (m ≡ w)) ⊎ ((j ≢ k) × Stored s j w)
  Stored-cases j w h = lookup-insert-cases k j m w s.messages h

  Stored_self : Stored written k m
  Stored_self = ground (arith, lookup-insert k k m s.messages)

  pub Stored_other : (j : Uuid) (w : Message) → j ≢ k → Stored s j w → Stored written j w
  Stored_other j w d h = ground (arith, lookup-insert k j m s.messages)

  module _ (v : IsValid s) (f : Fits s k m ns) where
    written-nonce_used :
        (n : Bytes)
        → contains n ns ≡ true
        → (j : Uuid) × (w : Message) × Stored written j w × (w.nonce ≡ n)
    written-nonce_used n h = elim (f.listed n h) [
      | inl e ↦ (k, m, Stored_self, sym e)
      | inr (j, w, d, q, e) ↦ (j, w, Stored_other j w d q, e)
    ]

    written-nonce_unique :
        (i j : Uuid) (u w : Message)
        → Stored written i u
        → Stored written j w
        → u.nonce ≡ w.nonce
        → i ≡ j
    written-nonce_unique i j u w h h' e = elim (Stored-cases i u h) [
      | inl (p, q) ↦ elim (Stored-cases j w h') [
        | inl (p', q') ↦ p ∙ sym p'
        | inr (d, r) ↦
            absurd (f.nonce_unused j w d r (sym e ∙ ap (λ (x : Message). x.nonce) (sym q)))
      ]
      | inr (d, r) ↦ elim (Stored-cases j w h') [
        | inl (p', q') ↦
            absurd (f.nonce_unused i u d r (e ∙ ap (λ (x : Message). x.nonce) (sym q')))
        | inr (d', r') ↦ v.nonce_unique i j u w r r' e
      ]
    ]

    written-order_unique :
        (i j : Uuid) (u w : Message)
        → Stored written i u
        → Stored written j w
        → u.group_id ≡ w.group_id
        → u.order ≡ w.order
        → i ≡ j
    written-order_unique i j u w h h' g e = elim (Stored-cases i u h) [
      | inl (p, q) ↦ elim (Stored-cases j w h') [
        | inl (p', q') ↦ p ∙ sym p'
        | inr (d, r) ↦ absurd (f.order_unused j w d r (cc) (cc))
      ]
      | inr (d, r) ↦ elim (Stored-cases j w h') [
        | inl (p', q') ↦ absurd (f.order_unused i u d r (cc) (cc))
        | inr (d', r') ↦ v.order_unique i j u w r r' g e
      ]
    ]

    pub written-IsValid : IsValid written
    written-IsValid = record {
      distinct = insert-DistinctKeys k m s.messages v.distinct;
      keyed = λ j w h. elim (Stored-cases j w h) [
        | inl (p, q) ↦ rw (← q) (f.own ∙ sym p)
        | inr (d, r) ↦ v.keyed j w r
      ];
      nonce_known = λ j w h. elim (Stored-cases j w h) [
        | inl (p, q) ↦ rw (← q) f.own_listed
        | inr (d, r) ↦ f.others_listed j w d r
      ];
      nonce_used = written-nonce_used;
      nonce_unique = written-nonce_unique;
      counted = v.counted;
      ordered = λ j w h. elim (Stored-cases j w h) [
        | inl (p, q) ↦ rw (← q) f.given
        | inr (d, r) ↦ v.ordered j w r
      ];
      order_unique = written-order_unique;
    }
