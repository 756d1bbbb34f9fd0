-- ===== src/Storage/Counters.antt =====
-- How far the counters of the groups (src/relayer/src/storage/memory.rs) have come.
use nautilus_messaging_relay.Common.{
  ℕ, suc, ◌+◌, ◌≤◌, ◌<◌, ◌^◌, ℤ, pos, String, some, List, ◌≡◌, ◌⊎◌, sym, ap, ◌∙◌, arith, inl, inr,
  string_eq, nat_eq, Bool-cases, ◌==◌,
}
use nautilus_messaging_relay.Common.Map.{lookup, lookup-insert}
use nautilus_messaging_relay.Models.Message.{Uuid, Bytes, DateTime, Attachment, Message}
use nautilus_messaging_relay.Storage.Invariant.{IsValid}
use nautilus_messaging_relay.Storage.Memory.{
  InMemoryStorage, next_order, create_message, update_message, delete_message, order_after,
}
use nautilus_messaging_relay.Storage.Ordering.{HasRoom, next_order_lem}
use nautilus_messaging_relay.Storage.Outcomes.{
  insert_message-cases, update_message-cases, delete_message-cases,
}

-- No counter is above `n`.
abbrev pub CountedTo : ℕ → InMemoryStorage → Type 0
CountedTo n s = (g : String) (c : ℕ) → lookup g s.group_orders ≡ some (pos c) → c ≤ n

-- The counters are as they were, or one of them moved up by one.
abbrev pub Advances : InMemoryStorage → InMemoryStorage → Type 0
Advances s s' =
    (s'.group_orders ≡ s.group_orders)
    ⊎ ((g : String) × (s'.group_orders ≡ (next_order g s).0.group_orders))

pub create_message-Advances :
    (m : Message) (s : InMemoryStorage) → Advances s (create_message m s).0
unfolding create_message
create_message-Advances m s =
    let (s1, o) = next_order m.group_id s in
    elim (insert_message-cases (record m { order = some o }) s1) [
      | inl (old, at, e) ↦ inr (m.group_id, ap (λ r. r.0.group_orders) e)
      | inr (inl (a, u, e)) ↦ inr (m.group_id, ap (λ r. r.0.group_orders) e)
      | inr (inr (a, u, e)) ↦ inr (m.group_id, ap (λ r. r.0.group_orders) e)
    ]

pub update_message-orders :
    (now : DateTime) (id : Uuid) (em n : Bytes) (kv : ℤ) (ats : List Attachment) (sg pk : Bytes)
    (s : InMemoryStorage)
    → (update_message now id em n kv ats sg pk s).0.group_orders ≡ s.group_orders
update_message-orders now id em n kv ats sg pk s =
    elim (update_message-cases now id em n kv ats sg pk s) [
      | inl (h, e) ↦ ap (λ r. r.0.group_orders) e
      | inr (m, h, inl (u, e)) ↦ ap (λ r. r.0.group_orders) e
      | inr (m, h, inr (u, e)) ↦ ap (λ r. r.0.group_orders) e
    ]

pub delete_message-orders :
    (now : DateTime) (id : Uuid) (s : InMemoryStorage)
    → (delete_message now id s).0.group_orders ≡ s.group_orders
delete_message-orders now id s = elim (delete_message-cases now id s) [
  | inl (h, e) ↦ ap (λ r. r.0.group_orders) e
  | inr (m, h, e) ↦ ap (λ r. r.0.group_orders) e
]

pub CountedTo-HasRoom :
    (n : ℕ) (s : InMemoryStorage) → n + 1 < 2 ^ 63 → CountedTo n s → (g : String) → HasRoom s g
CountedTo-HasRoom n s h c g k e = let b = c g k e in omega arith

-- Advancing counters that are at most `n` leaves them at most `n + 1`.
pub Advances-CountedTo :
    (n : ℕ) (s s' : InMemoryStorage)
    → IsValid s
    → n + 1 < 2 ^ 63
    → CountedTo n s
    → Advances s s'
    → CountedTo (suc n) s'
unfolding next_order
Advances-CountedTo n s s' v h c (inl e) g k at =
    let b = c g k (ap (lookup g) (sym e) ∙ at) in omega arith
Advances-CountedTo n s s' v h c (inr (g', e)) g k at =
    let moved = ap (lookup g) (sym e) ∙ at in
    let (c', p, lo, prev) = next_order_lem g' s v (CountedTo-HasRoom n s h c g') in
    let written = lookup-insert g' g (order_after (lookup g' s.group_orders)) s.group_orders in
    elim (Bool-cases (g == g')) [
      | inr other ↦
          let same : lookup g s.group_orders ≡ some (pos k) = ground arith in
          let b = c g k same in omega arith
      | inl own ↦
          let next : suc c' ≡ k = ground arith in
          elim prev [
            | inl (absent, first) ↦ omega arith
            | inr before ↦ let b = c g' c' before in omega arith
          ]
    ]
