-- ===== src/Storage/Ordering.antt =====
-- How `next_order` (src/relayer/src/storage/memory.rs) gives out orders.
use nautilus_messaging_relay.Common.{
  pos, ◌+ℤ◌, wrap_i64_id, ℕ, suc, ◌+◌, ◌<◌, ◌^◌, String, none, some, string_eq, ◌≡◌, refl, sym, ◌∙◌,
  ap, ◌≢◌, arith, Option-cases, inl, inr, ◌⊎◌,
}
use nautilus_messaging_relay.Common.Map.{lookup, lookup-insert, lookup-insert-cases}
use nautilus_messaging_relay.Models.Message
use nautilus_messaging_relay.Models.Message.{Uuid, Message}
use nautilus_messaging_relay.Storage.Invariant.{Stored, Issued, IsValid}
use nautilus_messaging_relay.Storage.Memory.{InMemoryStorage, order_after, next_order}

-- The greatest order that has been given out in the group: 0 where it has no counter.
abbrev pub CounterIs : InMemoryStorage → String → ℕ → Type 0
CounterIs s g c =
    ((lookup g s.group_orders ≡ none) × (c ≡ 0)) ⊎ (lookup g s.group_orders ≡ some (pos c))

-- The group's counter is below the greatest `i64`, so that the next order does not wrap.
abbrev pub HasRoom : InMemoryStorage → String → Type 0
HasRoom s g = (c : ℕ) → lookup g s.group_orders ≡ some (pos c) → c + 1 < 2 ^ 63

-- Below the limit the next order is one above the counter, or 1 in a new group.
pub next_order_lem :
    (g : String) (s : InMemoryStorage)
    → IsValid s
    → HasRoom s g
    → (c : ℕ) × (order_after (lookup g s.group_orders) ≡ pos (suc c))
      × (suc c < 2 ^ 63)
      × CounterIs s g c
next_order_lem g s v room = elim (Option-cases (lookup g s.group_orders)) [
  | inl e ↦ (0, rw e, omega arith, inl (e, refl))
  | inr (z, e) ↦
      let (c, p, lt) = v.counted g z e in
      let e' : lookup g s.group_orders ≡ some (pos c) = e ∙ ap some p in
      (
        c,
        rw e' (wrap_i64_id (pos c +ℤ pos 1) (ground (arith, room c e')) ∙ ground arith),
        omega (arith, room c e'),
        inr e',
      )
]

-- An order that has been given out stays so.
pub Issued-next_order :
    (g : String) (s : InMemoryStorage)
    → IsValid s
    → HasRoom s g
    → (g' : String) (o : ℕ) → Issued s g' o
    → Issued (next_order g s).0 g' o
unfolding next_order
Issued-next_order g s v room g' o (c', p, lo, hi) =
    let (c, e, lt, prev) = next_order_lem g s v room in
    elim (string_eq.dec g' g) [
      | yes same ↦ (
        suc c,
        ground (arith, lookup-insert g g' (order_after (lookup g s.group_orders)) s.group_orders),
        lo,
        ground arith,
      )
      | no other ↦ (
        c',
        ground (arith, lookup-insert g g' (order_after (lookup g s.group_orders)) s.group_orders),
        lo,
        hi,
      )
    ]

pub next_order-IsValid :
    (g : String) (s : InMemoryStorage) → IsValid s → HasRoom s g → IsValid (next_order g s).0
unfolding next_order
next_order-IsValid g s v room =
    let (c, e, lt, prev) = next_order_lem g s v room in
    record {
      distinct = v.distinct;
      keyed = v.keyed;
      nonce_known = v.nonce_known;
      nonce_used = v.nonce_used;
      nonce_unique = v.nonce_unique;
      counted = λ g' z h. elim (lookup-insert-cases g g' _ z s.group_orders h) [
        | inl (same, p) ↦ (suc c, sym p ∙ e, lt)
        | inr (other, q) ↦ v.counted g' z q
      ];
      ordered = λ k m h.
          let (o, p, i) = v.ordered k m h in (o, p, Issued-next_order g s v room m.group_id o i);
      order_unique = v.order_unique;
    }

-- The message has an order that was given out in its group and that no stored message has.
pub record IsFresh (s : InMemoryStorage) (m : Message) : Type 0 where
  pub given : (o : ℕ) × (m.order ≡ some (pos o)) × Issued s m.group_id o
  pub unused :
      (k : Uuid) (m' : Message) → Stored s k m' → m'.group_id ≡ m.group_id → m'.order ≢ m.order

-- The order that `next_order` returns is fresh.
pub next_order-IsFresh :
    (s : InMemoryStorage) (m : Message)
    → IsValid s
    → HasRoom s m.group_id
    → IsFresh (next_order m.group_id s).0 (Message.set_order (next_order m.group_id s).1 m)
unfolding next_order
next_order-IsFresh s m v room =
    let (c, e, lt, prev) = next_order_lem m.group_id s v room in
    record {
      given = (
        suc c,
        ap some e,
        (
          suc c,
          ground (
            arith,
            lookup-insert m.group_id m.group_id (order_after (lookup m.group_id s.group_orders))
                s.group_orders,
          ),
          omega arith,
          omega arith,
        ),
      );
      unused = λ k m' h same eq. let (o, p, (c', q, lo, hi)) = v.ordered k m' h in ground arith;
    }
