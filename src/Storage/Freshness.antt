-- ===== src/Storage/Freshness.antt =====
-- What the critical sections of src/relayer/src/storage/memory.rs leave of the orders that are pending.
use nautilus_messaging_relay.Common.{
  ℤ, pos, ◌≡◌, refl, sym, ◌∙◌, List, [], ◌∷◌, ◌++◌, All, String, Option, some, arith, string_eq,
  nat_eq, bytes_eq, inl, inr, ap,
}
use nautilus_messaging_relay.Common.Map.{lookup, set_insert, set_remove}
use nautilus_messaging_relay.Models.Message
use nautilus_messaging_relay.Models.Message.{Uuid, Bytes, DateTime, Attachment, Message, SyncStatus}
use nautilus_messaging_relay.Storage.Ascending.{All-imp}
use nautilus_messaging_relay.Storage.Interleaving.{Apart, AllApart}
use nautilus_messaging_relay.Storage.Invariant.{Stored, IsValid}
use nautilus_messaging_relay.Storage.Memory.{
  InMemoryStorage, next_order, insert_message, update_message, delete_message, update_sync_status,
}
use nautilus_messaging_relay.Storage.Ordering.{HasRoom, IsFresh, next_order_lem, Issued-next_order}
use nautilus_messaging_relay.Storage.Outcomes.{
  insert_message-cases, update_message-cases, delete_message-cases, update_sync_status-cases,
}
use nautilus_messaging_relay.Storage.Writing.{written, Stored-cases}

-- Taking one message out of a list, a predicate of all and the distinctness stay.
module _ (P : Message → Type 0) where
  pub All-middle :
      (ps qs : List Message) (m : Message) → All P (ps ++ m ∷ qs) → P m × All P (ps ++ qs)
  All-middle [] qs m (h, hs) = (h, hs)
  All-middle (p ∷ ps) qs m (h, hs) = let (a, b) = All-middle ps qs m hs in (a, (h, b))

pub AllApart-middle :
    (ps qs : List Message) (m : Message)
    → AllApart (ps ++ m ∷ qs)
    → All (λ p. Apart p m) (ps ++ qs) × AllApart (ps ++ qs)
AllApart-middle [] qs m (h, hs) = (All-imp (λ q a g o. a (sym g) (sym o)) qs h, hs)
AllApart-middle (p ∷ ps) qs m (h, hs) =
    let (a, b) = AllApart-middle ps qs m hs in
    let (c, d) = All-middle (Apart p) ps qs m h in ((c, a), (d, b))

-- Whatever is stored later was stored before, in the same group with the same order.
pub Kept : InMemoryStorage → InMemoryStorage → Type 0
Kept s s' =
    (s'.group_orders ≡ s.group_orders)
    × ((j : Uuid) (w : Message)
        → Stored s' j w
        → (u : Message) × Stored s j u × (u.group_id ≡ w.group_id) × (u.order ≡ w.order))

pub IsFresh-Kept : (s s' : InMemoryStorage) → Kept s s' → (p : Message) → IsFresh s p → IsFresh s' p
unfolding Kept
IsFresh-Kept s s' (e, back) p f = record {
  given = rw e f.given;
  unused = λ j w h g o. let (u, h', g', o') = back j w h in f.unused j u h' (g' ∙ g) (o' ∙ o);
}

Kept-refl : (s : InMemoryStorage) → Kept s s
unfolding Kept
Kept-refl s = (refl, λ j w h. (w, h, refl, refl))

Kept-written :
    (s : InMemoryStorage) (k : Uuid) (m m' : Message) (ns : List Bytes)
    → Stored s k m
    → m.group_id ≡ m'.group_id
    → m.order ≡ m'.order
    → Kept s (written s k m' ns)
unfolding Kept
Kept-written s k m m' ns h g o = (
  refl,
  λ j w q. elim (Stored-cases s k m' ns j w q) [
    | inl (p, e) ↦ (m, rw p h, rw (← e) g, rw (← e) o)
    | inr (d, r) ↦ (w, r, refl, refl)
  ],
)

pub Kept-update_message :
    (s : InMemoryStorage) (now : DateTime) (id : Uuid) (em n : Bytes) (kv : ℤ)
    (ats : List Attachment) (sg pk : Bytes)
    → Kept s (update_message now id em n kv ats sg pk s).0
Kept-update_message s now id em n kv ats sg pk =
    elim (update_message-cases now id em n kv ats sg pk s) [
      | inl (h, e) ↦ rw e (Kept-refl s)
      | inr (m, h, inl (used, e)) ↦ rw e (Kept-refl s)
      | inr (m, h, inr (free, e)) ↦
          rw e (Kept-written s id m _ (set_insert n (set_remove m.nonce s.nonces)) h refl refl)
    ]

pub Kept-delete_message :
    (s : InMemoryStorage) (now : DateTime) (id : Uuid) → Kept s (delete_message now id s).0
Kept-delete_message s now id = elim (delete_message-cases now id s) [
  | inl (h, e) ↦ rw e (Kept-refl s)
  | inr (m, h, e) ↦ rw e (Kept-written s id m _ s.nonces h refl refl)
]

pub Kept-update_sync_status :
    (s : InMemoryStorage) (now : DateTime) (id : Uuid) (status : SyncStatus) (patch : Option String)
    → Kept s (update_sync_status now id status patch s).0
Kept-update_sync_status s now id status patch =
    elim (update_sync_status-cases now id status patch s) [
      | inl (h, e) ↦ rw e (Kept-refl s)
      | inr (m, h, e) ↦ rw e (Kept-written s id m _ s.nonces h refl refl)
    ]

-- A pending message stays fresh when another one with another order is stored.
pub IsFresh-insert_message :
    (s : InMemoryStorage) (m p : Message)
    → IsFresh s p
    → Apart p m
    → IsFresh (insert_message m s).0 p
IsFresh-insert_message s m p f a = elim (insert_message-cases m s) [
  | inl (old, h, e) ↦ rw e f
  | inr (inl (h, used, e)) ↦ rw e f
  | inr (inr (h, free, e)) ↦ rw e (record {
    given = f.given;
    unused = λ j w q g o. elim (Stored-cases s m.id m (set_insert m.nonce s.nonces) j w q) [
      | inl (_, e') ↦ a (cc) (cc)
      | inr (_, r) ↦ f.unused j w r g o
    ];
  })
]

-- A pending message stays fresh when another call takes an order, which is another one.
module _ (s : InMemoryStorage) (m : Message) (v : IsValid s) (room : HasRoom s m.group_id) where
  pub IsFresh-next_order : (p : Message) → IsFresh s p → IsFresh (next_order m.group_id s).0 p
  unfolding next_order
  IsFresh-next_order p f = record {
    given = let (o, e, i) = f.given in (o, e, Issued-next_order m.group_id s v room p.group_id o i);
    unused = f.unused;
  }

  pub Apart-next_order :
      (p : Message) → IsFresh s p → Apart (Message.set_order (next_order m.group_id s).1 m) p
  unfolding next_order
  Apart-next_order p f g o =
      let (c, e, lt, prev) = next_order_lem m.group_id s v room in
      let (o', e', (c', r, lo, hi)) = f.given in
      let r' : lookup m.group_id s.group_orders ≡ some (pos c') =
        ap (λ (x : String). lookup x s.group_orders) g ∙ r in
      ground arith
