-- ===== src/Storage/Memory.antt =====
-- src/relayer/src/storage/memory.rs: the store in memory.
--
-- A method takes the store and returns the store that it leaves with its result. Each lock is held
-- through one critical section, so a method is one step, but for `create_message`, which gives up
-- the lock on the order counters before it takes the others: it is `next_order`, then
-- `insert_message`. A lock is never poisoned, since the release profile aborts on a panic.
use nautilus_messaging_relay.Common.{
  ℤ, pos, ◌+ℤ◌, ltb_ℤ, wrap_i64, ℕ, String, Bool, true, not, ◌&&◌, Option, none, some, List, [],
  map, if◌then◌else◌, Eq, ◌==◌, nat_eq, string_eq, bytes_eq, ok, err, filter, take,
}
use nautilus_messaging_relay.Common.Map.{lookup, insert, contains, set_insert, set_remove}
use nautilus_messaging_relay.Models.Message
use nautilus_messaging_relay.Models.Message.{
  Uuid, Bytes, DateTime, Attachment, Message, SyncStatus, SyncStatus-discrete,
}
use nautilus_messaging_relay.Storage.Adapter.{
  StorageResult, not_found, duplicate_id, duplicate_nonce,
}
use nautilus_messaging_relay.Storage.Sorting.{sort_by_key}

pub record InMemoryStorage : Type 0 where
  pub messages : List (Uuid × Message)
  pub group_orders : List (String × ℤ)
  pub nonces : List Bytes

-- `InMemoryStorage::new`
abbrev pub new : InMemoryStorage
new = record { messages = []; group_orders = []; nonces = [] }

-- `orders.get(group_id).map(|o| o + 1).unwrap_or(1)`
abbrev pub order_after : Option ℤ → ℤ
order_after none = pos 1
order_after (some o) = wrap_i64 (o +ℤ pos 1)

unfoldable pub next_order : String → InMemoryStorage → InMemoryStorage × ℤ
next_order group_id s =
    let next = order_after (lookup group_id s.group_orders) in
    (record s { group_orders = insert group_id next s.group_orders }, next)

abbrev pub contains_key : Uuid → List (Uuid × Message) → Bool
contains_key id messages = elim (lookup id messages) [ none ↦ Bool.false | some _ ↦ true ]

-- The second critical section of `create_message`.
unfoldable pub insert_message : Message → InMemoryStorage → InMemoryStorage × StorageResult Message
insert_message message s =
    if contains_key message.id s.messages
    then (s, err (duplicate_id message.id))
    else if contains message.nonce s.nonces
    then (s, err duplicate_nonce)
    else (
      record s {
        nonces = set_insert message.nonce s.nonces;
        messages = insert message.id message s.messages;
      },
      ok message,
    )

unfoldable pub create_message : Message → InMemoryStorage → InMemoryStorage × StorageResult Message
unfolding next_order insert_message
create_message message s =
    let (s', order) = next_order message.group_id s in
    insert_message (Message.set_order order message) s'

unfoldable pub get_message : Uuid → InMemoryStorage → StorageResult Message
get_message id s = elim (lookup id s.messages) [ none ↦ err (not_found id) | some m ↦ ok m ]

abbrev pub order_or_zero : Message → ℤ
order_or_zero m = elim m.order [ none ↦ pos 0 | some o ↦ o ]

-- `after_order` and `before_order`, both exclusive
abbrev pub in_range : Option ℤ → Option ℤ → ℤ → Bool
in_range (some after) (some before) order = ltb_ℤ after order && ltb_ℤ order before
in_range (some after) none order = ltb_ℤ after order
in_range none (some before) order = ltb_ℤ order before
in_range none none order = true

abbrev pub values : List (Uuid × Message) → List Message
values = map (λ e. e.1)

-- The messages that pass the filters, sorted, before the limit is applied.
unfoldable pub messages_in_range :
    String → Option ℤ → Option ℤ → List (Uuid × Message) → List Message
unfolding sort_by_key
messages_in_range group_id after_order before_order messages = sort_by_key order_or_zero (
    filter (λ m. in_range after_order before_order (order_or_zero m))
      (filter (λ m. m.group_id == group_id) (values messages)))

unfoldable pub get_messages_by_group :
    String → Option ℤ → Option ℤ → ℕ → InMemoryStorage → StorageResult (List Message)
get_messages_by_group group_id after_order before_order limit s =
    ok (take limit (messages_in_range group_id after_order before_order s.messages))

unfoldable pub update_message :
    DateTime
    → Uuid
    → Bytes
    → Bytes
    → ℤ
    → List Attachment
    → Bytes
    → Bytes
    → InMemoryStorage
    → InMemoryStorage × StorageResult Message
update_message now id encrypted_msg nonce key_version attachments signature public_key s =
    elim (lookup id s.messages) [
      | none ↦ (s, err (not_found id))
      | some message ↦
          if not (message.nonce == nonce) && contains nonce s.nonces
          then (s, err duplicate_nonce)
          else let message' =
              Message.update_content now encrypted_msg nonce key_version attachments signature
                public_key message in
            (
              record s {
                nonces = set_insert nonce (set_remove message.nonce s.nonces);
                messages = insert id message' s.messages;
              },
              ok message',
            )
    ]

unfoldable pub delete_message :
    DateTime → Uuid → InMemoryStorage → InMemoryStorage × StorageResult Message
delete_message now id s = elim (lookup id s.messages) [
  | none ↦ (s, err (not_found id))
  | some message ↦
      let message' = Message.mark_for_deletion now message in
      (record s { messages = insert id message' s.messages }, ok message')
]

-- `if let Some(patch_id) = quilt_patch_id { message.quilt_patch_id = Some(patch_id) }`
abbrev pub patch_or : Option String → Option String → Option String
patch_or (some patch_id) old = some patch_id
patch_or none old = old

unfoldable pub update_sync_status :
    DateTime
    → Uuid
    → SyncStatus
    → Option String
    → InMemoryStorage
    → InMemoryStorage × StorageResult Message
update_sync_status now id status quilt_patch_id s = elim (lookup id s.messages) [
  | none ↦ (s, err (not_found id))
  | some message ↦
      let message' : Message = record message {
        sync_status = status;
        updated_at = now;
        quilt_patch_id = patch_or quilt_patch_id message.quilt_patch_id;
      } in
      (record s { messages = insert id message' s.messages }, ok message')
]

instance abbrev pub status_eq : Eq SyncStatus
status_eq = record { dec = SyncStatus-discrete }

unfoldable pub get_messages_by_sync_status :
    SyncStatus → ℕ → InMemoryStorage → StorageResult (List Message)
get_messages_by_sync_status status limit s =
    ok (take limit (filter (λ m. m.sync_status == status) (values s.messages)))
