-- ===== src/Handlers/Delivery.antt =====
-- What creating and listing messages through src/relayer/src/handlers/messages/handlers.rs does.
use nautilus_messaging_relay.Common.{
  ℤ, ℕ, zero, suc, ◌≤◌, ◌<◌, String, ◌≡◌, refl, ap, true, none, some, List, [], ◌∷◌, map, nat_eq,
  string_eq, bytes_eq, Result, ok, err, Result-cases, Bool-cases, Option-cases, arith, ◌⊎◌, ◌↔◌,
  inl, inr, length, take, min, ltb, length-take, ltb→lt, lt→ltb,
}
use mathlib.Core.Path.{subst}
use nautilus_messaging_relay.Common.Map.{lookup, insert}
use nautilus_messaging_relay.Models.Message
use nautilus_messaging_relay.Models.Message.{Uuid, Bytes, DateTime, Message}
use nautilus_messaging_relay.Storage.Adapter.{StorageError, duplicate_id, duplicate_nonce}
use nautilus_messaging_relay.Storage.Memory
use nautilus_messaging_relay.Storage.Memory.{
  InMemoryStorage, get_message, insert_message, next_order, order_after, messages_in_range,
  get_messages_by_group,
}
use nautilus_messaging_relay.Storage.Creation.{Untouched, Added, written-Added}
use nautilus_messaging_relay.Storage.Outcomes.{insert_message-cases}
use nautilus_messaging_relay.Storage.Writing.{written}
use nautilus_messaging_relay.Auth.Crypto.{Crypto}
use nautilus_messaging_relay.Auth.Types.{AuthContext}
use nautilus_messaging_relay.Enclave.Signing.{
  IntentMessage, ProcessedDataResponse, KeyPair, to_signed_response, message_delivery,
}
use nautilus_messaging_relay.Handlers.Error.{ApiError, api_error}
use nautilus_messaging_relay.Handlers.Request.{CreateMessageRequest, GetMessagesQuery}
use nautilus_messaging_relay.Handlers.Response.{
  CreateMessageResponse, MessagesListResponse, list, message_response,
}
use nautilus_messaging_relay.Handlers.Contents.{Content, decode_content}
use nautilus_messaging_relay.Handlers.Messages.{
  AppState, authorized_for, message_of, create_message, get_messages,
}
use nautilus_messaging_relay.Handlers.Outcomes.{authorized_for→eq}

module _ (s : InMemoryStorage) (m : Message) where
  -- The order that the message is given, and the store with the counter moved on.
  abbrev given : ℤ
  given = order_after (lookup m.group_id s.group_orders)

  abbrev counted : InMemoryStorage
  counted = record s { group_orders = insert m.group_id given s.group_orders }

  abbrev stored : Message
  stored = Message.set_order given m

  Memory_create_message-cases :
      ((e : StorageError) × (Memory.create_message m s ≡ (counted, err e)))
      ⊎ ((ns : List Bytes) × (Memory.create_message m s
            ≡ (written counted m.id stored ns, ok stored)))
  unfolding Memory.create_message next_order
  Memory_create_message-cases = elim (insert_message-cases stored counted) [
    | inl (old, h, p) ↦ inl (duplicate_id m.id, p)
    | inr (inl (h, used, p)) ↦ inl (duplicate_nonce, p)
    | inr (inr (h, free, p)) ↦ inr (_, p)
  ]

module _ (c : Crypto) (kp : KeyPair) (show_uuid : Uuid → String)
    (bcs : IntentMessage CreateMessageResponse → Bytes) (id : Uuid) (now : DateTime)
    (timestamp_ms : ℕ) (auth : AuthContext) (req : CreateMessageRequest) (state : AppState) where
  abbrev content : Result ApiError Content
  content =
      decode_content c auth req.group_id req.encrypted_text req.nonce req.key_version
        req.message_signature req.attachments

  abbrev created :
      AppState × Result ApiError (ProcessedDataResponse (IntentMessage CreateMessageResponse))
  created = create_message c kp show_uuid bcs id now timestamp_ms auth req state

  created-undecoded : (e : ApiError) → content ≡ err e → created ≡ (state, err e)
  unfolding create_message
  created-undecoded e p = ground arith

  created-refused :
      (k : Content) (e : StorageError) (s : InMemoryStorage)
      → content ≡ ok k
      → Memory.create_message (message_of id now req k) state.storage ≡ (s, err e)
      → created ≡ (record state { storage = s }, err (api_error show_uuid e))
  unfolding create_message
  created-refused k e s p q = ground arith

  created-stored :
      (k : Content) (m : Message) (s : InMemoryStorage)
      → content ≡ ok k
      → Memory.create_message (message_of id now req k) state.storage ≡ (s, ok m)
      → created ≡ (
        record state { storage = s; notified = suc state.notified },
        ok (to_signed_response bcs kp (record { message_id = m.id }) timestamp_ms message_delivery),
      )
  unfolding create_message
  created-stored k m s p q = ground arith

  -- Creating through the API: either the answer is an error, no message and no nonce is stored, and
  -- the synchronisation worker is not notified; or the content decodes with the caller's signature,
  -- the message with the next order of its group is found under its identifier and all others are
  -- found as before, the worker is notified once, and the answer is signed and names the identifier.
  pub create_message-stores :
      ((e : ApiError) × ((create_message c kp show_uuid bcs id now timestamp_ms auth req state).1
          ≡ err e)
        × Untouched state.storage
            (create_message c kp show_uuid bcs id now timestamp_ms auth req state).0.storage
        × ((create_message c kp show_uuid bcs id now timestamp_ms auth req state).0.notified
            ≡ state.notified))
      ⊎ ((k : Content) × (decode_content c auth req.group_id req.encrypted_text req.nonce
              req.key_version req.message_signature req.attachments
            ≡ ok k)
          × ((create_message c kp show_uuid bcs id now timestamp_ms auth req state).1
              ≡ ok (
                  to_signed_response bcs kp
                    (record { message_id = id })
                    timestamp_ms
                    message_delivery))
          × Added state.storage
              (Message.set_order
                (order_after (lookup req.group_id state.storage.group_orders))
                (message_of id now req k))
              (create_message c kp show_uuid bcs id now timestamp_ms auth req state).0.storage
          × ((create_message c kp show_uuid bcs id now timestamp_ms auth req state).0.notified
              ≡ suc state.notified))
  unfolding get_message
  create_message-stores = elim (Result-cases content) [
    | inr (e, p) ↦ rw (created-undecoded e p) (inl (e, refl, (refl, refl), refl))
    | inl (k, p) ↦
        let m = message_of id now req k in
        elim (Memory_create_message-cases state.storage m) [
          | inl (e, q) ↦
              rw (created-refused k e _ p q) (inl (api_error show_uuid e, refl, (refl, refl), refl))
          | inr (ns, q) ↦ rw (created-stored k _ _ p q) (
              inr (
                k,
                p,
                refl,
                written-Added (counted state.storage m) (stored state.storage m) ns,
                refl,
              ))
        ]
  ]

-- The first entries of a list, and whether there are more, from one entry more than is asked for.
take_more :
    {A : Type 0} (n : ℕ) (xs : List A)
    → (take n (take (suc n) xs) ≡ take n xs) × ((n < length (take (suc n) xs)) ↔ (n < length xs))
take_more zero [] = (refl, (λ h. h, λ h. h))
take_more zero (x ∷ xs) = (refl, (λ h. omega arith, λ h. omega arith))
take_more (suc n) [] = (refl, (λ h. h, λ h. h))
take_more (suc n) (x ∷ xs) =
    let (e, (to, from)) = take_more n xs in
    (ap (◌∷◌ x) e, (λ h. ground (arith, to), λ h. ground (arith, from)))

length-map : {A B : Type 0} (f : A → B) (xs : List A) → length (map f xs) ≡ length xs
length-map f [] = refl
length-map f (x ∷ xs) = ap suc (length-map f xs)

abbrev pub page_limit : GetMessagesQuery → ℕ
page_limit query = min (elim query.limit [ none ↦ 50 | some n ↦ n ]) 100

module _ (c : Crypto) (show_uuid : Uuid → String) where
  -- The page `r` of the listing `l`.
  abbrev pub IsPage : GetMessagesQuery → List Message → MessagesListResponse → Type 0
  IsPage query l r =
      (length r.messages ≤ 100)
      × (r.messages ≡ map (message_response c.hex_encode) (take (page_limit query) l))
      × ((r.has_next ≡ true) ↔ (page_limit query < length l))

  -- Listing through the API gives a page of at most 100 messages of the group that the caller is
  -- authorized for: the first messages in the range of orders that the query asks for, as many as
  -- the limit allows, with `has_next` exactly if there are more.
  pub get_messages-IsPage :
      (auth : AuthContext) (query : GetMessagesQuery) (state : AppState) (r : MessagesListResponse)
      → get_messages c show_uuid auth query state ≡ ok (list r)
      → (g : String) × (auth.authorized_group ≡ some g)
        × (query.group_id ≡ some g)
        × IsPage query
            (messages_in_range g query.after_order query.before_order state.storage.messages)
            r
  unfolding get_messages get_messages_by_group
  get_messages-IsPage auth query state r h = elim (Option-cases query.message_id) [
    | inr (id, e) ↦ elim (Result-cases (get_message id state.storage)) [
      | inr (x, q) ↦ absurd (ground arith)
      | inl (m, q) ↦ elim (Bool-cases (authorized_for auth m.group_id)) [
        | inl b ↦ absurd (ground arith)
        | inr b ↦ absurd (ground arith)
      ]
    ]
    | inl e ↦ elim (Option-cases query.group_id) [
      | inl f ↦ absurd (ground arith)
      | inr (g, f) ↦ elim (Bool-cases (authorized_for auth g)) [
        | inr a ↦ absurd (ground arith)
        | inl a ↦
            let l =
              messages_in_range g query.after_order query.before_order state.storage.messages in
            let (same, more) = take_more (page_limit query) l in
            let made : MessagesListResponse = record {
              messages =
                  map (message_response c.hex_encode)
                    (take (page_limit query) (take (suc (page_limit query)) l));
              has_next = ltb (page_limit query) (length (take (suc (page_limit query)) l));
            } in
            let h' : get_messages c show_uuid auth query state ≡ ok (list made) = ground arith in
            let e' : made ≡ r = cc in
            (
              g,
              authorized_for→eq auth g a,
              f,
              subst (λ (t : MessagesListResponse). IsPage query l t) e'
                  (
                    omega (
                      arith,
                      length-map (message_response c.hex_encode)
                          (take (page_limit query) (take (suc (page_limit query)) l)),
                      length-take (page_limit query) (take (suc (page_limit query)) l),
                    ),
                    ap (map (message_response c.hex_encode)) same,
                    (λ t. more.0 (ltb→lt _ _ t), λ t. lt→ltb _ _ (more.1 t)),
                  ),
            )
      ]
    ]
  ]
