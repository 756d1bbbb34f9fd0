-- ===== src/Services/WalrusTransitions.antt =====
-- How a cycle of src/relayer/src/services/walrus_sync.rs moves the messages from status to status.
use nautilus_messaging_relay.Common.{
  ℕ, String, true, ◌||◌, none, some, List, [], ◌∷◌, ◌==◌, nat_eq, is_empty, Result, ok, In, length,
  length-take, take, filter, ◌≤◌, ◌≡◌, ◌≢◌, ◌⊎◌, refl, sym, ap, ◌∙◌, arith, inl, inr, Bool-cases,
  Option-cases, Result-cases, ==→eq,
}
use mathlib.Core.Path.{subst}
use nautilus_messaging_relay.Common.Map.{lookup, lookup_of_In}
use nautilus_messaging_relay.Models.Message.{
  Uuid, Bytes, DateTime, Message, SyncStatus, sync_pending, synced, update_pending, updated,
  delete_pending, deleted,
}
use nautilus_messaging_relay.Storage.Counting.{Ready, entries-Ready}
use nautilus_messaging_relay.Storage.Invariant.{Stored, Stored_unique, IsValid}
use nautilus_messaging_relay.Storage.Memory.{
  InMemoryStorage, values, status_eq, get_messages_by_sync_status,
}
use nautilus_messaging_relay.Storage.Outcomes.{with_status}
use nautilus_messaging_relay.Walrus.Types.{
  WalrusError, QuiltStoreResponse, QuiltPatchMetadata, get_patch_id,
}
use nautilus_messaging_relay.Services.WalrusFrame.{besides, sync_cycle-besides}
use nautilus_messaging_relay.Services.WalrusSync.{
  identifier_of, patches_of, record_patches, sync_messages, sync_cycle,
}
use nautilus_messaging_relay.Services.WalrusUploads.{
  any_id, settled_in, record_patches-lookup, sync_messages-IsValid,
}

Ready-any_id :
    (s : InMemoryStorage) (q : SyncStatus) (k : Uuid) (m : Message) (ms : List Message)
    → Ready s q ms
    → Stored s k m
    → any_id k ms ≡ true
    → In m ms × (m.sync_status ≡ q)
Ready-any_id s q k m [] r st a = absurd (cc)
Ready-any_id s q k m (w ∷ ms) (here, e, apart, r) st a = elim (Bool-cases (k == w.id)) [
  | inl b ↦
      let same = Stored_unique s k w.id m w (==→eq k w.id b) st here in
      (inl same, ap (λ (x : Message). x.sync_status) same ∙ e)
  | inr b ↦ let (i, own) = Ready-any_id s q k m ms r st (ground arith) in (inr i, own)
]

take_le : {A : Type 0} (n : ℕ) (xs : List A) → length (take n xs) ≤ n
take_le n xs = omega (arith, length-take n xs)

module _ (show_uuid : Uuid → String) (to_vec : Message → Result String Bytes)
    (store_quilt : List (String × Bytes)
      → List QuiltPatchMetadata
      → Result WalrusError QuiltStoreResponse)
    (now : Uuid → DateTime) (batch_size : ℕ) where
  -- The message `m` under `k` was of the one status, in a batch of messages of this status whose
  -- upload, with the other status, the publisher answered with a patch for it; and `m'` is `m` with
  -- that status and that patch.
  abbrev pub Delivered : SyncStatus → SyncStatus → Uuid → Message → Message → Type 0
  Delivered from_status to_status k m m' =
      (batch : List Message) × (response : QuiltStoreResponse) × (patch : String) × In m batch
      × (length batch ≤ batch_size)
      × (m.sync_status ≡ from_status)
      × (store_quilt (patches_of show_uuid to_vec to_status batch).0
            (patches_of show_uuid to_vec to_status batch).1
          ≡ ok response)
      × (get_patch_id (identifier_of show_uuid k) response ≡ some patch)
      × (m' ≡ with_status (now k) to_status (some patch) m)

  -- What one upload makes of what stands under `k`.
  abbrev Uploaded : SyncStatus → SyncStatus → Uuid → InMemoryStorage → InMemoryStorage → Type 0
  Uploaded from_status to_status k s s' =
      (lookup k s.messages ≡ none → lookup k s'.messages ≡ none)
      × ((m : Message)
          → Stored s k m
          → (m' : Message) × Stored s' k m' × ((m' ≡ m) ⊎ Delivered from_status to_status k m m'))

  Uploaded-same :
      (from_status to_status : SyncStatus) (k : Uuid) (s : InMemoryStorage)
      → Uploaded from_status to_status k s s
  Uploaded-same from_status to_status k s = ((λ h. h), λ m st. (m, st, inl refl))

  record_patches-Uploaded :
      (from_status to_status : SyncStatus) (s : InMemoryStorage) (k : Uuid) (batch : List Message)
      (response : QuiltStoreResponse)
      → Ready s from_status batch
      → length batch ≤ batch_size
      → store_quilt
          (patches_of show_uuid to_vec to_status batch).0
          (patches_of show_uuid to_vec to_status batch).1
        ≡ ok response
      → Uploaded from_status to_status k s (record_patches show_uuid now to_status response batch s)
  record_patches-Uploaded from_status to_status s k batch response ready small answer =
      let after = record_patches-lookup show_uuid now to_status response batch s k in
      (
        (λ h. after ∙ ap (settled_in show_uuid now to_status response batch k) h),
        λ m st.
            let at = after ∙ ap (settled_in show_uuid now to_status response batch k) st in
            elim (Bool-cases (any_id k batch)) [
              | inr a ↦ (m, rw a at at, inl refl)
              | inl a ↦ elim (Option-cases (get_patch_id (identifier_of show_uuid k) response)) [
                | inl e ↦ (m, ground arith, inl refl)
                | inr (patch, e) ↦
                    let (i, own) = Ready-any_id s from_status k m batch ready st a in
                    (
                      with_status (now k) to_status (some patch) m,
                      ground arith,
                      inr (batch, response, patch, i, small, own, answer, e, refl),
                    )
              ]
            ],
      )

  sync_messages-Uploaded :
      (from_status to_status : SyncStatus) (s : InMemoryStorage) (k : Uuid)
      → IsValid s
      → Uploaded from_status to_status k s
          (sync_messages show_uuid to_vec store_quilt now batch_size from_status to_status s).0
  unfolding sync_messages get_messages_by_sync_status
  sync_messages-Uploaded from_status to_status s k v =
      let messages =
        take batch_size (filter (λ m. m.sync_status == from_status) (values s.messages)) in
      let (patches, metadata) = patches_of show_uuid to_vec to_status messages in
      let ready =
        entries-Ready s from_status batch_size s.messages v.distinct
          (λ k m i. let st = lookup_of_In k m s.messages v.distinct i in (st, v.keyed k m st)) in
      elim (Bool-cases (is_empty messages || is_empty patches)) [
        | inl b ↦ rw b (Uploaded-same from_status to_status k s)
        | inr b ↦ elim (Result-cases (store_quilt patches metadata)) [
          | inr (e, q) ↦ rw (b, q) (Uploaded-same from_status to_status k s)
          | inl (r, q) ↦
              rw (b, q)
                (record_patches-Uploaded from_status to_status s k messages r ready
                  (take_le batch_size
                    (filter (λ m. m.sync_status == from_status) (values s.messages)))
                  q)
        ]
      ]

  -- The message is as it was, or an upload delivered it, and moved it to the status behind its own.
  abbrev pub Progress : Uuid → Message → Message → Type 0
  Progress k m m' =
      (m' ≡ m)
      ⊎ Delivered sync_pending synced k m m'
      ⊎ Delivered update_pending updated k m m'
      ⊎ Delivered delete_pending deleted k m m'

  -- Only a message that waits for an upload is moved by it.
  unmoved :
      (from_status to_status : SyncStatus) (k : Uuid) (m m' : Message)
      → m.sync_status ≢ from_status
      → (m' ≡ m) ⊎ Delivered from_status to_status k m m'
      → m' ≡ m
  unmoved from_status to_status k m m' other (inl e) = e
  unmoved from_status to_status k m m' other (inr d) = absurd (other d.5)

  -- A message with a status that waits for nothing is moved by no later upload.
  all_uploads :
      (k : Uuid) (m m1 m2 m3 : Message)
      → (m1 ≡ m) ⊎ Delivered sync_pending synced k m m1
      → (m2 ≡ m1) ⊎ Delivered update_pending updated k m1 m2
      → (m3 ≡ m2) ⊎ Delivered delete_pending deleted k m2 m3
      → Progress k m m3
  all_uploads k m m1 m2 m3 (inl e) (inl f) (inl g) = inl (g ∙ f ∙ e)
  all_uploads k m m1 m2 m3 (inl e) (inl f) (inr d) =
      inr (inr (inr (subst (λ x. Delivered delete_pending deleted k x m3) (f ∙ e) d)))
  all_uploads k m m1 m2 m3 (inl e) (inr d) last =
      let own = ap (λ (x : Message). x.sync_status) d.8 in
      let g = unmoved delete_pending deleted k m2 m3 (λ w. cc) last in
      inr (
        inr (
          inl (
            subst (λ x. Delivered update_pending updated k x m3) e
              (subst (λ x. Delivered update_pending updated k m1 x) (sym g) d))))
  all_uploads k m m1 m2 m3 (inr d) next last =
      let own = ap (λ (x : Message). x.sync_status) d.8 in
      let f = unmoved update_pending updated k m1 m2 (λ w. cc) next in
      let own2 = ap (λ (x : Message). x.sync_status) f in
      let g = unmoved delete_pending deleted k m2 m3 (λ w. cc) last in
      inr (inl (subst (λ x. Delivered sync_pending synced k m x) (sym (g ∙ f)) d))

  -- A cycle on a valid store stores a message exactly where one was stored, and leaves the counters
  -- and the nonces. The message is as it was, or it waited for one of the three uploads, was in a
  -- batch that the publisher answered with a patch for it, and has just the status behind its own
  -- (`synced`, `updated` or `deleted`), that patch and the time changed.
  pub sync_cycle-Progress :
      (s : InMemoryStorage) (k : Uuid)
      → IsValid s
      → (besides (sync_cycle show_uuid to_vec store_quilt now batch_size s) ≡ besides s)
        × (((lookup k s.messages ≡ none)
              × (lookup k (sync_cycle show_uuid to_vec store_quilt now batch_size s).messages
                  ≡ none))
            ⊎ ((m : Message) × (m' : Message) × Stored s k m
                × Stored (sync_cycle show_uuid to_vec store_quilt now batch_size s) k m'
                × Progress k m m'))
  unfolding sync_cycle
  sync_cycle-Progress s k v =
      let upload = sync_messages show_uuid to_vec store_quilt now batch_size in
      let s1 = (upload sync_pending synced s).0 in
      let s2 = (upload update_pending updated s1).0 in
      let keeps = sync_messages-IsValid show_uuid to_vec store_quilt now batch_size in
      let v1 : IsValid s1 = keeps sync_pending synced s v in
      let (none1, some1) = sync_messages-Uploaded sync_pending synced s k v in
      let (none2, some2) = sync_messages-Uploaded update_pending updated s1 k v1 in
      let (none3, some3) =
        sync_messages-Uploaded delete_pending deleted s2 k (keeps update_pending updated s1 v1) in
      (
        sync_cycle-besides show_uuid to_vec store_quilt now batch_size s,
        elim (Option-cases (lookup k s.messages)) [
          | inl h ↦ inl (h, none3 (none2 (none1 h)))
          | inr (m, st) ↦
              let (m1, st1, c1) = some1 m st in
              let (m2, st2, c2) = some2 m1 st1 in
              let (m3, st3, c3) = some3 m2 st2 in
              inr (m, m3, st, st3, all_uploads k m m1 m2 m3 c1 c2 c3)
        ],
      )
