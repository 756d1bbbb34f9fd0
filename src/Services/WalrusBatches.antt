-- ===== src/Services/WalrusBatches.antt =====
-- What one upload of src/relayer/src/services/walrus_sync.rs does to the number of messages of each status.
use nautilus_messaging_relay.Common.{
  ℕ, suc, ◌+◌, String, Bool, true, false, some, List, [], ◌∷◌, ◌==◌, is_empty, Result, ok, All, In,
  length, take, filter, min, length-take, ◌≡◌, ◌≢◌, ◌⊎◌, refl, sym, ap, ◌∙◌, arith, inl, inr,
  nat_eq, if◌then◌else◌, ==_ne, ==_refl,
}
use mathlib.Core.Path.{subst}
use nautilus_messaging_relay.Common.Map.{lookup_of_In}
use nautilus_messaging_relay.Models.Message.{Uuid, Bytes, DateTime, Message, SyncStatus}
use nautilus_messaging_relay.Storage.Ascending.{All-of_In}
use nautilus_messaging_relay.Storage.Counting.{
  has_status, bit, count, count-insert, length-filter_count, Ready, Ready-written, entries-Ready,
}
use nautilus_messaging_relay.Storage.Invariant.{Stored_unique, IsValid}
use nautilus_messaging_relay.Storage.Memory.{
  InMemoryStorage, values, status_eq, get_messages_by_sync_status,
}
use nautilus_messaging_relay.Storage.Outcomes.{update_sync_status-cases, with_status}
use nautilus_messaging_relay.Storage.Writing.{written}
use nautilus_messaging_relay.Walrus.Types.{
  WalrusError, QuiltStoreResponse, QuiltPatchMetadata, get_patch_id,
}
use nautilus_messaging_relay.Services.WalrusSync.{
  identifier_of, patches_of, record_patches, sync_messages,
}

List-cases : {A : Type 0} (xs : List A) → (xs ≡ []) ⊎ ((x : A) × (ys : List A) × (xs ≡ x ∷ ys))
List-cases [] = inl refl
List-cases (x ∷ xs) = inr (x, xs, refl)

is_empty_ne : {A : Type 0} (xs : List A) → xs ≢ [] → is_empty xs ≡ false
is_empty_ne [] h = absurd (h refl)
is_empty_ne (x ∷ xs) h = refl

taken :
    (b : Bool) (n x y z : ℕ)
    → x + (if b then n else 0) ≡ y
    → y + bit b ≡ z
    → x + (if b then suc n else 0) ≡ z
taken true n x y z h k = omega arith
taken false n x y z h k = omega arith

one_more : (a b c : Bool) (y z : ℕ) → a ≡ b → c ≡ false → y + bit a ≡ z + bit c → y + bit b ≡ z
one_more a b c y z e f h = ground arith

module _ (show_uuid : Uuid → String) (now : Uuid → DateTime) (response : QuiltStoreResponse)
    (from_status to_status : SyncStatus) where
  -- Each message has a patch in the answer.
  abbrev pub Patched : List Message → Type 0
  Patched = All (λ (m : Message).
      (p : String) × (get_patch_id (identifier_of show_uuid m.id) response ≡ some p))

  -- Writing the statuses back takes every message of the batch from the one status to the other.
  count-record_patches :
      (q : SyncStatus) (ms : List Message) (s : InMemoryStorage)
      → q ≢ to_status
      → Ready s from_status ms
      → Patched ms
      → count q (record_patches show_uuid now to_status response ms s).messages
          + (if from_status == q then length ms else 0)
        ≡ count q s.messages
  unfolding record_patches
  count-record_patches q [] s ne r p = ground arith
  count-record_patches q (m ∷ ms) s ne (st, e, apart, r) ((patch, w), p) =
      elim (update_sync_status-cases (now m.id) m.id to_status (some patch) s) [
        | inl (absent, u) ↦ absurd (cc)
        | inr (m', st', u) ↦
            let m1 = with_status (now m.id) to_status (some patch) m' in
            let s1 = written s m.id m1 s.nonces in
            let old : (m'.sync_status == q) ≡ (from_status == q) =
              ap (λ (x : SyncStatus). x == q)
                (ap (λ (x : Message). x.sync_status) (Stored_unique s m.id m.id m' m refl st' st)
                  ∙ e) in
            let one = count-insert q m.id m' m1 s.messages st' in
            let other = ==_ne to_status q (λ t. ne (sym t)) in
            let rest =
              count-record_patches q ms s1 ne
                (Ready-written s m.id m1 s.nonces from_status ms apart r) p in
            rw (w, record_patches, u)
              (taken (from_status == q) (length ms) _ _ _ rest (one_more _ _ _ _ _ old other one))
      ]

module _ (show_uuid : Uuid → String) (to_vec : Message → Result String Bytes)
    (store_quilt : List (String × Bytes)
      → List QuiltPatchMetadata
      → Result WalrusError QuiltStoreResponse)
    (now : Uuid → DateTime) (batch_size : ℕ) where
  -- Every message can be serialized, and the publisher answers with a patch for each one it is sent.
  pub record Works : Type 0 where
    pub serializes : (m : Message) → (b : Bytes) × (to_vec m ≡ ok b)
    pub answers :
        (patches : List (String × Bytes)) (metadata : List QuiltPatchMetadata)
        → patches ≢ []
        → (r : QuiltStoreResponse) × (store_quilt patches metadata ≡ ok r)
          × ((name : String) (b : Bytes)
              → In (name, b) patches
              → (p : String) × (get_patch_id name r ≡ some p))

  module _ (works : Works) (to_status : SyncStatus) where
    In-patches_of :
        (m : Message) (ms : List Message)
        → In m ms
        → (b : Bytes) × In
            (identifier_of show_uuid m.id, b)
            (patches_of show_uuid to_vec to_status ms).0
    unfolding patches_of
    In-patches_of m [] i = absurd i
    In-patches_of m (w ∷ ms) i =
        let (b, e) = works.serializes (record w { sync_status = to_status }) in
        rw (patches_of, e)
          (elim i [
            | inl p ↦ (b, inl (ap (λ (x : Message). (identifier_of show_uuid x.id, b)) p))
            | inr j ↦ let (b', k) = In-patches_of m ms j in (b', inr k)
          ])

    patches_of_ne :
        (m : Message) (ms : List Message) → (patches_of show_uuid to_vec to_status (m ∷ ms)).0 ≢ []
    patches_of_ne m ms e =
        let (b, i) = In-patches_of m (m ∷ ms) (inl refl) in absurd (subst (In _) e i)

    -- The messages that an upload reads.
    abbrev batch : SyncStatus → InMemoryStorage → List Message
    batch from_status s = take batch_size (filter (has_status from_status) (values s.messages))

    length-batch :
        (from_status : SyncStatus) (s : InMemoryStorage)
        → length (batch from_status s) ≡ min batch_size (count from_status s.messages)
    length-batch from_status s =
        length-take batch_size _ ∙ ap (min batch_size) (length-filter_count from_status s.messages)

    sync_messages_none :
        (from_status : SyncStatus) (s : InMemoryStorage)
        → batch from_status s ≡ []
        → (sync_messages show_uuid to_vec store_quilt now batch_size from_status to_status s).0 ≡ s
    unfolding sync_messages get_messages_by_sync_status
    sync_messages_none from_status s e = rw e refl

    sync_messages_some :
        (from_status : SyncStatus) (s : InMemoryStorage) (m : Message) (ms : List Message)
        → batch from_status s ≡ m ∷ ms
        → (r : QuiltStoreResponse) × Patched show_uuid now r from_status to_status (m ∷ ms)
          × ((sync_messages show_uuid to_vec store_quilt now batch_size from_status to_status s).0
              ≡ record_patches show_uuid now to_status r (m ∷ ms) s)
    unfolding sync_messages get_messages_by_sync_status
    sync_messages_some from_status s m ms e =
        let patches = (patches_of show_uuid to_vec to_status (m ∷ ms)).0 in
        let ne = patches_of_ne m ms in
        let (r, p, each) =
          works.answers patches (patches_of show_uuid to_vec to_status (m ∷ ms)).1 ne in
        (
          r,
          All-of_In (m ∷ ms) (λ w i.
              let (b, j) = In-patches_of w (m ∷ ms) i in each (identifier_of show_uuid w.id) b j),
          rw (e, is_empty_ne patches ne, p)
              (ap (λ ms'. record_patches show_uuid now to_status r ms' s) e),
        )

    -- An upload takes the first messages of its status, as many as a batch has, to the new status, and
    -- no other message changes its status.
    sync_messages-count :
        (from_status q : SyncStatus) (s : InMemoryStorage)
        → IsValid s
        → q ≢ to_status
        → count q
              (sync_messages show_uuid to_vec store_quilt now batch_size from_status to_status
                s).0.messages
            + (if from_status == q then min batch_size (count from_status s.messages) else 0)
          ≡ count q s.messages
    sync_messages-count from_status q s v ne =
        let ready =
          entries-Ready s from_status batch_size s.messages v.distinct
            (λ k m i. let st = lookup_of_In k m s.messages v.distinct i in (st, v.keyed k m st)) in
        rw (← length-batch from_status s) (elim (List-cases (batch from_status s)) [
          | inl e ↦ rw (sync_messages_none from_status s e, e) (ground arith)
          | inr (m, ms, e) ↦
              let (r, patched, u) = sync_messages_some from_status s m ms e in
              rw (u, e)
                (count-record_patches show_uuid now r from_status to_status q (m ∷ ms) s ne
                  (subst (Ready s from_status) e ready) patched)
        ])

    pub sync_messages-kept :
        (from_status q : SyncStatus) (s : InMemoryStorage)
        → IsValid s
        → q ≢ to_status
        → from_status ≢ q
        → count q
            (sync_messages show_uuid to_vec store_quilt now batch_size from_status to_status
              s).0.messages
          ≡ count q s.messages
    sync_messages-kept from_status q s v ne apart =
        let total = sync_messages-count from_status q s v ne in
        omega (arith, rw (==_ne from_status q apart) at total)

    pub sync_messages-taken :
        (q : SyncStatus) (s : InMemoryStorage)
        → IsValid s
        → q ≢ to_status
        → count q
              (sync_messages show_uuid to_vec store_quilt now batch_size q to_status s).0.messages
            + min batch_size (count q s.messages)
          ≡ count q s.messages
    sync_messages-taken q s v ne =
        let total = sync_messages-count q q s v ne in rw (==_refl q) at total
