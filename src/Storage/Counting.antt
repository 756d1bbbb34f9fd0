-- ===== src/Storage/Counting.antt =====
-- How many stored messages have a status (src/relayer/src/storage/memory.rs), and what a batch of them is.
use nautilus_messaging_relay.Common.{
  ℕ, zero, suc, ◌+◌, ◌<◌, Bool, some, List, [], ◌∷◌, ◌==◌, nat_eq, ◌≡◌, ◌≢◌, refl, sym, ◌∙◌, arith,
  inl, inr, All, In, In-take, In-filter→, filter, take, length, Bool-cases, ==→eq, if◌then◌else◌,
}
use mathlib.Core.Path.{subst}
use nautilus_messaging_relay.Common.Map.{lookup, insert, DistinctKeys}
use nautilus_messaging_relay.Models.Message.{Uuid, Bytes, Message, SyncStatus}
use nautilus_messaging_relay.Storage.Ascending.{All-of_In}
use nautilus_messaging_relay.Storage.Invariant.{Stored}
use nautilus_messaging_relay.Storage.Memory.{InMemoryStorage, values, status_eq}
use nautilus_messaging_relay.Storage.Paging.{In-values, absent_ne}
use nautilus_messaging_relay.Storage.Writing.{written, Stored_other}

abbrev pub has_status : SyncStatus → Message → Bool
has_status q m = m.sync_status == q

abbrev pub bit : Bool → ℕ
bit b = if b then 1 else 0

-- The number of messages with the status.
abbrev pub count : SyncStatus → List (Uuid × Message) → ℕ
count q [] = 0
count q ((k, m) ∷ es) = bit (has_status q m) + count q es

-- Writing a message in the place of another moves the count from the old status to the new one.
pub count-insert :
    (q : SyncStatus) (k : Uuid) (m m' : Message) (es : List (Uuid × Message))
    → lookup k es ≡ some m
    → count q (insert k m' es) + bit (has_status q m) ≡ count q es + bit (has_status q m')
unfolding lookup insert
count-insert q k m m' [] h = absurd (cc)
count-insert q k m m' ((j, w) ∷ es) h = ground (arith, count-insert q k m m' es)

-- Where a message has the status, the count is not 0.
pub count_pos :
    (q : SyncStatus) (k : Uuid) (m : Message) (es : List (Uuid × Message))
    → lookup k es ≡ some m
    → m.sync_status ≡ q
    → 0 < count q es
unfolding lookup
count_pos q k m [] h e = absurd (cc)
count_pos q k m ((j, w) ∷ es) h e = ground (arith, count_pos q k m es)

pub length-filter_count :
    (q : SyncStatus) (es : List (Uuid × Message))
    → length (filter (has_status q) (values es)) ≡ count q es
length-filter_count q [] = refl
length-filter_count q ((k, m) ∷ es) = ground (arith, length-filter_count q es)

module _ (s : InMemoryStorage) (from_status : SyncStatus) where
  -- Stored messages of the status, each under its own identifier, and no two under one.
  abbrev pub Ready : List Message → Type 0
  Ready [] = Unit
  Ready (m ∷ ms) =
      Stored s m.id m
      × (m.sync_status ≡ from_status)
      × All (λ (w : Message). w.id ≢ m.id) ms
      × Ready ms

  pub entries-Ready :
      (n : ℕ) (es : List (Uuid × Message))
      → DistinctKeys es
      → ((k : Uuid) (m : Message) → In (k, m) es → Stored s k m × (m.id ≡ k))
      → Ready (take n (filter (has_status from_status) (values es)))
  entries-Ready zero es d f = tt
  entries-Ready (suc n) [] d f = tt
  entries-Ready (suc n) ((j, w) ∷ es) (absent, d) f = elim (Bool-cases (has_status from_status w)) [
    | inr out ↦ rw out (entries-Ready (suc n) es d (λ k m i. f k m (inr i)))
    | inl here ↦
        let (st, own) = f j w (inl refl) in
        rw here (
          subst (λ k. Stored s k w) (sym own) st,
          ==→eq w.sync_status from_status here,
          All-of_In _ (λ z i p.
              let (i', has) = In-filter→ (has_status from_status) z (values es) (In-take n z _ i) in
              let (k, i'') = (In-values z es).0 i' in
              absent_ne j k z es d absent (sym own ∙ sym p ∙ (f k z (inr i'')).1) i''),
          entries-Ready n es d (λ k m i. f k m (inr i)),
        )
  ]

module _ (s : InMemoryStorage) (k : Uuid) (m : Message) (ns : List Bytes) (q : SyncStatus) where
  pub Ready-written :
      (ms : List Message)
      → All (λ (w : Message). w.id ≢ k) ms
      → Ready s q ms
      → Ready (written s k m ns) q ms
  Ready-written [] a h = tt
  Ready-written (w ∷ ms) (a, rest) (st, e, apart, hs) =
      (Stored_other s k m ns w.id w a st, e, apart, Ready-written ms rest hs)
