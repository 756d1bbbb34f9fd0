-- ===== src/Relayer/Invariant.antt =====
-- What holds of the relayer (src/relayer/src/main.rs) whatever comes in.
use nautilus_messaging_relay.Common.{
  ℕ, String, Bool, true, false, ◌||◌, Option, List, [], ◌∷◌, ◌==◌, nat_eq, ltb, ◌+◌, ◌%◌, ◌^◌,
  if◌then◌else◌, ok, ◌≡◌, arith, inl, inr, Bool-cases, Result-cases, ok-injective, suc, length, ◌<◌,
  refl, ◌∙◌, ap,
}
use mathlib.Core.Path.{subst}
use nautilus_messaging_relay.Storage.Invariant.{IsValid, new-IsValid}
use nautilus_messaging_relay.Common.Map.{lookup}
use nautilus_messaging_relay.Storage.Counters.{
  CountedTo, CountedTo-HasRoom, Advances, Advances-CountedTo,
}
use nautilus_messaging_relay.Storage.Memory.{InMemoryStorage}
use nautilus_messaging_relay.Config.{from_env, create_storage, StorageType}
use nautilus_messaging_relay.Handlers.Validity.{Roomy, serve-IsValid, serve-Advances}
use nautilus_messaging_relay.Services.WalrusSync
use nautilus_messaging_relay.Services.WalrusSync.{
  Wake, tick, notified, closed, Worker, turn, service_batch_size,
}
use nautilus_messaging_relay.Services.WalrusFrame.{sync_cycle-besides}
use nautilus_messaging_relay.Services.WalrusUploads.{sync_cycle-IsValid}
use nautilus_messaging_relay.Services.WalrusDelivery.{upload}
use nautilus_messaging_relay.Relayer.{
  Relayer, Input, request, checkpoint, wake, configured, cycle, walrus_client, start, step, run,
}

-- What a cycle keeps of the store, a turn of the worker keeps.
module _ (c : InMemoryStorage → InMemoryStorage) (Q : InMemoryStorage → Type 0)
    (keep : (s : InMemoryStorage) → Q s → Q (c s)) (threshold : ℕ) where
  turn_inv : (w : Wake) (worker : Worker) → Q worker.storage → Q (turn c threshold w worker).storage
  unfolding turn
  turn_inv tick worker q = keep worker.storage q
  turn_inv notified worker q =
      elim (Bool-cases (threshold == 0 || ltb ((worker.message_count + 1) % 2 ^ 64) threshold)) [
        | inl b ↦ rw b q
        | inr b ↦ rw b (keep worker.storage q)
      ]
  turn_inv closed worker q = q

  woken_inv :
      (w : Wake) (worker : Worker)
      → Q worker.storage
      → Q (WalrusSync.run c threshold (w ∷ []) worker).storage
  unfolding WalrusSync.run
  woken_inv w worker q =
      either worker.running (turn c threshold w worker) worker (turn_inv w worker q) q
    where
      either :
          (b : Bool) (x y : Worker) → Q x.storage → Q y.storage → Q (if b then x else y).storage
      either true x y p q = p
      either false x y p q = q

step-IsValid :
    (input : Input) (r : Relayer)
    → IsValid r.app_state.storage
    → Roomy r.app_state.storage
    → IsValid (step input r).app_state.storage
unfolding step
step-IsValid (request env route req) r v room =
    serve-IsValid (configured env r) req r.app_state route v room
step-IsValid (checkpoint decoder response) r v room = v
step-IsValid (wake u w) r v room =
    let batch_size = service_batch_size r.config.walrus_sync_batch_size in
    woken_inv (cycle u r.config) IsValid
      (sync_cycle-IsValid u.show_uuid u.to_vec
        (upload u.http (walrus_client r.config) r.config.walrus_storage_epochs u.show_uuid u.to_vec
          u.now batch_size)
        u.now batch_size)
      r.config.walrus_sync_message_threshold w _ v

-- An input moves at most one counter of a group, by one.
step-Advances :
    (input : Input) (r : Relayer) → Advances r.app_state.storage (step input r).app_state.storage
unfolding step
step-Advances (request env route req) r = serve-Advances (configured env r) req r.app_state route
step-Advances (checkpoint decoder response) r = inl refl
step-Advances (wake u w) r =
    let batch_size = service_batch_size r.config.walrus_sync_batch_size in
    inl (
      woken_inv (cycle u r.config) (λ s. s.group_orders ≡ r.app_state.storage.group_orders)
        (λ s e.
          ap (λ b. b.0)
            (sync_cycle-besides u.show_uuid u.to_vec
              (upload u.http (walrus_client r.config) r.config.walrus_storage_epochs u.show_uuid
                u.to_vec u.now batch_size)
              u.now batch_size s)
          ∙ e)
        r.config.walrus_sync_message_threshold w _ refl)

run-IsValid :
    (inputs : List Input) (n : ℕ) (r : Relayer)
    → IsValid r.app_state.storage
    → CountedTo n r.app_state.storage
    → n + length inputs < 2 ^ 63
    → IsValid (run inputs r).app_state.storage
unfolding run
run-IsValid [] n r v c few = v
run-IsValid (input ∷ inputs) n r v c few =
    let below : n + 1 < 2 ^ 63 = omega arith in
    run-IsValid inputs (suc n) (step input r)
      (step-IsValid input r v (CountedTo-HasRoom n r.app_state.storage below c))
      (Advances-CountedTo n r.app_state.storage (step input r).app_state.storage v below c
        (step-Advances input r))
      (omega arith)

create_storage-IsValid : (t : StorageType) → IsValid (create_storage t)
unfolding create_storage
create_storage-IsValid StorageType.in_memory = new-IsValid

create_storage-CountedTo : (t : StorageType) → CountedTo 0 (create_storage t)
unfolding create_storage lookup
create_storage-CountedTo StorageType.in_memory g c e = absurd (cc)

-- From its start, whatever requests, checkpoints and wake-ups come in, in whatever order, and whatever
-- the publisher answers, the store of the relayer is valid, as long as fewer than 2 ^ 63 of them came in.
pub run-start-IsValid :
    (to_lowercase : String → String) (env : String → Option String) (r : Relayer)
    (inputs : List Input)
    → start to_lowercase env ≡ ok r
    → length inputs < 2 ^ 63
    → IsValid (run inputs r).app_state.storage
unfolding start
run-start-IsValid to_lowercase env r inputs h few =
    elim (Result-cases (from_env to_lowercase env)) [
      | inr (e, q) ↦ absurd (ground arith)
      | inl (c, q) ↦
          let made = ok-injective (rw (q, start) at h) in
          run-IsValid inputs 0 r
            (subst (λ (x : Relayer). IsValid x.app_state.storage) made
              (create_storage-IsValid c.storage_type))
            (subst (λ (x : Relayer). CountedTo 0 x.app_state.storage) made
              (create_storage-CountedTo c.storage_type))
            (omega arith)
    ]
