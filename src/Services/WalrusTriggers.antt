-- ===== src/Services/WalrusTriggers.antt =====
-- When the loop of src/relayer/src/services/walrus_sync.rs uploads.
use nautilus_messaging_relay.Common.{
  ℕ, zero, suc, ◌+◌, ◌*◌, ◌<◌, ◌^◌, ◌≡◌, refl, sym, ◌∙◌, ap, true, List, [], ◌∷◌, ◌++◌, arith,
}
use nautilus_messaging_relay.Storage.Memory.{InMemoryStorage}
use nautilus_messaging_relay.Services.WalrusSync.{Wake, notified, Worker, turn, run}

abbrev pub notifications : ℕ → List Wake
notifications zero = []
notifications (suc n) = notified ∷ notifications n

suc_add : (a b : ℕ) → suc a + b ≡ suc (a + b)
suc_add a b = omega arith

notifications_add : (a b : ℕ) → notifications (a + b) ≡ notifications a ++ notifications b
notifications_add zero b = ap notifications (omega arith)
notifications_add (suc a) b =
    ap notifications (suc_add a b) ∙ ap (◌∷◌ notified) (notifications_add a b)

abbrev pub repeated : {A : Type 0} → ℕ → (A → A) → A → A
repeated zero f a = a
repeated (suc n) f a = repeated n f (f a)

append_nil : {A : Type 0} (xs : List A) → xs ++ [] ≡ xs
append_nil [] = refl
append_nil (x ∷ xs) = ap (◌∷◌ x) (append_nil xs)

predecessor : (t : ℕ) → 0 < t → (p : ℕ) × (t ≡ suc p)
predecessor zero h = absurd (omega arith)
predecessor (suc p) h = (p, refl)

zero_times : (t r : ℕ) → 0 * t + r ≡ r
zero_times t r = ground arith

suc_times : (q t r p : ℕ) → t ≡ suc p → suc q * t + r ≡ suc p + (q * t + r)
suc_times q t r p e = ground arith

module _ (cycle : InMemoryStorage → InMemoryStorage) where
  abbrev pub waiting : InMemoryStorage → ℕ → Worker
  waiting s n = record { storage = s; message_count = n; running = true }

  module _ (t : ℕ) (positive : 0 < t) (bounded : t < 2 ^ 64) where
    turn_below :
        (s : InMemoryStorage) (n : ℕ)
        → suc n < t
        → turn cycle t notified (waiting s n) ≡ waiting s (suc n)
    unfolding turn
    turn_below s n lt = ground arith

    turn_at :
        (s : InMemoryStorage) (n : ℕ)
        → suc n ≡ t
        → turn cycle t notified (waiting s n) ≡ waiting (cycle s) 0
    unfolding turn
    turn_at s n e = ground arith

    -- Short of the threshold, the notifications are counted.
    run_below :
        (s : InMemoryStorage) (n j : ℕ) (w : List Wake)
        → n + j < t
        → run cycle t (notifications j ++ w) (waiting s n) ≡ run cycle t w (waiting s (n + j))
    unfolding run
    run_below s n zero w lt = ap (λ x. run cycle t w (waiting s x)) (omega arith)
    run_below s n (suc j) w lt =
        ap (run cycle t (notifications j ++ w)) (turn_below s n (omega arith))
        ∙ run_below s (suc n) j w (omega arith)
        ∙ ap (λ x. run cycle t w (waiting s x)) (omega arith)

    -- The notification that reaches the threshold runs one cycle.
    run_full :
        (s : InMemoryStorage) (n j : ℕ) (w : List Wake)
        → n + suc j ≡ t
        → run cycle t (notifications (suc j) ++ w) (waiting s n)
          ≡ run cycle t w (waiting (cycle s) 0)
    unfolding run
    run_full s n zero w e = ap (run cycle t w) (turn_at s n (omega arith))
    run_full s n (suc j) w e =
        ap (run cycle t (notifications (suc j) ++ w)) (turn_below s n (omega arith))
        ∙ run_full s (suc n) j w (omega arith)

    -- With a threshold `t` of at least 1 and below 2^64, the worker runs one cycle for every `t` notifications and starts to
    -- count again after each: after `q * t + r` of them, for `r` below `t`, it has run `q` cycles and
    -- its count is `r`.
    pub run-notifications :
        (s : InMemoryStorage) (q r : ℕ)
        → r < t
        → run cycle t (notifications (q * t + r)) (waiting s 0) ≡ waiting (repeated q cycle s) r
    unfolding run
    run-notifications s zero r lt =
        ap (λ x. run cycle t x (waiting s 0))
          (ap notifications (zero_times t r) ∙ sym (append_nil (notifications r)))
        ∙ run_below s 0 r [] (omega arith)
        ∙ ap (waiting s) (omega arith)
    run-notifications s (suc q) r lt =
        let (p, e) = predecessor t positive in
        ap (λ x. run cycle t x (waiting s 0))
          (ap notifications (suc_times q t r p e) ∙ notifications_add (suc p) (q * t + r))
        ∙ run_full s 0 p (notifications (q * t + r)) (omega arith)
        ∙ run-notifications (cycle s) q r lt
