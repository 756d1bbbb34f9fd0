-- ===== src/Enclave/Logs.antt =====
-- What the ring buffer of src/relayer/src/enclave.rs holds and shows.
use nautilus_messaging_relay.Common.{
  ℕ, zero, suc, ◌+◌, ◌-◌, ◌≤◌, ◌<◌, String, ◌≡◌, refl, sym, ◌∙◌, ap, List, [], ◌∷◌, ◌++◌, arith,
  length, take, drop, min, length-append, length-drop, take-append-drop, take_all, Bool-cases, inl,
  inr, leb,
}
use mathlib.Core.List.{
  reverse, reverse-append, reverse-reverse, reverse-cons, append_assoc, append-nil,
}
use nautilus_messaging_relay.Enclave.LogBuffer.{LogBuffer, new, push, recent}

zero_add : (m : ℕ) → m ≡ 0 + m
zero_add m = omega arith

suc_add : (n m : ℕ) → suc (n + m) ≡ suc n + m
suc_add n m = omega arith

module _ {A : Type 0} where
  drop_nil : (n : ℕ) → drop {A = A} n [] ≡ []
  drop_nil zero = refl
  drop_nil (suc n) = refl

  drop-drop : (m n : ℕ) (xs : List A) → drop m (drop n xs) ≡ drop (n + m) xs
  drop-drop m zero xs = ap (λ k. drop k xs) (zero_add m)
  drop-drop m (suc n) [] = drop_nil m ∙ sym (drop_nil (suc n + m))
  drop-drop m (suc n) (x ∷ xs) = drop-drop m n xs ∙ ap (λ k. drop k (x ∷ xs)) (suc_add n m)

  drop-append : (n : ℕ) (xs ys : List A) → n ≤ length xs → drop n (xs ++ ys) ≡ drop n xs ++ ys
  drop-append zero xs ys h = refl
  drop-append (suc n) [] ys h = absurd (omega arith)
  drop-append (suc n) (x ∷ xs) ys h = drop-append n xs ys (omega arith)

  take-append : (xs ys : List A) (n : ℕ) → n ≡ length xs → take n (xs ++ ys) ≡ xs
  take-append [] ys zero h = refl
  take-append [] ys (suc n) h = absurd (omega arith)
  take-append (x ∷ xs) ys zero h = absurd (omega arith)
  take-append (x ∷ xs) ys (suc n) h = ap (◌∷◌ x) (take-append xs ys n (omega arith))

  length-reverse : (xs : List A) → length (reverse xs) ≡ length xs
  length-reverse [] = refl
  length-reverse (x ∷ xs) =
      ap length (reverse-cons x xs)
      ∙ length-append (reverse xs) (x ∷ [])
      ∙ ground (arith, length-reverse xs)

  drop_zero : (n : ℕ) (xs : List A) → n ≡ 0 → drop n xs ≡ xs
  drop_zero zero xs h = refl
  drop_zero (suc n) xs h = absurd (omega arith)

  -- The last `n` entries of a list.
  reverse-take : (n : ℕ) (xs : List A) → reverse (take n (reverse xs)) ≡ drop (length xs - n) xs
  reverse-take n xs = elim (Bool-cases (leb (length xs) n)) [
    | inl h ↦
        ap reverse (take_all n (reverse xs) (ground (arith, length-reverse xs)))
        ∙ reverse-reverse xs
        ∙ sym (drop_zero (length xs - n) xs (ground arith))
    | inr h ↦
        let m = length xs - n in
        let parts : reverse xs ≡ reverse (drop m xs) ++ reverse (take m xs) =
          ap reverse (sym (take-append-drop m xs)) ∙ reverse-append (take m xs) (drop m xs) in
        ap (λ ys. reverse (take n ys)) parts
        ∙ ap reverse (
            take-append (reverse (drop m xs)) (reverse (take m xs)) n
              (ground (arith, length-reverse (drop m xs), length-drop m xs)))
        ∙ reverse-reverse (drop m xs)
  ]

abbrev pub push_all : List String → LogBuffer → LogBuffer
push_all [] b = b
push_all (line ∷ lines) b = push_all lines (push line b)

-- The buffer of capacity `n` after the lines `l` were pushed.
abbrev holding : ℕ → List String → LogBuffer
holding n l = record { lines = drop (length l - n) l; capacity = n }

full :
    (n : ℕ) (l : List String) (line : String)
    → 1 ≤ n
    → n ≤ length l
    → drop 1 (drop (length l - n) l) ++ line ∷ []
      ≡ drop (length (l ++ line ∷ []) - n) (l ++ line ∷ [])
full n l line h k =
    let m = length l - n in
    let e : m + 1 ≡ length (l ++ line ∷ []) - n = ground (arith, length-append l (line ∷ [])) in
    ap (λ ls. ls ++ line ∷ []) (drop-drop 1 m l)
    ∙ sym (drop-append (m + 1) l (line ∷ []) (ground arith))
    ∙ ap (λ k. drop k (l ++ line ∷ [])) e

spare :
    (n : ℕ) (l : List String) (line : String)
    → length l < n
    → drop (length l - n) l ++ line ∷ [] ≡ drop (length (l ++ line ∷ []) - n) (l ++ line ∷ [])
spare n l line k =
    ap (λ ls. ls ++ line ∷ []) (drop_zero (length l - n) l (omega arith))
    ∙ sym (
        drop_zero (length (l ++ line ∷ []) - n) (l ++ line ∷ [])
          (omega (arith, length-append l (line ∷ []))))

push-holding :
    (n : ℕ) (l : List String) (line : String)
    → 1 ≤ n
    → push line (holding n l) ≡ holding n (l ++ line ∷ [])
unfolding push
push-holding n l line h = elim (Bool-cases (leb n (length (drop (length l - n) l)))) [
  | inl b ↦ rw b (
      ap (λ ls. record { lines = ls; capacity = n })
        (full n l line h (ground (arith, length-drop (length l - n) l))))
  | inr b ↦ rw b (
      ap (λ ls. record { lines = ls; capacity = n })
        (spare n l line (ground (arith, length-drop (length l - n) l))))
]

push_all-holding :
    (n : ℕ) (l lines : List String) → 1 ≤ n → push_all lines (holding n l) ≡ holding n (l ++ lines)
push_all-holding n l [] h = ap (holding n) (sym (append-nil l))
push_all-holding n l (line ∷ lines) h =
    ap (push_all lines) (push-holding n l line h)
    ∙ push_all-holding n (l ++ line ∷ []) lines h
    ∙ ap (holding n) (append_assoc l (line ∷ []) lines)

last_lines :
    (capacity n : ℕ) (lines : List String)
    → (length lines - capacity) + (length (drop (length lines - capacity) lines) - n)
      ≡ length lines - min n capacity
last_lines capacity n lines = omega (arith, length-drop (length lines - capacity) lines)

-- A buffer of at least one line shows, of the lines that were pushed, the last ones in their order:
-- as many as are asked for, and no more than its capacity.
pub recent-push_all :
    (capacity n : ℕ) (lines : List String)
    → 1 ≤ capacity
    → recent n (push_all lines (new capacity)) ≡ drop (length lines - min n capacity) lines
unfolding recent
recent-push_all capacity n lines h =
    let kept = drop (length lines - capacity) lines in
    ap (λ ls. recent n (push_all lines (record { lines = ls; capacity = capacity })))
      (sym (drop_nil (length {A = String} [] - capacity)))
    ∙ ap (recent n) (push_all-holding capacity [] lines h)
    ∙ reverse-take n kept
    ∙ drop-drop (length kept - n) (length lines - capacity) lines
    ∙ ap (λ k. drop k lines) (last_lines capacity n lines)
