-- ===== src/Storage/Ascending.antt =====
-- Lists that ascend strictly by a signed key, and the sort that makes them.
use nautilus_messaging_relay.Common.{
  ℤ, ltb_ℤ, ◌<ℤ◌, List, [], ◌∷◌, ◌++◌, All, In, In-append, ◌∙◌, ◌≡◌, ◌≢◌, ◌⊎◌, ◌↔◌, inl, inr, refl,
  sym, ap, arith, ltb→lt, Bool-cases, eq_of_parts,
}
use mathlib.Core.Path.{ap₂, subst}
use nautilus_messaging_relay.Storage.Sorting.{insert_by_key, sort_by_key}

<ℤ_trans : (a b c : ℤ) → a <ℤ b → b <ℤ c → a <ℤ c
<ℤ_trans a b c h k = omega arith

<ℤ_asym : (a b : ℤ) → a <ℤ b → ¬ (b <ℤ a)
<ℤ_asym a b h = omega arith

<ℤ_irrefl : (a b : ℤ) → a ≡ b → ¬ (a <ℤ b)
<ℤ_irrefl a b e = rw e (omega arith)

module _ {A : Type 0} (key : A → ℤ) where
  abbrev pub Ascending : List A → Type 0
  Ascending [] = Unit
  Ascending (x ∷ xs) = All (λ y. key x <ℤ key y) xs × Ascending xs

  -- No two elements have the same key.
  abbrev pub DistinctBy : List A → Type 0
  DistinctBy [] = Unit
  DistinctBy (x ∷ xs) = All (λ y. key x ≢ key y) xs × DistinctBy xs

module _ {A : Type 0} {P Q : A → Type 0} where
  pub All-imp : ((x : A) → P x → Q x) → (xs : List A) → All P xs → All Q xs
  All-imp f [] h = tt
  All-imp f (x ∷ xs) (h, hs) = (f x h, All-imp f xs hs)

module _ {A : Type 0} {P Q R : A → Type 0} where
  pub All-imp₂ : ((x : A) → P x → Q x → R x) → (xs : List A) → All P xs → All Q xs → All R xs
  All-imp₂ f [] h k = tt
  All-imp₂ f (x ∷ xs) (h, hs) (k, ks) = (f x h k, All-imp₂ f xs hs ks)

module _ {A : Type 0} {P : A → Type 0} where
  pub All-of_In : (xs : List A) → ((x : A) → In x xs → P x) → All P xs
  All-of_In [] h = tt
  All-of_In (x ∷ xs) h = (h x (inl refl), All-of_In xs (λ y i. h y (inr i)))

module _ {A : Type 0} (P : A → Type 0) where
  pub In_of_All : (xs : List A) → All P xs → (x : A) → In x xs → P x
  In_of_All [] h x i = absurd i
  In_of_All (y ∷ ys) (h, hs) x i = elim i [ inl p ↦ rw p h | inr q ↦ In_of_All ys hs x q ]

module _ {A : Type 0} (key : A → ℤ) where
  -- Insertion adds the element and nothing else.
  pub All-insert_by_key :
      (P : A → Type 0) (x : A) (ys : List A) → P x → All P ys → All P (insert_by_key key x ys)
  unfolding insert_by_key
  All-insert_by_key P x [] p h = (p, tt)
  All-insert_by_key P x (y ∷ ys) p (h, hs) = elim (Bool-cases (ltb_ℤ (key y) (key x))) [
    | inl e ↦ rw e (h, All-insert_by_key P x ys p hs)
    | inr e ↦ rw e (p, (h, hs))
  ]

  pub insert_by_key-Ascending :
      (x : A) (ys : List A)
      → All (λ y. key x ≢ key y) ys
      → Ascending key ys
      → Ascending key (insert_by_key key x ys)
  unfolding insert_by_key
  insert_by_key-Ascending x [] d h = (tt, tt)
  insert_by_key-Ascending x (y ∷ ys) (d, ds) (h, hs) = elim (Bool-cases (ltb_ℤ (key y) (key x))) [
    | inl e ↦ rw e (
      All-insert_by_key (λ z. key y <ℤ key z) x ys (ltb→lt _ _ e) h,
      insert_by_key-Ascending x ys ds hs,
    )
    | inr e ↦
        let b : key x <ℤ key y = ground (arith, eq_of_parts (key x) (key y)) in
        rw e ((b, All-imp (λ z q. <ℤ_trans (key x) (key y) (key z) b q) ys h), (h, hs))
  ]

  pub All-sort_by_key : (P : A → Type 0) (xs : List A) → All P xs → All P (sort_by_key key xs)
  unfolding sort_by_key
  All-sort_by_key P [] h = tt
  All-sort_by_key P (x ∷ xs) (h, hs) =
      All-insert_by_key P x (sort_by_key key xs) h (All-sort_by_key P xs hs)

  -- With distinct keys the sorted list ascends strictly.
  pub sort_by_key-Ascending : (xs : List A) → DistinctBy key xs → Ascending key (sort_by_key key xs)
  unfolding sort_by_key
  sort_by_key-Ascending [] d = tt
  sort_by_key-Ascending (x ∷ xs) (d, ds) =
      insert_by_key-Ascending x (sort_by_key key xs) (All-sort_by_key _ xs d)
        (sort_by_key-Ascending xs ds)

  pub In-insert_by_key :
      (z x : A) (ys : List A) → In z (insert_by_key key x ys) ↔ ((z ≡ x) ⊎ In z ys)
  unfolding insert_by_key
  In-insert_by_key z x [] = (λ h. h, λ h. h)
  In-insert_by_key z x (y ∷ ys) = elim (Bool-cases (ltb_ℤ (key y) (key x))) [
    | inr e ↦ rw e (λ h. h, λ h. h)
    | inl e ↦
        let (to, from) = In-insert_by_key z x ys in
        rw e (
          λ h. elim h [
            | inl p ↦ inr (inl p)
            | inr q ↦ elim (to q) [ inl a ↦ inl a | inr b ↦ inr (inr b) ]
          ],
          λ h. elim h [
            | inl p ↦ inr (from (inl p))
            | inr q ↦ elim q [ inl a ↦ inl a | inr b ↦ inr (from (inr b)) ]
          ],
        )
  ]

  -- A sort keeps the elements.
  pub In-sort_by_key : (z : A) (xs : List A) → In z (sort_by_key key xs) ↔ In z xs
  unfolding sort_by_key
  In-sort_by_key z [] = (λ h. h, λ h. h)
  In-sort_by_key z (x ∷ xs) =
      let (to, from) = In-insert_by_key z x (sort_by_key key xs) in
      let (to', from') = In-sort_by_key z xs in
      (
        λ h. elim (to h) [ inl p ↦ inl p | inr q ↦ inr (to' q) ],
        λ h. from (elim h [ inl p ↦ inl p | inr q ↦ inr (from' q) ]),
      )

  -- An ascending list is determined by its elements.
  Ascending-unique :
      (xs ys : List A)
      → Ascending key xs
      → Ascending key ys
      → ((z : A) → In z xs → In z ys)
      → ((z : A) → In z ys → In z xs)
      → xs ≡ ys
  Ascending-unique [] [] a b f g = refl
  Ascending-unique [] (y ∷ ys) a b f g = absurd (g y (inl refl))
  Ascending-unique (x ∷ xs) [] a b f g = absurd (f x (inl refl))
  Ascending-unique (x ∷ xs) (y ∷ ys) (a, as') (b, bs) f g =
      let e : x ≡ y = elim (f x (inl refl)) [
        | inl p ↦ p
        | inr q ↦ elim (g y (inl refl)) [
          | inl p ↦ sym p
          | inr r ↦ absurd (<ℤ_asym (key x) (key y) (In_of_All _ xs a y r) (In_of_All _ ys b x q))
        ]
      ] in
      ap₂ ◌∷◌ e (
        Ascending-unique xs ys as' bs
          (λ z i. elim (f z (inr i)) [
            | inl p ↦ absurd (<ℤ_irrefl (key x) (key z) (ap key (e ∙ sym p)) (In_of_All _ xs a z i))
            | inr q ↦ q
          ])
          (λ z i. elim (g z (inr i)) [
            | inl p ↦
                absurd (<ℤ_irrefl (key y) (key z) (ap key (sym e ∙ sym p)) (In_of_All _ ys b z i))
            | inr q ↦ q
          ]))

  pub Ascending-eq :
      (xs ys : List A)
      → Ascending key xs
      → Ascending key ys
      → ((z : A) → In z xs ↔ In z ys)
      → xs ≡ ys
  Ascending-eq xs ys a b h = Ascending-unique xs ys a b (λ z. (h z).0) (λ z. (h z).1)

  -- What stands behind `x` in an ascending list is what has a greater key.
  pub In-after_iff :
      (xs : List A) (x : A) (ys : List A)
      → Ascending key (xs ++ x ∷ ys)
      → (z : A) → In z ys ↔ (In z (xs ++ x ∷ ys) × (key x <ℤ key z))
  In-after_iff [] x ys (a, as') z = (
    λ i. (inr i, In_of_All _ ys a z i),
    λ (i, lt). elim i [
      | inl p ↦ absurd (<ℤ_irrefl (key x) (key z) (ap key (sym p)) lt)
      | inr q ↦ q
    ],
  )
  In-after_iff (w ∷ xs) x ys (a, as') z =
      let (to, from) = In-after_iff xs x ys as' z in
      let wx : key w <ℤ key x =
        In_of_All _ (xs ++ x ∷ ys) a x ((In-append x xs (x ∷ ys)).1 (inr (inl refl))) in
      (
        λ i. let (j, lt) = to i in (inr j, lt),
        λ (i, lt). elim i [
          | inl p ↦ absurd (<ℤ_asym (key w) (key x) wx (subst (λ k. key x <ℤ k) (ap key p) lt))
          | inr q ↦ from (q, lt)
        ],
      )

  pub Ascending-suffix : (xs ys : List A) → Ascending key (xs ++ ys) → Ascending key ys
  Ascending-suffix [] ys h = h
  Ascending-suffix (x ∷ xs) ys (a, h) = Ascending-suffix xs ys h
