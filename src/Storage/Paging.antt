-- ===== src/Storage/Paging.antt =====
-- The pages of a group that `get_messages_by_group` (src/relayer/src/storage/memory.rs) returns.
use mathlib.Core.Logic.{◌≢◌}
use mathlib.Core.List.{append_assoc}
use mathlib.Core.Path.{subst}
use nautilus_messaging_relay.Common.{
  ℤ, ℕ, ◌<ℤ◌, String, true, Option, none, some, List, [], ◌∷◌, ◌++◌, ok, ◌==◌, ==→eq, nat_eq,
  string_eq, ◌≡◌, refl, sym, ap, ◌∙◌, ◌↔◌, inl, inr, arith, In, In-append, In-filter→, In→filter,
  filter, take, drop, take-append-drop, ok-injective, Bool-cases,
}
use nautilus_messaging_relay.Common.Map.{lookup, DistinctKeys, In-of_lookup, lookup_of_In}
use nautilus_messaging_relay.Models.Message.{Uuid, Message}
use nautilus_messaging_relay.Storage.Ascending.{
  Ascending, DistinctBy, All-of_In, sort_by_key-Ascending, In-sort_by_key, Ascending-eq,
  In-after_iff, Ascending-suffix,
}
use nautilus_messaging_relay.Storage.Invariant.{Stored, IsValid}
use nautilus_messaging_relay.Storage.Memory.{
  InMemoryStorage, order_or_zero, in_range, values, messages_in_range, get_messages_by_group,
}

-- An element of the values is the value of an entry, and the other way round.
pub In-values :
    (m : Message) (es : List (Uuid × Message)) → In m (values es) ↔ ((k : Uuid) × In (k, m) es)
In-values m [] = (λ h. absurd h, λ h. h.1)
In-values m ((j, w) ∷ es) =
    let (to, from) = In-values m es in
    (
      λ h. elim h [
        | inl p ↦ (j, inl (ap (λ (x : Message). (j, x)) p))
        | inr q ↦ let (k, i) = to q in (k, inr i)
      ],
      λ (k, i). elim i [
        | inl p ↦ inl (ap (λ (e : Uuid × Message). e.1) p)
        | inr q ↦ inr (from (k, q))
      ],
    )

-- The messages of a group, in the order of the iteration.
abbrev in_group : String → List (Uuid × Message) → List Message
in_group g es = filter (λ m. m.group_id == g) (values es)

pub absent_ne :
    (j k : Uuid) (z : Message) (es : List (Uuid × Message))
    → DistinctKeys es
    → lookup j es ≡ none
    → j ≡ k
    → In (k, z) es
    → ⊥
absent_ne j k z es d absent p i = cc (lookup_of_In k z es d i)

-- Behind an order of the range, the range is that of the greater orders.
in_range-after :
    (a b : Option ℤ) (p q : ℤ)
    → in_range a b p ≡ true
    → (in_range (some p) b q ≡ true) ↔ ((in_range a b q ≡ true) × (p <ℤ q))
in_range-after none none p q h = ground arith
in_range-after none (some b) p q h = ground arith
in_range-after (some a) none p q h = ground arith
in_range-after (some a) (some b) p q h = ground arith

module _ (g : String) (s : InMemoryStorage) (v : IsValid s) where
  -- Two messages of one group have different orders.
  order-ne :
      (j k : Uuid) (w m : Message)
      → j ≢ k
      → Stored s j w
      → Stored s k m
      → w.group_id ≡ g
      → m.group_id ≡ g
      → order_or_zero w ≢ order_or_zero m
  order-ne j k w m d h h' p q e =
      let (o, a, _) = v.ordered j w h in
      let (o', a', _) = v.ordered k m h' in
      d (v.order_unique j k w m h h' (p ∙ sym q) (ground arith))

  distinct_orders :
      (a b : Option ℤ) (es : List (Uuid × Message))
      → DistinctKeys es
      → ((k : Uuid) (m : Message) → In (k, m) es → Stored s k m)
      → DistinctBy order_or_zero (filter (λ m. in_range a b (order_or_zero m)) (in_group g es))
  distinct_orders a b [] d f = tt
  distinct_orders a b ((j, w) ∷ es) (absent, d) f =
      let rest = distinct_orders a b es d (λ k m i. f k m (inr i)) in
      let ne : (k : Uuid) (z : Message) → j ≡ k → In (k, z) es → ⊥ =
        (λ k z p i. absent_ne j k z es d absent p i) in
      elim (Bool-cases (w.group_id == g)) [
        | inr out ↦ rw out rest
        | inl here ↦ rw here (elim (Bool-cases (in_range a b (order_or_zero w))) [
          | inr out ↦ rw out rest
          | inl inside ↦ rw inside (
            All-of_In _ (λ z i.
                let (i', r) = In-filter→ _ z (in_group g es) i in
                let (i'', same) = In-filter→ (λ (m : Message). m.group_id == g) z (values es) i' in
                let (k, e) = (In-values z es).0 i'' in
                order-ne j k w z (λ p. ne k z p e) (f j w (inl refl)) (f k z (inr e))
                  (==→eq w.group_id g here) (==→eq z.group_id g same)),
            rest,
          )
        ])
      ]

  Stored_of_In : (k : Uuid) (m : Message) → In (k, m) s.messages → Stored s k m
  Stored_of_In k m i = lookup_of_In k m s.messages v.distinct i

  -- Where the invariant holds, what is returned ascends strictly by order.
  pub messages_in_range-Ascending :
      (a b : Option ℤ) → Ascending order_or_zero (messages_in_range g a b s.messages)
  unfolding messages_in_range
  messages_in_range-Ascending a b =
      sort_by_key-Ascending order_or_zero _ (distinct_orders a b s.messages v.distinct Stored_of_In)

  -- In a valid store, the listing is exactly the stored messages of the group whose order is in the
  -- range.
  pub In-messages_in_range :
      (a b : Option ℤ) (m : Message)
      → In m (messages_in_range g a b s.messages)
        ↔ ((k : Uuid) × Stored s k m × (m.group_id ≡ g) × (in_range a b (order_or_zero m) ≡ true))
  unfolding messages_in_range
  In-messages_in_range a b m = (
    λ i.
        let (i', r) =
          In-filter→ _ m (in_group g s.messages) ((In-sort_by_key order_or_zero m _).0 i) in
        let (i'', same) = In-filter→ _ m (values s.messages) i' in
        let (k, e) = (In-values m s.messages).0 i'' in
        (k, Stored_of_In k m e, ==→eq m.group_id g same, r),
    λ (k, h, same, r). (In-sort_by_key order_or_zero m _).1 (
        In→filter _ m (in_group g s.messages)
          (In→filter _ m (values s.messages)
            ((In-values m s.messages).1 (k, In-of_lookup k m s.messages h)) (ground arith))
          r),
  )

  module _ (a b : Option ℤ) (xs : List Message) (x : Message) (ys : List Message)
      (e : messages_in_range g a b s.messages ≡ xs ++ x ∷ ys) where
    In-behind :
        (z : Message)
        → In z (messages_in_range g (some (order_or_zero x)) b s.messages)
          ↔ (In z (messages_in_range g a b s.messages) × (order_or_zero x <ℤ order_or_zero z))
    In-behind z =
        let inside =
          ((In-messages_in_range a b x).0
            (subst (In x) (sym e) ((In-append x xs (x ∷ ys)).1 (inr (inl refl))))).3 in
        let (to, from) = in_range-after a b (order_or_zero x) (order_or_zero z) inside in
        (
          λ i.
              let (k, h, same, r) = (In-messages_in_range (some (order_or_zero x)) b z).0 i in
              let (r', lt) = to r in ((In-messages_in_range a b z).1 (k, h, same, r'), lt),
          λ (i, lt).
              let (k, h, same, r) = (In-messages_in_range a b z).0 i in
              (In-messages_in_range (some (order_or_zero x)) b z).1 (k, h, same, from (r, lt)),
        )

    -- What follows a message `x` of a listing is the listing after the order of `x`.
    messages_in_range-after : messages_in_range g (some (order_or_zero x)) b s.messages ≡ ys
    messages_in_range-after =
        let up : Ascending order_or_zero (xs ++ x ∷ ys) =
          subst (Ascending order_or_zero) e (messages_in_range-Ascending a b) in
        Ascending-eq order_or_zero _ ys (messages_in_range-Ascending (some (order_or_zero x)) b)
          (Ascending-suffix order_or_zero xs (x ∷ ys) up).1
          (λ z.
            let (to, from) = In-behind z in
            let (to', from') = In-after_iff order_or_zero xs x ys up z in
            (
              λ i. let (j, lt) = to i in from' (subst (In z) e j, lt),
              λ i. let (j, lt) = to' i in from (subst (In z) (sym e) j, lt),
            ))

  -- In a valid store, if a page of a listing (up to `n` messages in the range) ends in the message
  -- `x`, then the next page, asked for by the order of `x`, is the next part of the same listing,
  -- up to `n'` messages: none is left out and none comes twice.
  pub get_messages_by_group-next :
      (a b : Option ℤ) (n n' : ℕ) (xs : List Message) (x : Message)
      → get_messages_by_group g a b n s ≡ ok (xs ++ x ∷ [])
      → get_messages_by_group g (some (order_or_zero x)) b n' s
        ≡ ok (take n' (drop n (messages_in_range g a b s.messages)))
  unfolding get_messages_by_group
  get_messages_by_group-next a b n n' xs x e =
      let l = messages_in_range g a b s.messages in
      let split : l ≡ xs ++ x ∷ drop n l =
        sym (take-append-drop n l)
        ∙ ap (λ (t : List Message). t ++ drop n l) (ok-injective e)
        ∙ append_assoc xs (x ∷ []) (drop n l) in
      ap (λ t. ok (take n' t)) (messages_in_range-after a b xs x (drop n l) split)

-- Two valid stores with the same messages list a group alike, in whatever order they iterate.
pub get_messages_by_group-order_free :
    (s s' : InMemoryStorage)
    → IsValid s
    → IsValid s'
    → ((k : Uuid) → lookup k s.messages ≡ lookup k s'.messages)
    → (g : String) (a b : Option ℤ) (n : ℕ)
    → get_messages_by_group g a b n s ≡ get_messages_by_group g a b n s'
unfolding get_messages_by_group
get_messages_by_group-order_free s s' v v' same g a b n =
    ap (λ l. ok (take n l))
      (Ascending-eq order_or_zero _ _ (messages_in_range-Ascending g s v a b)
        (messages_in_range-Ascending g s' v' a b)
        (λ z. (
          λ i.
              let (k, h, p, r) = (In-messages_in_range g s v a b z).0 i in
              (In-messages_in_range g s' v' a b z).1 (k, sym (same k) ∙ h, p, r),
          λ i.
              let (k, h, p, r) = (In-messages_in_range g s' v' a b z).0 i in
              (In-messages_in_range g s v a b z).1 (k, same k ∙ h, p, r),
        )))
