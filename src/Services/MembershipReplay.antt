-- ===== src/Services/MembershipReplay.antt =====
-- What the membership service (src/relayer/src/services/membership_sync.rs) makes of the events of the
-- chain, and that checkpoints delivered again change nothing.
use nautilus_messaging_relay.Common.{
  ℕ, ◌≤◌, true, Option, none, some, List, [], ◌∷◌, ◌++◌, All, In, map, ◌≡◌, refl, ◌∙◌, ap, sym,
  arith, Bool-cases, inl, inr, leb→le,
}
use nautilus_messaging_relay.Auth.Membership.{InMemoryMembershipStore}
use nautilus_messaging_relay.Auth.Members.{
  view-add_member, view-remove_member, view-grant_permissions, view-revoke_permissions,
}
use nautilus_messaging_relay.Auth.View.{View, view, with_entry, listed, granted, revoked}
use nautilus_messaging_relay.Storage.Ascending.{All-of_In, In_of_All}
use nautilus_messaging_relay.Services.EventParser.{
  Chars, Decoder, Event, GroupsEvent, member_added, member_removed, permissions_granted,
  permissions_revoked, parse_sui_event,
}
use nautilus_messaging_relay.Services.MembershipSync.{
  apply_event, apply_parsed, Transaction, CheckpointResponse, StreamItem, response, failure,
  SyncState, cursor_of, already_processed, process_events, process_checkpoint, handle_response,
  run_subscription, run,
}

-- What an event means: a new member has no permissions, a removed one is unknown, and a grant or a
-- revocation to an unknown member means nothing.
abbrev pub meaning : GroupsEvent → View → View
meaning (member_added g a) v = with_entry g a (some (listed [])) v
meaning (member_removed g a) v = with_entry g a none v
meaning (permissions_granted g a ps) v = with_entry g a (granted ps (v g a)) v
meaning (permissions_revoked g a ps) v = with_entry g a (revoked ps (v g a)) v

pub view-apply_event :
    (e : GroupsEvent) (s : InMemoryMembershipStore) → view (apply_event e s) ≡ meaning e (view s)
unfolding apply_event
view-apply_event (member_added g a) s = view-add_member g a [] s
view-apply_event (member_removed g a) s = view-remove_member g a s
view-apply_event (permissions_granted g a ps) s = view-grant_permissions g a ps s
view-apply_event (permissions_revoked g a ps) s = view-revoke_permissions g a ps s

-- The meanings of a row of events, the first event first.
abbrev pub meanings : List GroupsEvent → View → View
meanings [] v = v
meanings (e ∷ es) v = meanings es (meaning e v)

meanings-append :
    (es fs : List GroupsEvent) (v : View) → meanings (es ++ fs) v ≡ meanings fs (meanings es v)
meanings-append [] fs v = refl
meanings-append (e ∷ es) fs v = meanings-append es fs (meaning e v)

abbrev pub and_then : Option GroupsEvent → List GroupsEvent → List GroupsEvent
and_then none es = es
and_then (some e) es = e ∷ es

view-apply_parsed :
    (o : Option GroupsEvent) (es : List GroupsEvent) (s : InMemoryMembershipStore)
    → meanings es (view (apply_parsed o s)) ≡ meanings (and_then o es) (view s)
view-apply_parsed none es s = refl
view-apply_parsed (some e) es s = ap (meanings es) (view-apply_event e s)

module _ (d : Decoder) (pkg : Chars) where
  -- The events of the package among those of a transaction.
  abbrev pub parsed : List Event → List GroupsEvent
  parsed [] = []
  parsed (e ∷ es) = and_then (parse_sui_event d e pkg) (parsed es)

  abbrev pub parsed_checkpoint : List Transaction → List GroupsEvent
  parsed_checkpoint [] = []
  parsed_checkpoint (none ∷ ts) = parsed_checkpoint ts
  parsed_checkpoint (some es ∷ ts) = parsed es ++ parsed_checkpoint ts

  view-process_events :
      (es : List Event) (s : InMemoryMembershipStore)
      → view (process_events d pkg es s) ≡ meanings (parsed es) (view s)
  unfolding process_events
  view-process_events [] s = refl
  view-process_events (e ∷ es) s =
      view-process_events es (apply_parsed (parse_sui_event d e pkg) s)
      ∙ view-apply_parsed (parse_sui_event d e pkg) (parsed es) s

  -- A checkpoint changes the view by the meanings of the package's events in it, in their order.
  pub view-process_checkpoint :
      (ts : List Transaction) (s : InMemoryMembershipStore)
      → view (process_checkpoint d pkg ts s) ≡ meanings (parsed_checkpoint ts) (view s)
  unfolding process_checkpoint
  view-process_checkpoint [] s = refl
  view-process_checkpoint (none ∷ ts) s = view-process_checkpoint ts s
  view-process_checkpoint (some es ∷ ts) s =
      view-process_checkpoint ts (process_events d pkg es s)
      ∙ ap (meanings (parsed_checkpoint ts)) (view-process_events es s)
      ∙ sym (meanings-append (parsed es) (parsed_checkpoint ts) (view s))

  -- The cursor of the response is not behind the last one.
  abbrev Covered : SyncState → CheckpointResponse → Type 0
  Covered st r = (last : ℕ) × (st.last_cursor ≡ some last) × (cursor_of r ≤ last)

  handle_response-Covered :
      (r : CheckpointResponse) (st : SyncState) → Covered (handle_response d pkg r st) r
  unfolding handle_response
  handle_response-Covered r st =
      elim (Bool-cases (already_processed st.last_cursor (cursor_of r))) [
        | inr e ↦ rw e (cursor_of r, refl, omega arith)
        | inl e ↦ rw e (covered_last st.last_cursor e)
      ]
    where
      covered_last :
          (l : Option ℕ)
          → already_processed l (cursor_of r) ≡ true
          → (last : ℕ) × (l ≡ some last) × (cursor_of r ≤ last)
      covered_last none e = absurd (cc)
      covered_last (some last) e = (last, refl, leb→le _ _ e)

  handle_response-keeps :
      (r q : CheckpointResponse) (st : SyncState)
      → Covered st q
      → Covered (handle_response d pkg r st) q
  unfolding handle_response
  handle_response-keeps r q st (last, e, le) =
      elim (Bool-cases (already_processed st.last_cursor (cursor_of r))) [
        | inl t ↦ rw t (last, e, le)
        | inr t ↦ rw t (cursor_of r, refl, ground arith)
      ]

  handle_response_skip :
      (r : CheckpointResponse) (st : SyncState) → Covered st r → handle_response d pkg r st ≡ st
  unfolding handle_response
  handle_response_skip r st (last, e, le) = ground arith

  run_subscription-keeps :
      (rs : List CheckpointResponse) (q : CheckpointResponse) (st : SyncState)
      → Covered st q
      → Covered (run_subscription d pkg (map response rs) st) q
  unfolding run_subscription
  run_subscription-keeps [] q st h = h
  run_subscription-keeps (r ∷ rs) q st h =
      run_subscription-keeps rs q (handle_response d pkg r st) (handle_response-keeps r q st h)

  run_subscription_failure : (st : SyncState) → run_subscription d pkg (failure ∷ []) st ≡ st
  unfolding run_subscription
  run_subscription_failure st = refl

  -- All responses of a subscription that does not fail are covered when it ends.
  run_subscription-Covered :
      (rs : List CheckpointResponse) (st : SyncState)
      → All (Covered (run_subscription d pkg (map response rs) st)) rs
  unfolding run_subscription
  run_subscription-Covered [] st = tt
  run_subscription-Covered (r ∷ rs) st = (
    run_subscription-keeps rs r (handle_response d pkg r st) (handle_response-Covered r st),
    run_subscription-Covered rs (handle_response d pkg r st),
  )

  run_subscription_skip :
      (rs : List CheckpointResponse) (items : List StreamItem) (st : SyncState)
      → All (Covered st) rs
      → run_subscription d pkg (map response rs ++ items) st ≡ run_subscription d pkg items st
  unfolding run_subscription
  run_subscription_skip [] items st h = refl
  run_subscription_skip (r ∷ rs) items st (h, hs) =
      ap (run_subscription d pkg (map response rs ++ items)) (handle_response_skip r st h)
      ∙ run_subscription_skip rs items st hs

  run_subscription-append :
      (rs : List CheckpointResponse) (items : List StreamItem) (st : SyncState)
      → run_subscription d pkg (map response rs ++ items) st
        ≡ run_subscription d pkg items (run_subscription d pkg (map response rs) st)
  unfolding run_subscription
  run_subscription-append [] items st = refl
  run_subscription-append (r ∷ rs) items st =
      run_subscription-append rs items (handle_response d pkg r st)

  -- A connection that breaks after the responses `rs`, and a new one that delivers any part `qs` of
  -- them again before it goes on with `items`, leave what one connection leaves that delivers `rs`
  -- and then `items`: no event is applied twice.
  pub run-reconnect :
      (rs qs : List CheckpointResponse) (items : List StreamItem) (st : SyncState)
      → ((q : CheckpointResponse) → In q qs → In q rs)
      → run d pkg ((map response rs ++ failure ∷ []) ∷ (map response qs ++ items) ∷ []) st
        ≡ run d pkg ((map response rs ++ items) ∷ []) st
  unfolding run
  run-reconnect rs qs items st sub =
      let st' = run_subscription d pkg (map response rs) st in
      let broken : run_subscription d pkg (map response rs ++ failure ∷ []) st ≡ st' =
        run_subscription-append rs (failure ∷ []) st ∙ run_subscription_failure st' in
      ap (run_subscription d pkg (map response qs ++ items)) broken
      ∙ run_subscription_skip qs items st' (
          All-of_In qs
            (λ q i. In_of_All (Covered st') rs (run_subscription-Covered rs st) q (sub q i)))
      ∙ sym (run_subscription-append rs items st)
