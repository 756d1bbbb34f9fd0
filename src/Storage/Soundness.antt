-- ===== src/Storage/Soundness.antt =====
-- The store stays valid under every interleaving of the handlers' critical sections
-- (src/relayer/src/storage/memory.rs).
use nautilus_messaging_relay.Common.{[], ◌++◌, string_eq, nat_eq, bytes_eq}
use nautilus_messaging_relay.Storage.Ascending.{All-imp, All-imp₂}
use nautilus_messaging_relay.Storage.Interleaving.{
  Running, Step, take_order, finish, update, delete, set_status, Reach, here, next, IsSound,
}
use nautilus_messaging_relay.Storage.Freshness.{
  All-middle, AllApart-middle, IsFresh-Kept, Kept-update_message, Kept-delete_message,
  Kept-update_sync_status, IsFresh-insert_message, IsFresh-next_order, Apart-next_order,
}
use nautilus_messaging_relay.Storage.Invariant.{new-IsValid}
use nautilus_messaging_relay.Storage.Memory.{new}
use nautilus_messaging_relay.Storage.Ordering.{IsFresh, next_order-IsValid, next_order-IsFresh}
use nautilus_messaging_relay.Storage.Preservation.{
  insert_message-IsValid, update_message-IsValid, delete_message-IsValid,
  update_sync_status-IsValid,
}

-- Each critical section keeps the soundness of the whole.
Step-IsSound : {r t : Running} → Step r t → IsSound r → IsSound t
Step-IsSound (take_order s ps m room) h = record {
  valid = next_order-IsValid m.group_id s h.valid room;
  fresh = (
    next_order-IsFresh s m h.valid room,
    All-imp (IsFresh-next_order s m h.valid room) ps h.fresh,
  );
  apart = (All-imp (Apart-next_order s m h.valid room) ps h.fresh, h.apart);
}
Step-IsSound (finish s ps qs m) h =
    let (f, fs) = All-middle (IsFresh s) ps qs m h.fresh in
    let (a, b) = AllApart-middle ps qs m h.apart in
    record {
      valid = insert_message-IsValid s m h.valid f;
      fresh = All-imp₂ (IsFresh-insert_message s m) (ps ++ qs) fs a;
      apart = b;
    }
Step-IsSound (update s ps now id em n kv ats sg pk) h = record {
  valid = update_message-IsValid s now id em n kv ats sg pk h.valid;
  fresh = All-imp (IsFresh-Kept s _ (Kept-update_message s now id em n kv ats sg pk)) ps h.fresh;
  apart = h.apart;
}
Step-IsSound (delete s ps now id) h = record {
  valid = delete_message-IsValid s now id h.valid;
  fresh = All-imp (IsFresh-Kept s _ (Kept-delete_message s now id)) ps h.fresh;
  apart = h.apart;
}
Step-IsSound (set_status s ps now id status patch) h = record {
  valid = update_sync_status-IsValid s now id status patch h.valid;
  fresh = All-imp (IsFresh-Kept s _ (Kept-update_sync_status s now id status patch)) ps h.fresh;
  apart = h.apart;
}

-- From the empty store, in whatever order the critical sections of creations, updates, deletions and
-- status changes run, if no counter passes the greatest `i64`, the store is valid: no two messages of
-- a group share an order, no two messages share a nonce, and the set of nonces is that of the stored
-- messages; and every creation between its two sections holds an order that no other message of its
-- group has.
pub Reach-IsSound : {r : Running} → Reach (record { store = new; pending = [] }) r → IsSound r
Reach-IsSound here = record { valid = new-IsValid; fresh = tt; apart = tt }
Reach-IsSound (next r st) = Step-IsSound st (Reach-IsSound r)
