-- ===== src/Tests/Store.antt =====
-- Concrete runs of the store (src/relayer/src/storage/memory.rs).
use nautilus_messaging_relay.Common.{
  pos, ◌≡◌, refl, none, some, [], ◌∷◌, take, drop, ok, arith, In, nat_eq, string_eq, bytes_eq, ℕ,
  suc, Bool-cases, ◌==◌, ==→eq, inl, inr, String-discrete, Bytes-discrete, wrap_i64,
}
use native.Mathlib.Decide.{ℕ_discrete}
use mathlib.Core.Path.{subst}
use nautilus_messaging_relay.Common.Map.{lookup, insert, contains, set_insert}
use nautilus_messaging_relay.Models.Message
use nautilus_messaging_relay.Models.Message.{Message, Uuid}
use nautilus_messaging_relay.Storage.Memory
use nautilus_messaging_relay.Storage.Memory.{
  InMemoryStorage, order_or_zero, create_message, next_order, insert_message, get_messages_by_group,
  messages_in_range, update_message, in_range, get_message,
}
use nautilus_messaging_relay.Storage.Invariant.{IsValid, new-IsValid}
use nautilus_messaging_relay.Storage.Ordering.{HasRoom, CounterIs}
use nautilus_messaging_relay.Storage.Preservation.{create_message-IsValid}
use nautilus_messaging_relay.Storage.Interleaving.{here, next, take_order, finish, IsSound}
use nautilus_messaging_relay.Storage.Soundness.{Reach-IsSound}
use nautilus_messaging_relay.Storage.Creation.{create_message-IsOutcome, IsOutcome}
use nautilus_messaging_relay.Storage.Paging.{
  get_messages_by_group-next, get_messages_by_group-order_free, In-messages_in_range,
}
use nautilus_messaging_relay.Storage.Sorting.{sort_by_key}

abbrev pub hello : Message
hello = Message.new 1 100 "team" "ann" (5 ∷ []) (7 ∷ []) (pos 1) [] [] []

abbrev pub reply : Message
reply = Message.new 2 200 "team" "bob" (6 ∷ []) (8 ∷ []) (pos 1) [] [] []

abbrev pub one : InMemoryStorage
one = record {
  messages = (1, Message.set_order (pos 1) hello) ∷ [];
  group_orders = ("team", pos 1) ∷ [];
  nonces = (7 ∷ []) ∷ [];
}

abbrev pub two : InMemoryStorage
two = record {
  messages = (1, Message.set_order (pos 1) hello) ∷ (2, Message.set_order (pos 2) reply) ∷ [];
  group_orders = ("team", pos 2) ∷ [];
  nonces = (8 ∷ []) ∷ (7 ∷ []) ∷ [];
}

hello_created : create_message hello Memory.new ≡ (one, ok (Message.set_order (pos 1) hello))
unfolding create_message lookup contains insert set_insert
hello_created = refl

reply_created : create_message reply one ≡ (two, ok (Message.set_order (pos 2) reply))
unfolding create_message lookup ℕ_discrete contains Bytes-discrete insert set_insert String-discrete
    wrap_i64
reply_created = refl

new-HasRoom : HasRoom Memory.new "team"
unfolding lookup
new-HasRoom c e = absurd (cc)

one-HasRoom : HasRoom one "team"
unfolding lookup
one-HasRoom c e = ground arith

pub one-IsValid : IsValid one
one-IsValid =
    subst (λ p. IsValid p.0) hello_created
      (create_message-IsValid Memory.new hello new-IsValid new-HasRoom)

two-IsValid : IsValid two
two-IsValid =
    subst (λ p. IsValid p.0) reply_created
      (create_message-IsValid one reply one-IsValid one-HasRoom)

-- The first message waits between its two critical sections.
Reach-IsSound_example : IsSound (record { store = one; pending = [] })
unfolding next_order insert_message lookup contains insert set_insert
Reach-IsSound_example = Reach-IsSound (
    next (next here (take_order Memory.new [] hello new-HasRoom))
      (finish (next_order "team" Memory.new).0 [] [] (Message.set_order (pos 1) hello)))

create_message-IsOutcome_example :
    (c : ℕ) × CounterIs one "team" c
    × CounterIs (create_message reply one).0 "team" (suc c)
    × IsOutcome one reply c
create_message-IsOutcome_example = create_message-IsOutcome one reply one-IsValid one-HasRoom

get_messages_by_group-next_example :
    get_messages_by_group "team" (some (pos 1)) none 5 two
    ≡ ok (take 5 (drop 1 (messages_in_range "team" none none two.messages)))
unfolding get_messages_by_group messages_in_range sort_by_key String-discrete
get_messages_by_group-next_example =
    get_messages_by_group-next "team" two two-IsValid none none 1 5 []
      (Message.set_order (pos 1) hello) refl

In-messages_in_range_example :
    In (Message.set_order (pos 2) reply) (messages_in_range "team" (some (pos 1)) none two.messages)
unfolding lookup ℕ_discrete
In-messages_in_range_example =
    (In-messages_in_range "team" two two-IsValid (some (pos 1)) none
        (Message.set_order (pos 2) reply)).1
      (2, refl, refl, refl)

abbrev hello_ordered : Message
hello_ordered = Message.set_order (pos 1) hello

abbrev reply_ordered : Message
reply_ordered = Message.set_order (pos 2) reply

-- The store of two creations, where the one that took its order last was stored first.
abbrev overtaken : InMemoryStorage
overtaken = record {
  messages = (2, reply_ordered) ∷ (1, hello_ordered) ∷ [];
  group_orders = ("team", pos 2) ∷ [];
  nonces = (7 ∷ []) ∷ (8 ∷ []) ∷ [];
}

abbrev first_ordered : InMemoryStorage
first_ordered = (next_order "team" Memory.new).0

abbrev both_ordered : InMemoryStorage
both_ordered = (next_order "team" first_ordered).0

first-HasRoom : HasRoom first_ordered "team"
unfolding next_order lookup insert
first-HasRoom c e = ground arith

overtaken-IsSound : IsSound (record { store = overtaken; pending = [] })
unfolding next_order insert_message lookup contains insert set_insert ℕ_discrete Bytes-discrete
    String-discrete wrap_i64
overtaken-IsSound = Reach-IsSound (
    next
      (next
        (next (next here (take_order Memory.new [] hello new-HasRoom))
          (take_order first_ordered (hello_ordered ∷ []) reply first-HasRoom))
        (finish both_ordered [] (hello_ordered ∷ []) reply_ordered))
      (finish (insert_message reply_ordered both_ordered).0 [] [] hello_ordered))

same_first : lookup 1 two.messages ≡ lookup 1 overtaken.messages
unfolding lookup ℕ_discrete
same_first = refl

same_messages : (k : Uuid) → lookup k two.messages ≡ lookup k overtaken.messages
unfolding lookup
same_messages k = elim (Bool-cases (k == 1)) [
  | inr b ↦ rw b refl
  | inl b ↦ rw (==→eq k 1 b) same_first
]

get_messages_by_group-order_free_example :
    get_messages_by_group "team" none none 5 two
    ≡ get_messages_by_group "team" none none 5 overtaken
get_messages_by_group-order_free_example =
    get_messages_by_group-order_free two overtaken two-IsValid overtaken-IsSound.valid same_messages
      "team" none none 5
