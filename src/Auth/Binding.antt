-- ===== src/Auth/Binding.antt =====
-- What the signature of a request without a body covers (src/relayer/src/auth/middleware.rs).
use nautilus_messaging_relay.Common.{ℤ, InI64, String, ◌≡◌}
use nautilus_messaging_relay.Common.Text.{◌+s◌, show_int}
use nautilus_messaging_relay.Common.Text.Fields.{
  NoColon, split_first_colon, show_int-NoColon, show_int-injective,
}
use nautilus_messaging_relay.Common.Text.Utf8.{as_bytes-injective}
use nautilus_messaging_relay.Auth.Middleware.{canonical_message}

-- The bytes that are signed for a request without a body determine its timestamp, its sender and its
-- group, for i64 timestamps and senders in which no colon stands.
pub canonical_message-injective :
    (timestamp timestamp' : ℤ) (sender sender' group group' : String)
    → InI64 timestamp
    → InI64 timestamp'
    → NoColon sender
    → NoColon sender'
    → canonical_message timestamp sender group ≡ canonical_message timestamp' sender' group'
    → (timestamp ≡ timestamp') × (sender ≡ sender') × (group ≡ group')
unfolding canonical_message
canonical_message-injective timestamp timestamp' sender sender' group group' i i' a a' e =
    let text = as_bytes-injective _ _ e in
    let (p, rest) =
      split_first_colon (show_int timestamp) (show_int timestamp') (sender +s ":" +s group)
        (sender' +s ":" +s group') text (show_int-NoColon timestamp)
        (show_int-NoColon timestamp') in
    let (q, r) = split_first_colon sender sender' group group' rest a a' in
    (show_int-injective timestamp timestamp' i i' p, q, r)
