-- ===== src/Models/Membership.antt =====
-- src/relayer/src/models/membership.rs: the record of a membership in the local cache.
use nautilus_messaging_relay.Common.{String}
use nautilus_messaging_relay.Models.Message.{DateTime}

pub record GroupMembership : Type 0 where
  pub group_id : String
  pub member_address : String
  pub created_at : DateTime
  pub last_synced_at : DateTime

abbrev pub new : DateTime → String → String → GroupMembership
new now group_id member_address = record {
  group_id = group_id;
  member_address = member_address;
  created_at = now;
  last_synced_at = now;
}

abbrev pub touch : DateTime → GroupMembership → GroupMembership
touch now g = record g { last_synced_at = now }
