-- ===== src/Indexer/Subscription.antt =====
-- indexer/src/grpc.rs: the requests that the gRPC streamer sends, by the fields of the protocol's messages
-- that it sets, and the settings of its client. The name of the subscription is drawn at random.
use itihas.Prelude.{Bool, List, Option, String, [], false, none, inl, some, true, ℕ, ◌∷◌, ◌⊎◌}

pub record SubscribeRequestFilterBlocks : Type 0 where
  pub account_include : List String
  pub include_transactions : Option Bool
  pub include_accounts : Option Bool
  pub include_entries : Option Bool

-- The levels of the protocol.
pub data CommitmentLevel : Type 0 where
  processed confirmed finalized : CommitmentLevel

-- `SubscribeRequest`; a ping is its id.
pub record SubscribeRequest : Type 0 where
  pub ping : Option ℕ
  pub blocks : List (String × SubscribeRequestFilterBlocks)
  pub commitment : Option CommitmentLevel

abbrev pub default_request : SubscribeRequest
default_request = record { ping = none; blocks = []; commitment = none }

abbrev pub ping : SubscribeRequest
ping = record default_request { ping = some 1 }

abbrev pub get_block_subscribe_request : String → SubscribeRequest
get_block_subscribe_request name = record default_request {
  blocks =
      (
        name,
        record {
          account_include = [];
          include_transactions = some true;
          include_accounts = some false;
          include_entries = some false;
        },
      )
      ∷ [];
  commitment = some confirmed;
}

-- What `build_geyser_client` sets of its client, with seconds for durations.
pub record ClientSettings : Type 0 where
  pub endpoint : String
  pub x_token : Option String
  pub connect_timeout : ℕ
  pub max_decoding_message_size : ℕ
  pub timeout : ℕ

-- The builder: an endpoint or a token may be refused with an error's text, and connecting may fail.
module _ {Client : Type 0} (build_from_shared : String → Option String)
    (x_token : Option String → Option String) (connect : ClientSettings → String ⊎ Client) where
  abbrev refused : Option String → String ⊎ Client → String ⊎ Client
  refused none next = next
  refused (some error) next = inl error

  abbrev pub build_geyser_client : String → String → String ⊎ Client
  build_geyser_client endpoint auth_header = refused (build_from_shared endpoint) (
      refused (x_token (some auth_header)) (
        connect (record {
          endpoint = endpoint;
          x_token = some auth_header;
          connect_timeout = 10;
          max_decoding_message_size = 8_388_608;
          timeout = 10;
        })))
