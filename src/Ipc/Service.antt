-- ===== src/Ipc/Service.antt =====
-- domains/ipc/ipc_service.cpp and event_bridge.cpp: the on_line callback over the dispatcher, with the
-- calls of send_line that it makes, in order. An event is broadcast when it is published, which is
-- before the reply to the command that caused it.
pub mod Replies
pub mod Writing
mod Examples
use yoru_speech.Common.{
  ℕ, ◌==◌, Bool, true, false, List, [], ◌∷◌, ◌++◌, Option, none, some, Text, lit, text_eq, is_empty,
  if◌then◌else◌,
}
use yoru_speech.Core.Event.{Event}
use yoru_speech.Config.Toml.{TomlLibrary}
use yoru_speech.Ipc.Codec.{JsonLibrary, ParsedMessage, typed, malformed, parse_message, encode_ack}
use yoru_speech.Ipc.Codec.Events.{encode_event}
use yoru_speech.Ipc.Dispatcher.{Daemon, Surroundings, Result, handle_line}
use yoru_speech.Ipc.Server.{ClientId, listed}

-- The managers behind the dispatcher, and EventBridge::subscribed_clients_.
pub record Service (Sample : Type 0) : Type 0 where
  pub daemon : Daemon Sample
  pub subscribed : List ClientId

abbrev pub Sends : Type 0
Sends = List (ClientId × Text)

unfoldable pub subscribe : ClientId → List ClientId → List ClientId
subscribe id clients = if listed id clients then clients else clients ++ id ∷ []

unfoldable pub unsubscribe : ClientId → List ClientId → List ClientId
unsubscribe id [] = []
unsubscribe id (k ∷ ks) = let rest = unsubscribe id ks in if k == id then rest else k ∷ rest

-- What a line asks of the bridge, before it reaches the dispatcher.
pub data Request : Type 0 where
  subscribe_events unsubscribe_events command : Request

unfoldable pub request_of : ParsedMessage → Request
request_of (malformed message) = command
request_of (typed type) =
    if text_eq type (lit "subscribe_events")
    then subscribe_events
    else if text_eq type (lit "unsubscribe_events")
    then unsubscribe_events
    else command

-- The loop of broadcast over the subscribed clients.
unfoldable pub to_all : Text → List ClientId → Sends
to_all line [] = []
to_all line (id ∷ ids) = (id, line) ∷ to_all line ids

-- Calls of send_line, and whether an exception came after them.
abbrev pub Sent : Type 0
Sent = Sends × Bool

unfoldable pub send_reply : ClientId → Option Text → Sent
send_reply id none = ([], true)
send_reply id (some line) = ((id, line) ∷ [], false)

-- What comes later, unless there was an exception.
unfoldable pub and_then : Sent → Sent → Sent
and_then (sends, true) later = (sends, true)
and_then (sends, false) (more, thrown) = (sends ++ more, thrown)

broadcast_line : List ClientId → Option Text → Sent
unfolding to_all
broadcast_line ids none = ([], true)
broadcast_line ids (some line) = (to_all line ids, false)

module _ (json : JsonLibrary) (toml : TomlLibrary) {Sample : Type 0} where
  unfoldable pub broadcast : List ClientId → Event Sample → Sent
  unfolding broadcast_line
  broadcast [] event = ([], false)
  broadcast (id ∷ ids) event = broadcast_line (id ∷ ids) (encode_event json event)

  unfoldable pub broadcast_all : List ClientId → List (Event Sample) → Sent
  unfolding broadcast and_then
  broadcast_all ids [] = ([], false)
  broadcast_all ids (event ∷ events) = and_then (broadcast ids event) (broadcast_all ids events)

  dispatched : ClientId → Service Sample → Result Sample → Option (Service Sample × Sent)
  unfolding broadcast_all and_then send_reply
  dispatched id s none = none
  dispatched id s (some (d, events, reply)) =
      some (
        record s { daemon = d },
        and_then (broadcast_all s.subscribed events) (send_reply id reply),
      )

  answer :
      Request → ClientId → Text → Surroundings → Service Sample → Option (Service Sample × Sent)
  unfolding dispatched send_reply
  answer subscribe_events id line out s = some (
    record s { subscribed = subscribe id s.subscribed },
    send_reply id (encode_ack json (lit "subscribe_events")),
  )
  answer unsubscribe_events id line out s = some (
    record s { subscribed = unsubscribe id s.subscribed },
    send_reply id (encode_ack json (lit "unsubscribe_events")),
  )
  answer command id line out s = dispatched id s (handle_line json toml line out s.daemon)

  unfoldable pub on_line :
      ClientId → Text → Surroundings → Service Sample → Option (Service Sample × Sent)
  unfolding request_of answer
  on_line id line out s = answer (request_of (parse_message json line)) id line out s

  -- The on_disconnect callback.
  unfoldable pub on_disconnect : ClientId → Service Sample → Service Sample
  on_disconnect id s = record s { subscribed = unsubscribe id s.subscribed }
