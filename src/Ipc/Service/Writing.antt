-- ===== src/Ipc/Service/Writing.antt =====
-- Broadcasts of event_bridge.cpp whose texts are UTF-8: no exception.
use yoru_speech.Common.{
  ◌≡◌, refl, sym, true, false, List, [], ◌∷◌, Option, none, some, has_value, Text,
}
use yoru_speech.Core.Event.{Event}
use yoru_speech.Config.Toml.{TomlLibrary}
use yoru_speech.Ipc.Codec.{JsonLibrary}
use yoru_speech.Ipc.Codec.Events.{encode_event}
use yoru_speech.Ipc.Codec.Utf8.{JsonLaws, IsEncodable, AllEncodable, encode_event_returns}
use yoru_speech.Ipc.Server.{ClientId}
use yoru_speech.Ipc.Service.{Sent, and_then, broadcast_line, broadcast, broadcast_all}

pub and_then-false : (a b : Sent) → a.1 ≡ false → b.1 ≡ false → (and_then a b).1 ≡ false
unfolding and_then
and_then-false (l, true) b e f = e
and_then-false (l, false) b e f = f

broadcast_line-false :
    (ids : List ClientId) (o : Option Text) → has_value o ≡ true → (broadcast_line ids o).1 ≡ false
unfolding broadcast_line
broadcast_line-false ids none h = sym h
broadcast_line-false ids (some line) h = refl

module _ (json : JsonLibrary) (toml : TomlLibrary) (laws : JsonLaws json) {Sample : Type 0} where
  pub broadcast-false :
      (ids : List ClientId) (event : Event Sample)
      → IsEncodable json laws event
      → (broadcast json toml ids event).1 ≡ false
  unfolding broadcast
  broadcast-false [] event v = refl
  broadcast-false (id ∷ ids) event v =
      broadcast_line-false (id ∷ ids) (encode_event json event)
        (encode_event_returns json laws event v)

  pub broadcast_all-false :
      (ids : List ClientId) (events : List (Event Sample))
      → AllEncodable json laws events
      → (broadcast_all json toml ids events).1 ≡ false
  unfolding broadcast_all
  broadcast_all-false ids [] v = refl
  broadcast_all-false ids (event ∷ events) (v, vs) =
      and_then-false (broadcast json toml ids event) (broadcast_all json toml ids events)
        (broadcast-false ids event v) (broadcast_all-false ids events vs)
