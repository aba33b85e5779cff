-- ===== src/Ipc/Service/Replies.antt =====
-- Who hears what when a client sends a line: ipc_service.cpp and event_bridge.cpp.
use mathlib.Core.Path.{subst}
use yoru_speech.Common.{
  ◌≡◌, refl, sym, ap, ◌∙◌, append_assoc, Bool, true, false, List, [], ◌∷◌, ◌++◌, Option, none, some,
  Text, arith,
}
use yoru_speech.Core.Event.{Event}
use yoru_speech.Config.Toml.{TomlLibrary}
use yoru_speech.Ipc.Codec.{JsonLibrary, parse_message}
use yoru_speech.Ipc.Codec.{encode_ack}
use yoru_speech.Ipc.Codec.Events.{encode_event}
use yoru_speech.Ipc.Codec.Throwing.{CanThrow, encode_event-CanThrow}
use yoru_speech.Ipc.Dispatcher.Replying.{HasReply, handle_line-HasReply}
use yoru_speech.Ipc.Dispatcher.{Surroundings, Result, handle_line}
use yoru_speech.Ipc.Dispatcher.Settings.{IsSettled, IsServed, handle_line-IsServed}
use yoru_speech.Ipc.Server.{ClientId, listed}
use yoru_speech.Ipc.Service.{
  Service, Sends, Sent, send_reply, and_then, broadcast_line, Request, subscribe_events,
  unsubscribe_events, command, request_of, to_all, broadcast, broadcast_all, dispatched, answer,
  on_line,
}

-- Every line goes to one of these clients.
abbrev pub AllTo : List ClientId → Sends → Type 0
AllTo ids [] = Unit
AllTo ids ((k, line) ∷ sends) = (listed k ids ≡ true) × AllTo ids sends

append-AllTo :
    (ids : List ClientId) (as' bs : Sends) → AllTo ids as' → AllTo ids bs → AllTo ids (as' ++ bs)
append-AllTo ids [] bs p q = q
append-AllTo ids ((k, line) ∷ as') bs (h, p) q = (h, append-AllTo ids as' bs p q)

weaken-AllTo :
    (k : ClientId) (ids : List ClientId) (sends : Sends) → AllTo ids sends → AllTo (k ∷ ids) sends
unfolding listed
weaken-AllTo k ids [] p = tt
weaken-AllTo k ids ((j, line) ∷ sends) (h, p) = (ground arith, weaken-AllTo k ids sends p)

to_all-AllTo : (line : Text) (ids : List ClientId) → AllTo ids (to_all line ids)
unfolding to_all listed
to_all-AllTo line [] = tt
to_all-AllTo line (id ∷ ids) =
    (ground arith, weaken-AllTo id ids (to_all line ids) (to_all-AllTo line ids))

abbrev ResultIsSettled : {Sample : Type 0} → Result Sample → Type 0
ResultIsSettled none = Unit
ResultIsSettled (some t) = IsSettled t.0

module _ (json : JsonLibrary) where
  -- An exception comes from dump only.
  abbrev pub IsExcused : Bool → Type 0
  IsExcused true = CanThrow json
  IsExcused false = Unit

  -- Lines to these clients only, and no other exception than one of dump.
  abbrev pub IsBroadcast : List ClientId → Sent → Type 0
  IsBroadcast ids (sends, thrown) = AllTo ids sends × IsExcused thrown

  broadcast_line-IsBroadcast :
      (ids : List ClientId) (o : Option Text)
      → (o ≡ none → CanThrow json)
      → IsBroadcast ids (broadcast_line ids o)
  unfolding broadcast_line
  broadcast_line-IsBroadcast ids none h = (tt, h refl)
  broadcast_line-IsBroadcast ids (some line) h = (to_all-AllTo line ids, tt)

  and_then-IsBroadcast :
      (ids : List ClientId) (a b : Sent)
      → IsBroadcast ids a
      → IsBroadcast ids b
      → IsBroadcast ids (and_then a b)
  unfolding and_then
  and_then-IsBroadcast ids (sends, true) b p q = p
  and_then-IsBroadcast ids (sends, false) (more, thrown) p q =
      (append-AllTo ids sends more p.0 q.0, q.1)

  -- Broadcasts to these clients, and then one reply; or an exception of dump, and no reply.
  abbrev pub Replies : ClientId → List ClientId → Sent → Type 0
  Replies id ids (sends, false) =
      (reply : Text) × (news : Sends) × (sends ≡ news ++ (id, reply) ∷ []) × AllTo ids news
  Replies id ids (sends, true) = AllTo ids sends × CanThrow json

  send_reply-Replies :
      (id : ClientId) (ids : List ClientId) (o : Option Text)
      → (o ≡ none → CanThrow json)
      → Replies id ids (send_reply id o)
  unfolding send_reply
  send_reply-Replies id ids none h = (tt, h refl)
  send_reply-Replies id ids (some reply) h = (reply, [], refl, tt)

  and_then-Replies :
      (id : ClientId) (ids : List ClientId) (a b : Sent)
      → IsBroadcast ids a
      → Replies id ids b
      → Replies id ids (and_then a b)
  unfolding and_then
  and_then-Replies id ids (sends, true) b p q = p
  and_then-Replies id ids (sends, false) (more, false) p (reply, news, e, q) = (
    reply,
    sends ++ news,
    ap (λ l. sends ++ l) e ∙ sym (append_assoc sends news ((id, reply) ∷ [])),
    append-AllTo ids sends news p.0 q,
  )
  and_then-Replies id ids (sends, false) (more, true) p (q, thrown) =
      (append-AllTo ids sends more p.0 q, thrown)

module _ (json : JsonLibrary) (toml : TomlLibrary) {Sample : Type 0} where
  pub broadcast-IsBroadcast :
      (ids : List ClientId) (event : Event Sample)
      → IsBroadcast json ids (broadcast json toml ids event)
  unfolding broadcast
  broadcast-IsBroadcast [] event = (tt, tt)
  broadcast-IsBroadcast (id ∷ ids) event =
      broadcast_line-IsBroadcast json (id ∷ ids) (encode_event json event)
        (encode_event-CanThrow json event)

  broadcast_all-IsBroadcast :
      (ids : List ClientId) (events : List (Event Sample))
      → IsBroadcast json ids (broadcast_all json toml ids events)
  unfolding broadcast_all
  broadcast_all-IsBroadcast ids [] = (tt, tt)
  broadcast_all-IsBroadcast ids (event ∷ events) =
      and_then-IsBroadcast json ids (broadcast json toml ids event)
        (broadcast_all json toml ids events) (broadcast-IsBroadcast ids event)
        (broadcast_all-IsBroadcast ids events)

  -- The line is answered.
  abbrev pub IsAnswered : ClientId → Service Sample → Option (Service Sample × Sent) → Type 0
  IsAnswered id s o =
      (r : Service Sample × Sent) × (o ≡ some r)
      × Replies json id s.subscribed r.1
      × IsSettled r.0.daemon

  dispatched-IsAnswered :
      (id : ClientId) (s : Service Sample) (o : Result Sample)
      → IsServed o
      → HasReply json toml o
      → IsAnswered id s (dispatched json toml id s o)
  unfolding dispatched
  dispatched-IsAnswered id s none (r, e, v) h = absurd (ground arith)
  dispatched-IsAnswered id s (some (d, events, reply)) (r, e, v) h = (
    _,
    refl,
    and_then-Replies json id s.subscribed (broadcast_all json toml s.subscribed events)
        (send_reply id reply) (broadcast_all-IsBroadcast s.subscribed events)
        (send_reply-Replies json id s.subscribed reply h),
    subst ResultIsSettled (sym e) v,
  )

  answer-IsAnswered :
      (q : Request) (id : ClientId) (line : Text) (out : Surroundings) (s : Service Sample)
      → IsSettled s.daemon
      → IsAnswered id s (answer json toml q id line out s)
  unfolding answer encode_ack
  answer-IsAnswered subscribe_events id line out s v =
      (_, refl, send_reply-Replies json id s.subscribed _ (λ h. (_, h)), v)
  answer-IsAnswered unsubscribe_events id line out s v =
      (_, refl, send_reply-Replies json id s.subscribed _ (λ h. (_, h)), v)
  answer-IsAnswered command id line out s v =
      dispatched-IsAnswered id s (handle_line json toml line out s.daemon)
        (handle_line-IsServed json toml line out s.daemon v)
        (handle_line-HasReply json toml line out s.daemon)

  -- Whatever line a client sends to a settled daemon, the service meets no undefined behaviour and
  -- broadcasts to none but the subscribed clients. Then it sends that client exactly one reply, or it
  -- sends none and an exception ends the line, which happens only if dump throws for some value. After
  -- a reply the daemon is settled.
  pub on_line-IsAnswered :
      (id : ClientId) (line : Text) (out : Surroundings) (s : Service Sample)
      → IsSettled s.daemon
      → IsAnswered id s (on_line json toml id line out s)
  unfolding on_line
  on_line-IsAnswered id line out s v =
      answer-IsAnswered (request_of (parse_message json line)) id line out s v
