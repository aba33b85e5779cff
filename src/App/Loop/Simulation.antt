-- ===== src/App/Loop/Simulation.antt =====
-- The run loop over the server against the steps of App/Program: what the server does is seen by the
-- program as lines and disconnections.
use yoru_speech.Common.{
  if◌then◌else◌, ◌≡◌, refl, sym, ap, ◌∙◌, List, [], ◌∷◌, ◌++◌, append-nil, append_assoc, Option,
  none, some, Text, arith,
}
use mathlib.Core.Path.{subst}
use yoru_speech.Config.Toml.{TomlLibrary}
use yoru_speech.Speech.Transcript.{TranscriptionRequest, TranscriptionResult}
use yoru_speech.Session.Silence.{Floats}
use yoru_speech.Session.Live.{LiveConfig}
use yoru_speech.Ipc.Codec.{JsonLibrary}
use yoru_speech.Ipc.Dispatcher.{Surroundings}
use yoru_speech.Ipc.Server.{ClientId, Server}
use yoru_speech.Ipc.Server.Callbacks.{poll_once_keeps}
use yoru_speech.App.Program.{Program, on_line}
use yoru_speech.App.Program.Steps.{
  Action, line, disconnected, polled, ticked, captured, notified, worked, act, step, run,
}
use yoru_speech.App.Loop.{
  Writes, Host, Own, completes, ticks, captures, notifies, works, action_of, Move, serves, goes,
  rings, after_call, disconnect_callback, line_callback, go, move, loop,
}

module _ {Sample : Type 0} where
  -- The actions but for the callbacks of poll_once.
  abbrev pub own_of : List (Action Sample) → List (Action Sample)
  own_of [] = []
  own_of (line id text out ∷ more) = own_of more
  own_of (disconnected id ∷ more) = own_of more
  own_of (action ∷ more) = action ∷ own_of more

  -- The calls beside poll_once.
  abbrev pub gone : List (Move Sample) → List (Action Sample)
  gone [] = []
  gone (goes own writes ∷ moves) = action_of own ∷ gone moves
  gone (m ∷ moves) = gone moves

  own_of-append : (xs ys : List (Action Sample)) → own_of (xs ++ ys) ≡ own_of xs ++ own_of ys
  own_of-append [] ys = refl
  own_of-append (line id text out ∷ xs) ys = own_of-append xs ys
  own_of-append (disconnected id ∷ xs) ys = own_of-append xs ys
  own_of-append (polled between ∷ xs) ys = ap (λ l. polled between ∷ l) (own_of-append xs ys)
  own_of-append (ticked now late ∷ xs) ys = ap (λ l. ticked now late ∷ l) (own_of-append xs ys)
  own_of-append (captured buffer ∷ xs) ys = ap (λ l. captured buffer ∷ l) (own_of-append xs ys)
  own_of-append (notified n ∷ xs) ys = ap (λ l. notified n ∷ l) (own_of-append xs ys)
  own_of-append (worked change ∷ xs) ys = ap (λ l. worked change ∷ l) (own_of-append xs ys)

  own_of-action_of : (own : Own Sample) → own_of (action_of own ∷ []) ≡ action_of own ∷ []
  unfolding action_of
  own_of-action_of (completes between) = refl
  own_of-action_of (ticks now late) = refl
  own_of-action_of (captures buffer) = refl
  own_of-action_of (notifies n) = refl
  own_of-action_of (works change) = refl

  after_call_lem :
      (writes : Writes) (connected pending : List ClientId) (p : Program Sample)
      (o : Option (Program Sample))
      → (after_call writes connected pending p o).1 ≡ o
  unfolding after_call
  after_call_lem writes connected pending p none = refl
  after_call_lem writes connected pending p (some p') = refl

module _ (json : JsonLibrary) (toml : TomlLibrary) (local_time : Text) (copy : Text → Option Text)
    {Sample : Type 0} (floats : Floats Sample) (config : LiveConfig Sample)
    (backend : List Sample → TranscriptionRequest → TranscriptionResult) where
  -- One more step, if there was no undefined behaviour.
  abbrev then_step : Action Sample → Option (Program Sample) → Option (Program Sample)
  then_step a none = none
  then_step a (some q) = step json toml local_time copy floats config backend q a

  abbrev then_run : List (Action Sample) → Option (Program Sample) → Option (Program Sample)
  then_run xs none = none
  then_run xs (some q) = run json toml local_time copy floats config backend q xs

  run-cons :
      (p : Program Sample) (x : Action Sample) (xs : List (Action Sample))
      → run json toml local_time copy floats config backend p (x ∷ xs)
        ≡ then_run xs (step json toml local_time copy floats config backend p x)
  unfolding run
  run-cons p x xs = ground arith

  run-append :
      (p : Program Sample) (xs : List (Action Sample)) (a : Action Sample)
      → run json toml local_time copy floats config backend p (xs ++ a ∷ [])
        ≡ then_step a (run json toml local_time copy floats config backend p xs)
  unfolding run
  run-append p [] a = ground arith
  run-append p (x ∷ xs) a =
      run-cons p x (xs ++ a ∷ [])
      ∙ elim (step json toml local_time copy floats config backend p x)
          as (λ r. then_run (xs ++ a ∷ []) r ≡ then_step a (then_run xs r)) [
            | none ↦ refl
            | some q ↦ run-append q xs a
          ]
      ∙ ap (then_step a) (sym (run-cons p x xs))

  -- The program is what these actions make of p, of which those that are no callbacks are given.
  abbrev pub IsReached : Program Sample → List (Action Sample) → Option (Program Sample) → Type 0
  IsReached p own o =
      (actions : List (Action Sample)) × (own_of actions ≡ own)
      × (o ≡ run json toml local_time copy floats config backend p actions)

  step-IsReached :
      (p : Program Sample) (o : Option (Program Sample)) (own : List (Action Sample))
      (a : Action Sample)
      → IsReached p own o
      → IsReached p (own ++ own_of (a ∷ [])) (then_step a o)
  step-IsReached p o own a (actions, same, reached) = (
    actions ++ a ∷ [],
    own_of-append actions (a ∷ []) ∙ ap (λ l. l ++ own_of (a ∷ [])) same,
    ap (then_step a) reached ∙ sym (run-append p actions a),
  )

  callback-IsReached :
      (p q : Program Sample) (own : List (Action Sample)) (a : Action Sample)
      → own_of (a ∷ []) ≡ []
      → IsReached p own (some q)
      → IsReached p own (step json toml local_time copy floats config backend q a)
  callback-IsReached p q own a none_own v =
      subst (λ l. IsReached p l (step json toml local_time copy floats config backend q a))
        (ap (λ l. own ++ l) none_own ∙ append-nil own) (step-IsReached p (some q) own a v)

  line-IsReached :
      (out : ClientId → Text → Surroundings) (writes : Writes) (p : Program Sample)
      (own : List (Action Sample)) (connected : List ClientId) (id : ClientId) (text : Text)
      (y : List ClientId × Option (Program Sample))
      → IsReached p own y.1
      → IsReached p own
          (line_callback json toml local_time copy floats config backend out writes connected id
            text y).1
  unfolding line_callback step act
  line-IsReached out writes p own connected id text (pending, none) v = v
  line-IsReached out writes p own connected id text (pending, some q) v =
      subst (IsReached p own)
        (sym (
          after_call_lem writes connected pending q (
            if q.terminated
            then some q
            else on_line json toml local_time copy id text (out id text) q)))
        (callback-IsReached p q own (line id text (out id text)) refl v)

  disconnected_step :
      (id : ClientId) (pending : List ClientId) (q : Program Sample)
      → step json toml local_time copy floats config backend q (disconnected id)
        ≡ (disconnect_callback id (pending, some q)).1
  unfolding disconnect_callback step act
  disconnected_step id pending q = ground arith

  disconnect-IsReached :
      (p : Program Sample) (own : List (Action Sample)) (id : ClientId)
      (y : List ClientId × Option (Program Sample))
      → IsReached p own y.1
      → IsReached p own (disconnect_callback id y).1
  unfolding disconnect_callback step act
  disconnect-IsReached p own id (pending, none) v = v
  disconnect-IsReached p own id (pending, some q) v =
      subst (IsReached p own) (disconnected_step id pending q)
        (callback-IsReached p q own (disconnected id) refl v)

  go-IsReached :
      (own : Own Sample) (writes : Writes) (server : Server) (p : Program Sample)
      (before : List (Action Sample)) (o : Option (Program Sample))
      → IsReached p before o
      → IsReached p
          (before ++ action_of own ∷ [])
          (go json toml local_time copy floats config backend own writes server o).program
  unfolding go
  go-IsReached own writes server p before none v =
      subst (λ l. IsReached p (before ++ l) none) (own_of-action_of own)
        (step-IsReached p none before (action_of own) v)
  go-IsReached own writes server p before (some q) v =
      let moved = step-IsReached p (some q) before (action_of own) v in
      subst (IsReached p (before ++ action_of own ∷ []))
        (sym (after_call_lem writes _ server.pending_disconnects q _))
        (subst
          (λ l.
            IsReached p (before ++ l)
              (step json toml local_time copy floats config backend q (action_of own)))
          (own_of-action_of own) moved)

  move-IsReached :
      (m : Move Sample) (h : Host Sample) (p : Program Sample) (before : List (Action Sample))
      → IsReached p before h.program
      → IsReached p
          (before ++ gone (m ∷ []))
          (move json toml local_time copy floats config backend m h).program
  unfolding move
  move-IsReached (serves poll out writes) h p before v =
      subst
        (λ l.
          IsReached p l
            (move json toml local_time copy floats config backend (serves poll out writes)
              h).program)
        (sym (append-nil before))
        (poll_once_keeps (IsReached p before)
          (line_callback json toml local_time copy floats config backend out writes)
          disconnect_callback (line-IsReached out writes p before) (disconnect-IsReached p before)
          poll h.server h.program v)
  move-IsReached (goes own writes) h p before v =
      go-IsReached own writes h.server p before h.program v
  move-IsReached rings h p before v =
      subst (λ l. IsReached p l h.program) (sym (append-nil before)) v

  gone-cons :
      (m : Move Sample) (moves : List (Move Sample))
      → gone (m ∷ moves) ≡ gone (m ∷ []) ++ gone moves
  gone-cons (serves poll out writes) moves = refl
  gone-cons (goes own writes) moves = refl
  gone-cons rings moves = refl

  loop_from :
      (moves : List (Move Sample)) (h : Host Sample) (p : Program Sample)
      (before : List (Action Sample))
      → IsReached p before h.program
      → IsReached p
          (before ++ gone moves)
          (loop json toml local_time copy floats config backend moves h).program
  unfolding loop
  loop_from [] h p before v = subst (λ l. IsReached p l h.program) (sym (append-nil before)) v
  loop_from (m ∷ moves) h p before v =
      let h' = move json toml local_time copy floats config backend m h in
      subst
        (λ l. IsReached p l (loop json toml local_time copy floats config backend moves h').program)
        (append_assoc before (gone (m ∷ [])) (gone moves)
          ∙ ap (λ l. before ++ l) (sym (gone-cons m moves)))
        (loop_from moves h' p (before ++ gone (m ∷ [])) (move-IsReached m h p before v))

  -- Whatever poll, accept, read and write answer to the server of the run loop, the program goes
  -- through a run of its steps in which everything but the lines and disconnections of clients are
  -- the calls beside poll_once, in their order.
  pub loop-IsReached :
      (moves : List (Move Sample)) (server : Server) (p : Program Sample)
      → IsReached p
          (gone moves)
          (loop json toml local_time copy floats config backend moves
            (record { server = server; program = some p })).program
  unfolding run
  loop-IsReached moves server p =
      loop_from moves (record { server = server; program = some p }) p [] ([], refl, refl)
