-- ===== src/Ipc/Server/Sending.antt =====
-- What send_line of ipc_server.cpp sends and whom it gives up.
use yoru_speech.Common.{
  ℕ, zero, suc, ◌≤◌, ◌≡◌, refl, ap, ◌⊎◌, inl, inr, true, false, Bool-cases, List, [], ◌∷◌, ◌++◌,
  append_assoc, Text, drop, take, take-append-drop, length, length-drop, ◌≢◌, Extends, occurrences,
  occurrences-append, arith,
}
use yoru_speech.Ipc.Server.{
  ClientId, WriteResult, sent, interrupted, refused, SendEnd, all_sent, gave_up, still_sending,
  send_loop, listed, give_up, after_send, send_line,
}

-- All of it was written; or only a part, and the client was given up or write has not answered often
-- enough.
abbrev pub Sends : Text → Text × SendEnd → Type 0
Sends message (written, end) =
    ((end ≡ all_sent) × (written ≡ message))
    ⊎ (((end ≡ gave_up) ⊎ (end ≡ still_sending)) × Extends written message)

Sends-more :
    (n c : ℕ) (cs : Text) (r : Text × SendEnd)
    → Sends (drop n cs) r
    → Sends (c ∷ cs) (c ∷ take n cs ++ r.0, r.1)
Sends-more n c cs (written, end) (inl (e, w)) = inl (e, ap (◌∷◌ c) (rw w (take-append-drop n cs)))
Sends-more n c cs (written, end) (inr (e, (rest, w))) =
    inr (e, (rest, ap (◌∷◌ c) (rw append_assoc (rw (← w) (rw take-append-drop refl)))))

send_loop-Sends :
    (answers : List WriteResult) (message : Text) → Sends message (send_loop answers message)
unfolding send_loop
send_loop-Sends answers [] = inl (refl, refl)
send_loop-Sends [] (c ∷ cs) = inr (inr refl, (c ∷ cs, refl))
send_loop-Sends (interrupted ∷ answers) (c ∷ cs) = send_loop-Sends answers (c ∷ cs)
send_loop-Sends (refused ∷ answers) (c ∷ cs) = inr (inl refl, (c ∷ cs, refl))
send_loop-Sends (sent zero ∷ answers) (c ∷ cs) = inr (inl refl, (c ∷ cs, refl))
send_loop-Sends (sent (suc n) ∷ answers) (c ∷ cs) =
    Sends-more n c cs (send_loop answers (drop n cs)) (send_loop-Sends answers (drop n cs))

listed_lem : (id : ClientId) (ks : List ClientId) → listed id ks ≡ false → occurrences id ks ≡ 0
unfolding listed
listed_lem id [] h = refl
listed_lem id (k ∷ ks) h = ground (arith, listed_lem id ks)

-- No client is marked twice.
abbrev pub IsOnce : List ClientId → Type 0
IsOnce pending = (k : ClientId) → occurrences k pending ≤ 1

give_up-IsOnce :
    (id : ClientId) (pending : List ClientId) → IsOnce pending → IsOnce (give_up id pending)
unfolding give_up
give_up-IsOnce id pending once k = elim (Bool-cases (listed id pending)) [
  | inl h ↦ rw h (once k)
  | inr h ↦
      rw h (ground (arith, once k, listed_lem id pending h, occurrences-append k pending (id ∷ [])))
]

-- How many of the answers are not EINTR.
abbrev pub answered : List WriteResult → ℕ
answered [] = 0
answered (interrupted ∷ answers) = answered answers
answered (refused ∷ answers) = suc (answered answers)
answered (sent n ∷ answers) = suc (answered answers)

send_loop_ends :
    (answers : List WriteResult) (message : Text)
    → length message ≤ answered answers
    → (send_loop answers message).1 ≢ still_sending
unfolding send_loop
send_loop_ends answers [] h = ground arith
send_loop_ends [] (c ∷ cs) h = absurd (omega arith)
send_loop_ends (interrupted ∷ answers) (c ∷ cs) h = send_loop_ends answers (c ∷ cs) h
send_loop_ends (refused ∷ answers) (c ∷ cs) h = ground arith
send_loop_ends (sent zero ∷ answers) (c ∷ cs) h = ground arith
send_loop_ends (sent (suc n) ∷ answers) (c ∷ cs) h =
    send_loop_ends answers (drop n cs) (omega (arith, length-drop n cs))

pub listed-append : (id : ClientId) (ks : List ClientId) → listed id (ks ++ id ∷ []) ≡ true
unfolding listed
listed-append id [] = ground arith
listed-append id (k ∷ ks) = ground (arith, listed-append id ks)

listed-give_up : (id : ClientId) (pending : List ClientId) → listed id (give_up id pending) ≡ true
unfolding give_up
listed-give_up id pending = elim (Bool-cases (listed id pending)) [
  | inl h ↦ rw h h
  | inr h ↦ rw h (listed-append id pending)
]

-- How a line reaches a client: not at all if it is not connected; whole, with its newline; or cut
-- short, and then the client waits for its disconnection.
unfoldable pub Reaches :
    ClientId → Text → List ClientId → List ClientId → List ClientId × Text → Type 0
Reaches id message connected pending (pending', written) =
    ((listed id connected ≡ false) × (written ≡ []) × (pending' ≡ pending))
    ⊎ ((listed id connected ≡ true) × (written ≡ message) × (pending' ≡ pending))
    ⊎ ((listed id connected ≡ true) × Extends written message × (listed id pending' ≡ true))

loop-Reaches :
    (id : ClientId) (message : Text) (connected pending : List ClientId) (r : Text × SendEnd)
    → listed id connected ≡ true
    → Sends message r
    → r.1 ≢ still_sending
    → Reaches id message connected pending (after_send id r.1 pending, r.0)
unfolding after_send Reaches
loop-Reaches id message connected pending (written, all_sent) c (inl (e, w)) n =
    inr (inl (c, w, refl))
loop-Reaches id message connected pending (written, gave_up) c (inr (e, w)) n =
    inr (inr (c, w, listed-give_up id pending))
loop-Reaches id message connected pending (written, all_sent) c (inr (e, w)) n =
    absurd (ground arith)
loop-Reaches id message connected pending (written, gave_up) c (inl (e, w)) n =
    absurd (ground arith)
loop-Reaches id message connected pending (written, still_sending) c s n = absurd (n refl)

misses :
    (id : ClientId) (message : Text) (connected pending : List ClientId)
    → listed id connected ≡ false
    → Reaches id message connected pending (pending, [])
unfolding Reaches
misses id message connected pending c = inl (c, refl, refl)

after_send-IsOnce :
    (id : ClientId) (end : SendEnd) (pending : List ClientId)
    → IsOnce pending
    → IsOnce (after_send id end pending)
unfolding after_send
after_send-IsOnce id gave_up pending once = give_up-IsOnce id pending once
after_send-IsOnce id _ pending once = once

-- Once write has answered often enough, other than by EINTR, send_line has sent the line and a
-- newline, or a part of them and the client is marked for disconnection; to a client that is not
-- connected it sends nothing and marks nobody. No client is marked twice, if none was before.
pub send_line_lem :
    (answers : List WriteResult) (id : ClientId) (line : Text) (connected pending : List ClientId)
    → IsOnce pending
    → length (line ++ 10 ∷ []) ≤ answered answers
    → let r = send_line answers id line connected pending in
      IsOnce r.0 × Reaches id (line ++ 10 ∷ []) connected pending r
unfolding send_line
send_line_lem answers id line connected pending once h = elim (Bool-cases (listed id connected)) [
  | inr c ↦ rw (send_line, c) (once, misses id (line ++ 10 ∷ []) connected pending c)
  | inl c ↦
      let r = send_loop answers (line ++ 10 ∷ []) in
      rw (send_line, c)
        (
          after_send-IsOnce id r.1 pending once,
          loop-Reaches id (line ++ 10 ∷ []) connected pending r c
              (send_loop-Sends answers (line ++ 10 ∷ []))
              (send_loop_ends answers (line ++ 10 ∷ []) h),
        )
]
