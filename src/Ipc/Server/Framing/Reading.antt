-- ===== src/Ipc/Server/Framing/Reading.antt =====
-- What poll_once of ipc_server.cpp does with one client's reads, one after another.
use yoru_speech.Common.{
  ltb, tests, ◌<◌, ◌≤◌, ◌≡◌, refl, sym, ap, ◌∙◌, Bool, true, false, Bool-cases, List, [], ◌∷◌, ◌++◌,
  append_assoc, append-nil, some, inl, inr, ◌⊎◌, Text, length, flatten, is_empty, if◌then◌else◌,
  arith,
}
use mathlib.Core.Path.{subst}
use yoru_speech.Ipc.Server.{
  ClientId, Buffers, max_line_bytes, buffer_of, set_buffer, bytes, read_client,
}
use yoru_speech.Ipc.Server.Framing.{split_lines, each, read_lem}

-- The reads of one client that each returned a chunk of bytes, until poll_once disconnects it.
pub read_each :
    {Y : Type 0}
    → (ClientId → Text → Y → Y)
    → ClientId
    → List Text
    → Buffers
    → Y
    → Buffers × Bool × Y
read_each on_line id [] bs y = (bs, false, y)
read_each on_line id (chunk ∷ chunks) bs y =
    let (bs', gone, y') = read_client on_line id (some (bytes chunk)) bs y in
    let rest = read_each on_line id chunks bs' y' in if is_empty gone then rest else (bs', true, y')

-- After none of these reads is the unfinished rest of the stream longer than the cap.
abbrev pub AllFit : Text → List Text → Type 0
AllFit so [] = Unit
AllFit so (chunk ∷ chunks) =
    (length (split_lines (so ++ chunk)).1 ≤ max_line_bytes) × AllFit (so ++ chunk) chunks

-- The callback got exactly the lines of the stream, and its rest is in the buffer.
abbrev pub Delivered :
    {Y : Type 0} → (ClientId → Text → Y → Y) → ClientId → Text → Y → Buffers → Y → Type 0
Delivered on_line id stream y bs' y' =
    (buffer_of id bs' ≡ (split_lines stream).1) × (y' ≡ each (on_line id) (split_lines stream).0 y)

abbrev pub Reads :
    {Y : Type 0}
    → (ClientId → Text → Y → Y)
    → ClientId
    → Text
    → List Text
    → Y
    → Buffers × Bool × Y
    → Type 0
Reads on_line id so chunks y (bs', gone, y') =
    ((gone ≡ false) × AllFit so chunks × Delivered on_line id (so ++ flatten chunks) y bs' y')
    ⊎ ((earlier : List Text) × (chunk : Text) × (later : List Text) × (gone ≡ true)
        × (chunks ≡ earlier ++ chunk ∷ later)
        × AllFit so earlier
        × (max_line_bytes < length (split_lines (so ++ (flatten earlier ++ chunk))).1)
        × Delivered on_line id (so ++ (flatten earlier ++ chunk)) y bs' y')

buffer_of-set_buffer :
    (id : ClientId) (text : Text) (bs : Buffers) → buffer_of id (set_buffer id text bs) ≡ text
unfolding buffer_of set_buffer
buffer_of-set_buffer id text [] = ground arith
buffer_of-set_buffer id text ((k, b) ∷ bs) = ground (arith, buffer_of-set_buffer id text bs)

module _ {Y : Type 0} (on_line : ClientId → Text → Y → Y) (id : ClientId) where
  -- One read, where the stream so far was `so`.
  read_client_lem :
      (chunk so : Text) (bs : Buffers) (y : Y)
      → buffer_of id bs ≡ (split_lines so).1
      → let split = split_lines (so ++ chunk) in
        read_client on_line id (some (bytes chunk)) bs (each (on_line id) (split_lines so).0 y) ≡ (
          set_buffer id split.1 bs,
          if ltb max_line_bytes (length split.1) then id ∷ [] else [],
          each (on_line id) split.0 y,
        )
  unfolding read_client
  read_client_lem chunk so bs y h = rw (h, read_lem (on_line id) chunk so y) refl

  stream_lem :
      (so c : Text) (earlier : List Text) (chunk : Text)
      → (so ++ c) ++ (flatten earlier ++ chunk) ≡ so ++ (flatten (c ∷ earlier) ++ chunk)
  stream_lem so c earlier chunk =
      append_assoc so c (flatten earlier ++ chunk)
      ∙ ap (λ t. so ++ t) (sym (append_assoc c (flatten earlier) chunk))

  later-Reads :
      (so c : Text) (chunks : List Text) (y : Y) (r : Buffers × Bool × Y)
      → length (split_lines (so ++ c)).1 ≤ max_line_bytes
      → Reads on_line id (so ++ c) chunks y r
      → Reads on_line id so (c ∷ chunks) y r
  later-Reads so c chunks y (bs', gone, y') fits (inl (g, all, d)) = inl (
    g,
    (fits, all),
    subst (λ t. Delivered on_line id t y bs' y') (append_assoc so c (flatten chunks)) d,
  )
  later-Reads so c chunks y (bs', gone, y') fits (inr (earlier, chunk, later, g, e, all, long, d)) =
      inr (
        c ∷ earlier,
        chunk,
        later,
        g,
        ap (◌∷◌ c) e,
        (fits, all),
        subst (λ t. max_line_bytes < length (split_lines t).1) (stream_lem so c earlier chunk) long,
        subst (λ t. Delivered on_line id t y bs' y') (stream_lem so c earlier chunk) d,
      )

  read_each-Reads :
      (chunks : List Text) (so : Text) (bs : Buffers) (y : Y)
      → buffer_of id bs ≡ (split_lines so).1
      → Reads on_line id so chunks y
          (read_each on_line id chunks bs (each (on_line id) (split_lines so).0 y))
  unfolding read_each
  read_each-Reads [] so bs y h = inl (
    refl,
    tt,
    subst (λ t. Delivered on_line id t y bs (each (on_line id) (split_lines so).0 y))
        (sym (append-nil so)) (h, refl),
  )
  read_each-Reads (chunk ∷ chunks) so bs y h =
      let split = split_lines (so ++ chunk) in
      let kept : buffer_of id (set_buffer id split.1 bs) ≡ split.1 =
        buffer_of-set_buffer id split.1 bs in
      elim (Bool-cases (ltb max_line_bytes (length split.1))) [
        | inl long ↦
            rw (read_client_lem chunk so bs y h, long)
              (inr ([], chunk, chunks, refl, refl, tt, omega (tests, long), (kept, refl)))
        | inr fits ↦
            rw (read_client_lem chunk so bs y h, fits)
              (later-Reads so chunk chunks y _ (ground (arith, fits))
                (read_each-Reads chunks (so ++ chunk) (set_buffer id split.1 bs) y kept))
      ]

  -- However the reads cut up what a new client sends: while the unfinished rest after a read is at most
  -- kMaxLineBytes bytes, the client stays, the callback gets exactly the lines of the byte stream, in
  -- order and each once, and the rest stays in the buffer. The first read after which the rest is
  -- longer disconnects the client, and the callback got exactly the lines of the stream up to and with
  -- that read.
  pub read_each_lem :
      (chunks : List Text) (bs : Buffers) (y : Y)
      → buffer_of id bs ≡ []
      → Reads on_line id [] chunks y (read_each on_line id chunks bs y)
  read_each_lem chunks bs y h = read_each-Reads chunks [] bs y h
