-- ===== src/Io/Stream.antt =====
-- The bytes that a connection holds and will still get, whatever the pieces in which recv hands
-- them over, and what one filling of the buffer and one copy out of it do to them.
use arcus_c_client.Prelude.{
  ℕ, zero, suc, ◌+◌, ◌-◌, ◌≤◌, ◌<◌, ◌≡◌, refl, sym, ap, ◌∙◌, inl, inr, Bool, true, false, some,
  List, [], ◌∷◌, ◌++◌, length, length-append, length-take, length-drop, take, drop, take-append_le,
  drop-append_le, take-take_le, drop-take, drop-drop, take-length, Bool-cases, if◌then◌else◌, arith,
}
use arcus_c_client.ReturnCode.{success}
use arcus_c_client.Text.{Bytes}
use arcus_c_client.Io.{
  Poll, Recv, Channel, max_buffer, poll_loop, io_wait, filled, fill_loop, io_fill, copied,
}

-- One of the next polls finds the socket ready, with nothing but interruptions before it.
unfoldable pub gets_ready : ℕ → ℕ → (ℕ → Poll) → Bool
gets_ready zero n polls = false
gets_ready (suc rounds) n polls = elim (polls n) [
  | Poll.ready ↦ true
  | Poll.interrupted ↦ gets_ready rounds (suc n) polls
  | _ ↦ false
]

-- The bytes that arrive before the first error, end of the stream or wait in vain.
unfoldable pub arrivals : List Recv → Bytes
unfolding gets_ready
arrivals [] = []
arrivals (Recv.received [] ∷ more) = []
arrivals (Recv.received (b ∷ chunk) ∷ more) = (b ∷ chunk) ++ arrivals more
arrivals (Recv.interrupted ∷ more) = arrivals more
arrivals (Recv.would_block polls ∷ more) =
    let rest = arrivals more in if gets_ready 4 0 polls then rest else []
arrivals (Recv.broken ∷ more) = []

-- recv places at most as many bytes as it is given room for.
abbrev pub Delivers : List Recv → Type 0
Delivers [] = Unit {0}
Delivers (Recv.received chunk ∷ more) = (length chunk ≤ max_buffer) × Delivers more
Delivers (Recv.interrupted ∷ more) = Delivers more
Delivers (Recv.would_block polls ∷ more) = Delivers more
Delivers (Recv.broken ∷ more) = Delivers more

-- The bytes between `read_ptr` and the end of the data.
abbrev pub unread : Channel → Bytes
unread c = take c.read_buffer_length (drop c.read_ptr c.read_buffer)

abbrev pub pending : Channel → Bytes
pending c = unread c ++ arrivals c.incoming

-- An open connection that may wait, its data within its buffer.
pub record IsReady (c : Channel) : Type 0 where
  pub opened : c.is_open ≡ true
  pub waits : 0 < c.poll_timeout
  pub room : length c.read_buffer ≡ max_buffer
  pub window : c.read_ptr + c.read_buffer_length ≤ max_buffer
  pub delivery : Delivers c.incoming

poll_loop-gets_ready :
    (rounds n : ℕ) (polls : ℕ → Poll) (c : Channel)
    → gets_ready rounds n polls ≡ true
    → poll_loop rounds n polls c ≡ (success, c)
unfolding poll_loop gets_ready
poll_loop-gets_ready zero n polls c h = cc h
poll_loop-gets_ready (suc rounds) n polls c h =
    ground (arith, poll_loop-gets_ready rounds (suc n) polls c)

io_wait-gets_ready :
    (polls : ℕ → Poll) (c : Channel)
    → 0 < c.poll_timeout
    → gets_ready 4 0 polls ≡ true
    → io_wait polls c ≡ (success, c)
unfolding io_wait
io_wait-gets_ready polls c w h = ground (arith, poll_loop-gets_ready 4 0 polls c)

-- What a filling of the buffer takes of the script.
pub record Taken (script : List Recv) (c : Channel) : Type 0 where
  pub chunk : Bytes
  pub rest : List Recv
  pub returns : fill_loop script c ≡ some (success, filled chunk rest c)
  pub some_bytes : 0 < length chunk
  pub fits : length chunk ≤ max_buffer
  pub order : arrivals script ≡ chunk ++ arrivals rest
  pub more : Delivers rest

fill_loop-Taken :
    (script : List Recv) (c : Channel)
    → 0 < c.poll_timeout
    → Delivers script
    → 0 < length (arrivals script)
    → Taken script c
unfolding fill_loop arrivals
fill_loop-Taken [] c w d h = absurd (omega arith)
fill_loop-Taken (Recv.received [] ∷ more) c w d h = absurd (omega arith)
fill_loop-Taken (Recv.received (b ∷ chunk) ∷ more) c w d h = record {
  chunk = b ∷ chunk;
  rest = more;
  returns = refl;
  some_bytes = omega arith;
  fits = d.0;
  order = refl;
  more = d.1;
}
fill_loop-Taken (Recv.interrupted ∷ more) c w d h =
    let t = fill_loop-Taken more c w d h in
    record {
      chunk = t.chunk;
      rest = t.rest;
      returns = t.returns;
      some_bytes = t.some_bytes;
      fits = t.fits;
      order = t.order;
      more = t.more;
    }
fill_loop-Taken (Recv.would_block polls ∷ more) c w d h = elim (Bool-cases (gets_ready 4 0 polls)) [
  | inl e ↦
      let t = fill_loop-Taken more c w d (rw e at h) in
      record {
        chunk = t.chunk;
        rest = t.rest;
        returns = rw (io_wait-gets_ready polls c w e) t.returns;
        some_bytes = t.some_bytes;
        fits = t.fits;
        order = rw e t.order;
        more = t.more;
      }
  | inr e ↦ absurd (omega (arith, ap length (λ i. if e i then arrivals more else [])))
]
fill_loop-Taken (Recv.broken ∷ more) c w d h = absurd (omega arith)

-- A filling that succeeds: it leaves the stream as it is, and bytes in the buffer.
pub record Refilled (c c' : Channel) : Type 0 where
  pub returns : io_fill c ≡ some (success, c')
  pub some_bytes : 0 < c'.read_buffer_length
  pub same_stream : pending c' ≡ pending c
  pub ready : IsReady c'

pub io_fill-Refilled :
    (c : Channel)
    → IsReady c
    → c.read_buffer_length ≡ 0
    → 0 < length (pending c)
    → (c' : Channel) × Refilled c c'
unfolding io_fill filled
io_fill-Refilled c v empty h =
    let unread_nil : unread c ≡ [] =
      rw (ap (λ n. take n (drop c.read_ptr c.read_buffer)) empty) refl in
    let arriving : pending c ≡ arrivals c.incoming = rw unread_nil refl in
    let t = fill_loop-Taken c.incoming c v.waits v.delivery (rw arriving at h) in
    let tail = drop (length t.chunk) c.read_buffer in
    (
      filled t.chunk t.rest c,
      record {
        returns = t.returns;
        some_bytes = t.some_bytes;
        same_stream =
            rw
              (
                take-append_le (length t.chunk) t.chunk tail (omega arith),
                take-length t.chunk,
                arriving,
              )
              (sym t.order);
        ready = record {
          opened = v.opened;
          waits = v.waits;
          room = omega (
            arith,
            v.room,
            t.fits,
            length-append t.chunk tail,
            length-drop (length t.chunk) c.read_buffer,
          );
          window = omega (arith, t.fits);
          delivery = t.more;
        };
      },
    )

pub length-unread : (c : Channel) → IsReady c → length (unread c) ≡ c.read_buffer_length
length-unread c v = omega (
  arith,
  v.room,
  v.window,
  length-take c.read_buffer_length (drop c.read_ptr c.read_buffer),
  length-drop c.read_ptr c.read_buffer,
)

-- A copy out of the buffer takes the next bytes of the stream.
pub record Copied (n : ℕ) (c : Channel) : Type 0 where
  pub bytes : (copied n c).0 ≡ take n (pending c)
  pub rest : pending (copied n c).1 ≡ drop n (pending c)
  pub ready : IsReady (copied n c).1

pub copied_lem : (n : ℕ) (c : Channel) → IsReady c → n ≤ c.read_buffer_length → Copied n c
unfolding copied
copied_lem n c v h =
    let held = length-unread c v in
    let window = drop c.read_ptr c.read_buffer in
    let size : n + (c.read_buffer_length - n) ≡ c.read_buffer_length = omega arith in
    record {
      bytes = sym (
          take-append_le n (unread c) (arrivals c.incoming) (omega arith)
          ∙ take-take_le n c.read_buffer_length window h);
      rest =
          ap (λ l. l ++ arrivals c.incoming)
            (ap (take (c.read_buffer_length - n)) (sym (drop-drop n c.read_ptr c.read_buffer))
              ∙ sym (drop-take n (c.read_buffer_length - n) window)
              ∙ ap (λ k. drop n (take k window)) size)
          ∙ sym (drop-append_le n (unread c) (arrivals c.incoming) (omega arith));
      ready = record {
        opened = v.opened;
        waits = v.waits;
        room = v.room;
        window = omega (arith, v.window);
        delivery = v.delivery;
      };
    }
