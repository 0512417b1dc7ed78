-- ===== src/Connection.antt =====
-- NetWork/lib/tcp_connection.c: the two buffers of a connection, and its traffic with the socket.
-- `write` is the argument that says what the system call returns. A connection's callbacks are pointers
-- that may be null; which of them is called is part of a result.
pub mod Send
pub mod Traffic
mod Tests
use by_doing.Prelude.{
  ℕ, zero, suc, ◌+◌, ◌-◌, ◌%◌, ◌^◌, Bool, true, false, ◌&&◌, Option, none, some, List, [], ◌∷◌, ltb,
  leb, ◌==◌, if◌then◌else◌, length, take, drop, slice,
}
use by_doing.Prelude.Int.{ℤ, pos, negsuc, sub_ℕ, eqb_ℤ}
use by_doing.Buffer.{Heap, Buffer, append, socket_read, readable_size, new}
use by_doing.Channel.{
  Channel, Payload, Callback, tcp_connection, handle_read, handle_write, channel_new, event_read,
  write_event_is_enabled, write_event_enable, write_event_disable,
}
use by_doing.Dispatcher.{Dispatcher}
use by_doing.EventLoop.{EventLoop, Store, remove_channel_event}

-- The callbacks that the application gives.
pub data Hook : Type 0 where
  connection_completed message write_completed connection_closed : Hook

pub record Connection : Type 0 where
  pub channel : Channel
  pub input_buffer : Buffer
  pub output_buffer : Buffer
  pub has_hook : Hook → Bool

-- What `write` returns: a number of bytes, or -1 with an error number.
pub data Write : Type 0 where
  wrote : ℕ → Write
  failed : ℕ → Write

abbrev pub size_mod : ℕ
size_mod = 2 ^ 64

-- The result of `write` in a variable of type `size_t`.
abbrev pub as_size : Write → ℕ
as_size (wrote n) = n
as_size (failed _) = size_mod - 1

-- A `size_t` returned as an `int`.
abbrev pub as_int : ℕ → ℤ
as_int n = let low = n % 2 ^ 32 in if ltb low (2 ^ 31) then pos low else negsuc (2 ^ 32 - low - 1)

-- `tcp_connection_new` for the connection at address `self`. Both buffers must have been made.
unfoldable pub connection_new : Heap → ℤ → ℕ → (Hook → Bool) → Option (Bool × Connection)
unfolding new channel_new
connection_new heap fd self hooks = elim (new heap true) [
  | none ↦ none
  | some input ↦ elim (new heap true) [
    | none ↦ none
    | some output ↦ some (
      hooks connection_completed,
      record {
        channel =
            channel_new fd event_read (some handle_read) (some handle_write) (tcp_connection self);
        input_buffer = input;
        output_buffer = output;
        has_hook = hooks;
      },
    )
  ]
]

abbrev pub switch_on : Connection → Option Connection
switch_on k =
    if write_event_is_enabled k.channel then some k else elim (write_event_enable k.channel) [
      | none ↦ none
      | some c ↦ some (record k { channel = c })
    ]

-- The second half of `tcp_connection_send_data`: `left` bytes from `sent` on go to the output buffer, whose
-- reads outside of `bytes` are faults.
abbrev pub keep_rest : Heap → Connection → List ℕ → ℕ → ℕ → Option Connection
keep_rest heap k bytes sent left =
    if leb (sent + left) (length bytes)
    then elim (append heap k.output_buffer (some (slice bytes sent left))) [
      | none ↦ none
      | some b ↦ switch_on (record k { output_buffer = b })
    ]
    else none

abbrev pub finish_send : Heap → Connection → List ℕ → ℕ → ℕ → Option (ℤ × Connection)
finish_send heap k bytes sent left =
    if ltb 0 left
    then elim (keep_rest heap k bytes sent left) [ none ↦ none | some k' ↦ some (as_int sent, k') ]
    else some (as_int sent, k)

-- `nwrited` is a `size_t`, so the test `nwrited >= 0` always holds and `fault` stays 0.
unfoldable pub send_data : Heap → Connection → List ℕ → Write → Option (ℤ × Connection)
unfolding write_event_is_enabled write_event_enable append
send_data heap k bytes w =
    if write_event_is_enabled k.channel
    then finish_send heap k bytes 0 (length bytes)
    else if eqb_ℤ (readable_size k.output_buffer) (pos 0)
    then finish_send heap k bytes (as_size w) ((length bytes + size_mod - as_size w) % size_mod)
    else finish_send heap k bytes 0 (length bytes)

-- The buffer that is sent is another one than the connection's own.
unfoldable pub send_buffer : Heap → Connection → Buffer → Write → Option (ℤ × Connection × Buffer)
unfolding send_data
send_buffer heap k b w = elim (readable_size b) [
  | negsuc _ ↦ none
  | pos size ↦ elim (send_data heap k (slice b.bytes b.read_index size) w) [
    | none ↦ none
    | some (r, k') ↦ some (r, k', record b { read_index = b.read_index + size })
  ]
]

-- What `handle_read` and `handle_write` do besides changing the connection.
pub data Reaction : Type 0 where
  nothing : Reaction
  run_hook : Hook → Reaction
  close : Reaction

abbrev pub hook_if : Connection → Hook → Reaction
hook_if k h = if k.has_hook h then run_hook h else nothing

-- The bytes of `handle_read`. `received` is what `readv` gets; `close` says that the connection is to be
-- closed.
unfoldable pub on_read : Heap → Connection → Option (List ℕ) → Option (Reaction × Connection)
on_read heap k received = elim (socket_read heap k.input_buffer received) [
  | none ↦ none
  | some (n, b) ↦
      let k' = record k { input_buffer = b } in
      elim n [
        | negsuc _ ↦ some (close, k')
        | pos count ↦ if ltb 0 count then some (hook_if k' message, k') else some (close, k')
      ]
]

-- All bytes have been sent: the interest in writing goes.
abbrev pub switch_off : Connection → Option (Reaction × Connection)
switch_off k = elim (write_event_disable k.channel) [
  | none ↦ none
  | some c ↦ some (hook_if k write_completed, record k { channel = c })
]

-- `handle_write`, in the thread of the event loop.
unfoldable pub on_write : Connection → Write → Option (Reaction × Connection)
unfolding write_event_disable
on_write k (failed _) = some (nothing, k)
on_write k (wrote zero) = some (nothing, k)
on_write k (wrote (suc n)) =
    let b = k.output_buffer in
    let k' = record k { output_buffer = record b { read_index = b.read_index + suc n } } in
    if eqb_ℤ (readable_size k'.output_buffer) (pos 0)
    then switch_off k'
    else some (hook_if k' write_completed, k')

-- `handle_connection_closed`: the channel at address `p` leaves its event loop, then the hook is called.
unfoldable pub connection_closed_by :
    {D : Type 0}
    → Dispatcher D
    → (ℕ → Bool)
    → Store
    → Bool
    → ℕ
    → EventLoop D
    → Connection
    → ℕ
    → Option (Reaction × EventLoop D)
unfolding remove_channel_event
connection_closed_by d available store written self l k p =
    elim (remove_channel_event d available store written self l p) [
      | none ↦ none
      | some l' ↦ some (hook_if k connection_closed, l')
    ]

-- `handle_read` as a whole: the bytes, or the end of the connection. The last parts of the result are the
-- connection and its event loop.
unfoldable pub serve_read :
    {D : Type 0}
    → Dispatcher D
    → (ℕ → Bool)
    → Store
    → Bool
    → ℕ
    → EventLoop D
    → Heap
    → Connection
    → ℕ
    → Option (List ℕ)
    → Option (Reaction × Connection × EventLoop D)
unfolding on_read connection_closed_by
serve_read d available store written self l heap k p received = elim (on_read heap k received) [
  | none ↦ none
  | some (reaction, k') ↦
      let closed = connection_closed_by d available store written self l k' p in
      elim reaction [
        | nothing ↦ some (nothing, k', l)
        | run_hook h ↦ some (run_hook h, k', l)
        | close ↦ elim closed [ none ↦ none | some (r, l') ↦ some (r, k', l') ]
      ]
]
