-- ===== src/Channel.antt =====
-- NetWork/lib/channel.h, channel.c and channel_map.c: a descriptor with its events and callbacks, and
-- the table from descriptors to channels. A channel is shared by the table, the pending queue and its
-- connection, so it is named by an address into a store.
pub mod Flags
pub mod Space
mod Tests
use by_doing.Prelude.{
  ℕ, zero, suc, ◌+◌, ◌-◌, ◌*◌, ◌/◌, ◌%◌, ◌^◌, Bool, true, false, Option, none, some, List, [], ◌∷◌,
  ◌++◌, ltb, leb, ◌==◌, if◌then◌else◌, replicate,
}
use by_doing.Prelude.Int.{ℤ, pos, negsuc}
use by_doing.Buffer.{int_limit}

-- `EVENT_READ` and `EVENT_WRITE`.
abbrev pub event_read : ℕ
event_read = 2

abbrev pub event_write : ℕ
event_write = 4

-- `events & flag`, `events | flag` and `events & ~flag` for a flag of one bit.
abbrev pub has_flag : ℕ → ℕ → Bool
has_flag flag events = events / flag % 2 == 1

abbrev pub with_flag : ℕ → ℕ → ℕ
with_flag flag events = if has_flag flag events then events else events + flag

abbrev pub without_flag : ℕ → ℕ → ℕ
without_flag flag events = if has_flag flag events then events - flag else events

-- The functions that the library installs as `eventReadCallback` and `eventWriteCallback`.
pub data Callback : Type 0 where
  handle_wakeup handle_connection_established handle_read handle_write : Callback

-- What `void *data` points to.
pub data Payload : Type 0 where
  event_loop : Payload
  tcp_server : Payload
  tcp_connection : ℕ → Payload

pub record Channel : Type 0 where
  pub fd : ℤ
  pub events : ℕ
  pub read_callback : Option Callback
  pub write_callback : Option Callback
  pub payload : Payload

unfoldable pub channel_new : ℤ → ℕ → Option Callback → Option Callback → Payload → Channel
channel_new fd events on_read on_write payload = record {
  fd = fd;
  events = events;
  read_callback = on_read;
  write_callback = on_write;
  payload = payload;
}

unfoldable pub write_event_is_enabled : Channel → Bool
write_event_is_enabled c = has_flag event_write c.events

-- The two calls below first cast `data` to an event loop, and use it: for any other payload the
-- behaviour is undefined, `none`. Their last step, `event_loop_update_channel_event`, follows in
-- the event loop.
unfoldable pub write_event_enable : Channel → Option Channel
write_event_enable c = elim c.payload [
  | event_loop ↦ some (record c { events = with_flag event_write c.events })
  | tcp_server ↦ none
  | tcp_connection _ ↦ none
]

unfoldable pub write_event_disable : Channel → Option Channel
write_event_disable c = elim c.payload [
  | event_loop ↦ some (record c { events = without_flag event_write c.events })
  | tcp_server ↦ none
  | tcp_connection _ ↦ none
]

-- `struct channel_map`: an entry is a null pointer or the address of a channel.
pub record ChannelMap : Type 0 where
  pub entries : List (Option ℕ)
  pub nentries : ℕ

-- `map_init`
unfoldable pub map_init : ChannelMap
map_init = record { entries = []; nentries = 0 }

abbrev pub non_null : List (Option ℕ) → List ℕ
non_null [] = []
non_null (none ∷ es) = non_null es
non_null (some p ∷ es) = p ∷ non_null es

-- The channels that the table holds are freed, in this order, and the table is emptied.
unfoldable pub map_clear : ChannelMap → List ℕ × ChannelMap
unfolding map_init
map_clear m = (non_null m.entries, map_init)

-- `while (nentries <= slot) nentries <<= 1`. The fuel is a bound on the rounds; `none` is the overflow
-- of an `int`.
unfoldable pub double_until : ℕ → ℕ → ℕ → Option ℕ
double_until zero n slot = none
double_until (suc fuel) n slot = elim (leb n slot) [
  | false ↦ some n
  | true ↦ elim (ltb (n * 2) int_limit) [ true ↦ double_until fuel (n * 2) slot | false ↦ none ]
]

-- `realloc` keeps the entries that there are and `memset` nulls the others; `available` says whether it
-- gets so many bytes. The number of bytes is an `int`.
abbrev resized : (ℕ → Bool) → ChannelMap → ℕ → ℕ → Option (ℤ × ChannelMap)
resized available m n msize =
    if ltb (n * msize) int_limit
    then some (
        if available (n * msize)
        then (
          pos 0,
          record { entries = m.entries ++ replicate (n - m.nentries) none; nentries = n },
        )
        else (negsuc 0, m))
    else none

-- The value returned is 0 or -1; `none` is an overflow.
unfoldable pub make_space : (ℕ → Bool) → ChannelMap → ℕ → ℕ → Option (ℤ × ChannelMap)
unfolding double_until
make_space available m slot msize =
    if leb m.nentries slot
    then elim (double_until (suc slot) (if m.nentries == 0 then 32 else m.nentries) slot) [
      | none ↦ none
      | some n ↦ resized available m n msize
    ]
    else some (pos 0, m)
