-- ===== src/EventLoop.antt =====
-- NetWork/lib/event_loop.c: registering channels through the pending queue.
-- The code is generic in the dispatcher, as in the source. A function that takes the mutex is one atomic
-- step. Channels are read through the store, at the addresses that the queue and the table hold;
-- `none` is undefined behaviour or a failed assertion.
pub mod Table
pub mod Pending
pub mod Refine
pub mod Faults
pub mod Start
mod Tests
use by_doing.Prelude.{
  ℕ, zero, suc, ◌+◌, ◌-◌, Bool, true, false, Option, none, some, List, [], ◌∷◌, ◌++◌, leb, ◌==◌,
  if◌then◌else◌, get_elem?, set,
}
use by_doing.Prelude.Int.{ℤ, pos, negsuc, eqb_ℤ}
use by_doing.Channel.{
  Channel, ChannelMap, Callback, Payload, make_space, map_init, has_flag, event_read, event_write,
  channel_new,
}
use by_doing.Dispatcher.{Dispatcher}

-- The heap of channels: `none` at an address that holds no channel.
abbrev pub Store : Type 0
Store = ℕ → Option Channel

-- `struct channel_element`: `type` is 1 to add, 2 to remove, 3 to update.
pub record Element : Type 0 where
  pub type : ℕ
  pub channel : ℕ

-- The list from `pending_head` to `pending_tail` is a list of elements; both are null where it is empty.
-- `wakeups` counts the bytes that have been written to the socket pair and not read.
pub record EventLoop (D : Type 0) : Type 0 where
  pub quit : Bool
  pub dispatcher_data : D
  pub channel_map : ChannelMap
  pub is_handle_pending : Bool
  pub pending : List Element
  pub owner_thread : ℕ
  pub wakeups : ℕ

-- A callback is called if it is wanted and there.
abbrev pub calls : Bool → Option Callback → Payload → List (Callback × Payload)
calls false f payload = []
calls true none payload = []
calls true (some f) payload = (f, payload) ∷ []

module _ {D : Type 0} (d : Dispatcher D) (available : ℕ → Bool) (store : Store) where
  -- The size of a pointer.
  abbrev pub pointer_size : ℕ
  pointer_size = 8

  abbrev pub space_for : ChannelMap → ℕ → Option (ℤ × ChannelMap)
  space_for m n =
      if leb m.nentries n then make_space available m n pointer_size else some (pos 0, m)

  -- The end of `event_loop_handle_pending_add`, with the entry in hand.
  abbrev pub fill_entry : EventLoop D → ChannelMap → ℕ → ℕ → Option (ℤ × EventLoop D)
  fill_entry l m n p = elim (get_elem? m.entries n) [
    | none ↦ none
    | some entry ↦ elim entry [
      | some _ ↦ some (pos 0, record l { channel_map = m })
      | none ↦ elim (store p) [
        | none ↦ none
        | some c ↦ some (
          pos 1,
          record l {
            channel_map = record m { entries = set m.entries n (some p) };
            dispatcher_data = (d.add l.dispatcher_data c).1;
          },
        )
      ]
    ]
  ]

  -- The channel that the table holds for `n`, through the store; a null pointer is dereferenced.
  abbrev pub entry_channel : EventLoop D → ℕ → Option Channel
  entry_channel l n = elim (get_elem? l.channel_map.entries n) [
    | none ↦ none
    | some entry ↦ elim entry [ none ↦ none | some q ↦ store q ]
  ]

  unfoldable pub handle_pending_add : EventLoop D → ℤ → ℕ → Option (ℤ × EventLoop D)
  unfolding make_space
  handle_pending_add l (negsuc _) p = some (pos 0, l)
  handle_pending_add l (pos n) p = elim (space_for l.channel_map n) [
    | none ↦ none
    | some (r, m) ↦ elim r [
      | negsuc _ ↦ some (negsuc 0, record l { channel_map = m })
      | pos _ ↦ fill_entry l m n p
    ]
  ]

  -- The channel that is deleted is the one of the table. A null pointer there is dereferenced.
  abbrev pub clear_entry : EventLoop D → ℕ → Option (ℤ × EventLoop D)
  clear_entry l n = elim (entry_channel l n) [
    | none ↦ none
    | some c ↦
        let (r, after) = d.del l.dispatcher_data c in
        some (
          if eqb_ℤ r (negsuc 0) then negsuc 0 else pos 1,
          record l {
            channel_map = record (l.channel_map) { entries = set l.channel_map.entries n none };
            dispatcher_data = after;
          },
        )
  ]

  -- The assertion compares with the descriptor of the channel passed.
  unfoldable pub handle_pending_remove : EventLoop D → ℤ → ℕ → Option (ℤ × EventLoop D)
  handle_pending_remove l fd p = elim (store p) [
    | none ↦ none
    | some c ↦
        if eqb_ℤ fd c.fd
        then elim fd [
          | negsuc _ ↦ some (pos 0, l)
          | pos n ↦ if leb l.channel_map.nentries n then some (negsuc 0, l) else clear_entry l n
        ]
        else none
  ]

  -- There is no test against `nentries`, so a descriptor beyond the table is read out of bounds. After the
  -- dispatcher's `update` the function ends without a value, the inner `none`.
  unfoldable pub handle_pending_update : EventLoop D → ℤ → ℕ → Option (Option ℤ × EventLoop D)
  handle_pending_update l (negsuc _) p = some (some (pos 0), l)
  handle_pending_update l (pos n) p = elim (get_elem? l.channel_map.entries n) [
    | none ↦ none
    | some entry ↦ elim entry [
      | none ↦ some (some (negsuc 0), l)
      | some _ ↦ elim (store p) [
        | none ↦ none
        | some c ↦ some (none, record l { dispatcher_data = (d.update l.dispatcher_data c).1 })
      ]
    ]
  ]

  -- One round of the loop in `event_loop_handle_pending_channel`; results are not looked at.
  unfoldable pub handle_element : EventLoop D → Element → Option (EventLoop D)
  unfolding handle_pending_add handle_pending_remove handle_pending_update
  handle_element l e = elim (store e.channel) [
    | none ↦ none
    | some c ↦
        if e.type == 1
        then elim (handle_pending_add l c.fd e.channel) [ none ↦ none | some (_, l') ↦ some l' ]
        else if e.type == 2
        then elim (handle_pending_remove l c.fd e.channel) [ none ↦ none | some (_, l') ↦ some l' ]
        else if e.type == 3
        then elim (handle_pending_update l c.fd e.channel) [ none ↦ none | some (_, l') ↦ some l' ]
        else some l
  ]

  unfoldable pub handle_elements : EventLoop D → List Element → Option (EventLoop D)
  unfolding handle_element
  handle_elements l [] = some l
  handle_elements l (e ∷ es) = elim (handle_element l e) [
    | none ↦ none
    | some l' ↦ handle_elements l' es
  ]

  -- `event_loop_handle_pending_channel`
  unfoldable pub handle_pending_channel : EventLoop D → Option (EventLoop D)
  unfolding handle_elements
  handle_pending_channel l =
      elim (handle_elements (record l { is_handle_pending = true }) l.pending) [
        | none ↦ none
        | some l' ↦ some (record l' { pending = []; is_handle_pending = false })
      ]

  -- `event_loop_channel_buffer_nolock`
  abbrev pub channel_buffer_nolock : EventLoop D → ℕ → ℕ → EventLoop D
  channel_buffer_nolock l p type = record l {
    pending = l.pending ++ (record { type = type; channel = p } ∷ []);
  }

  -- `written` says whether `write` took the byte; a failure is only logged.
  abbrev pub wakeup : Bool → EventLoop D → EventLoop D
  wakeup written l = if written then record l { wakeups = l.wakeups + 1 } else l

  -- `event_loop_do_channel_event`, called by the thread `self`. `written` is for the call of `wakeup`.
  unfoldable pub do_channel_event : Bool → ℕ → EventLoop D → ℕ → ℕ → Option (EventLoop D)
  unfolding handle_pending_channel
  do_channel_event written self l p type =
      if l.is_handle_pending
      then none
      else let queued = channel_buffer_nolock l p type in
        if l.owner_thread == self
        then handle_pending_channel queued
        else some (wakeup written queued)

  unfoldable pub add_channel_event : Bool → ℕ → EventLoop D → ℕ → Option (EventLoop D)
  unfolding do_channel_event
  add_channel_event written self l p = do_channel_event written self l p 1

  unfoldable pub remove_channel_event : Bool → ℕ → EventLoop D → ℕ → Option (EventLoop D)
  unfolding do_channel_event
  remove_channel_event written self l p = do_channel_event written self l p 2

  unfoldable pub update_channel_event : Bool → ℕ → EventLoop D → ℕ → Option (EventLoop D)
  unfolding do_channel_event
  update_channel_event written self l p = do_channel_event written self l p 3

  -- `channel_event_activate`: the value, and the callbacks that it calls with their data, in order. Both are
  -- read from the channel before the first call, and no callback of the library changes them.
  unfoldable pub channel_event_activate :
      EventLoop D → ℤ → ℕ → Option (ℤ × List (Callback × Payload))
  channel_event_activate l (negsuc _) revents = some (pos 0, [])
  channel_event_activate l (pos n) revents =
      if leb l.channel_map.nentries n then some (negsuc 0, []) else elim (entry_channel l n) [
        | none ↦ none
        | some c ↦
            if eqb_ℤ (pos n) c.fd
            then some (
              pos 0,
              calls (has_flag event_read revents) c.read_callback c.payload
                  ++ calls (has_flag event_write revents) c.write_callback c.payload,
            )
            else none
      ]

  -- `handleWakeup` reads one byte. With none in the socket pair the read would block: `none`.
  unfoldable pub handle_wakeup : EventLoop D → Option (EventLoop D)
  handle_wakeup l = if l.wakeups == 0 then none else some (record l { wakeups = l.wakeups - 1 })

-- `channel` is written at the address `p`.
abbrev pub put_channel : Store → ℕ → Channel → Store
put_channel store p channel q = if q == p then some channel else store q

module _ {D : Type 0} (d : Dispatcher D) (available : ℕ → Bool) (store : Store) where
  -- `event_loop_init_with_name`, with the store that it leaves. `pair` are the two ends that `socketpair`
  -- makes; where it fails they are never set, `none`. `malloc` puts the channel at the address `p`. The
  -- thread that makes the loop owns it, so nothing is written to the socket pair.
  unfoldable pub event_loop_init : ℕ → Option (ℕ × ℕ) → ℕ → Option (EventLoop D × Store)
  unfolding add_channel_event map_init channel_new
  event_loop_init self none p = none
  event_loop_init self (some (end_0, end_1)) p =
      let channel =
        channel_new (pos end_1) event_read (some Callback.handle_wakeup) none Payload.event_loop in
      elim (add_channel_event d available (put_channel store p channel) true self
        (record {
          quit = false;
          dispatcher_data = d.start;
          channel_map = map_init;
          is_handle_pending = false;
          pending = [];
          owner_thread = self;
          wakeups = 0;
        })
        p) [ none ↦ none | some l ↦ some (l, put_channel store p channel) ]
