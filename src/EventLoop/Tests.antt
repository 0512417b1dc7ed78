-- ===== src/EventLoop/Tests.antt =====
-- An event loop with the poll dispatcher at concrete values.
use by_doing.Prelude.{
  ℕ, zero, suc, ◌≡◌, refl, Bool, true, false, none, some, List, [], ◌∷◌, ◌++◌, arith, ◌==◌, Option,
  replicate, if◌then◌else◌,
}
use by_doing.Prelude.Int.{ℤ, pos, negsuc}
use by_doing.Channel.{Channel, Payload, Callback, handle_read}
use by_doing.Poll.{PollFd, PollMask, unused, poll_events}
use by_doing.Poll.Dispatch.{notices, deliver}
use by_doing.Poll.Watch.{watched, free_places, Unique}
use by_doing.Poll.Register.{poll_dispatcher, poll-DispatcherLaws}
use by_doing.EventLoop.{
  EventLoop, Element, Store, handle_pending_remove, handle_pending_update, handle_pending_channel,
  do_channel_event, channel_event_activate,
}
use by_doing.EventLoop.Table.{IsSynced, entry, is_some}
use by_doing.Channel.Space.{entry_of}
use by_doing.EventLoop.Pending.{Registry, registry_run, Registers, address_of, mask_of}
use by_doing.EventLoop.Refine.{
  reflag, handle_pending_channel_refines, do_channel_event-owner, post_all, post_all-handle,
}
use by_doing.EventLoop.Start.{wake_channel, event_loop_init-Registers}
use by_doing.EventLoop.{event_loop_init}
use by_doing.Poll.Register.{free_places-poll_init}
use by_doing.EventLoop.Faults.{unregistered}

abbrev chan : ℕ → ℕ → Channel
chan n events = record {
  fd = pos n;
  events = events;
  read_callback = some handle_read;
  write_callback = none;
  payload = Payload.event_loop;
}

-- Address 10 holds the channel of descriptor 1, address 20 that of descriptor 3.
abbrev heap : Store
heap p = if p == 10 then some (chan 1 2) else if p == 20 then some (chan 3 6) else none

abbrev reading : PollMask
reading = record { rd_norm = true; wr_norm = false; other = false }

abbrev loop : EventLoop (List PollFd)
loop = record {
  quit = false;
  dispatcher_data = unused ∷ record unused { fd = pos 1; events = reading } ∷ unused ∷ unused ∷ [];
  channel_map = record { entries = none ∷ some 10 ∷ []; nentries = 2 };
  is_handle_pending = false;
  pending = [];
  owner_thread = 0;
  wakeups = 0;
}

abbrev has_memory : ℕ → Bool
has_memory n = true

registry : Registry PollMask
registry k = if 1 == k then some (10, reading) else none

loop-IsSynced : IsSynced poll_dispatcher poll-DispatcherLaws has_memory heap loop
unfolding watched Unique
loop-IsSynced = record {
  well_formed = refl;
  good = (tt, (refl, (tt, (tt, tt))));
  stored = stored;
  seen = seen;
}
  where
    stored :
        (k p : ℕ)
        → entry poll_dispatcher poll-DispatcherLaws has_memory heap loop k ≡ some p
        → (c : Channel) × (heap p ≡ some c) × (c.fd ≡ pos k)
    stored zero p e = absurd (cc)
    stored (suc zero) p e = (chan 1 2, ground (arith, e), refl)
    stored (suc (suc k)) p e = absurd (cc)

    seen :
        (k : ℕ)
        → is_some (watched loop.dispatcher_data k) ≡ is_some (entry_of loop.channel_map.entries k)
    seen zero = refl
    seen (suc zero) = refl
    seen (suc (suc k)) = ground arith

loop-Registers : Registers poll_dispatcher poll-DispatcherLaws has_memory heap loop registry
unfolding watched registry
loop-Registers = record { synced = loop-IsSynced; addresses = addresses; masks = masks }
  where
    addresses : (k : ℕ) → entry_of loop.channel_map.entries k ≡ address_of (registry k)
    addresses zero = refl
    addresses (suc zero) = refl
    addresses (suc (suc k)) = ground arith

    masks : (k : ℕ) → watched loop.dispatcher_data k ≡ mask_of (registry k)
    masks zero = refl
    masks (suc zero) = refl
    masks (suc (suc k)) = ground arith

-- Descriptor 3 comes, 1 changes and goes.
abbrev queue : List Element
queue =
    record { type = 1; channel = 20 }
    ∷ record { type = 3; channel = 10 }
    ∷ record { type = 2; channel = 10 }
    ∷ []

abbrev waiting : EventLoop (List PollFd)
waiting = record loop { pending = queue }

after : Registry PollMask
after k =
    if 1 == k
    then none
    else if 1 == k
    then some (10, poll_events (chan 1 2))
    else if 3 == k
    then some (20, poll_events (chan 3 6))
    else registry k

handle_example :
    (l : EventLoop (List PollFd)) × (handle_pending_channel poll_dispatcher has_memory heap waiting
      ≡ some l)
    × Registers poll_dispatcher poll-DispatcherLaws has_memory heap l after
    × (l.pending ≡ [])
    × (l.is_handle_pending ≡ false)
unfolding registry_run free_places registry after
handle_example =
    handle_pending_channel_refines poll_dispatcher poll-DispatcherLaws has_memory heap (λ n. refl)
      waiting registry after
      (reflag poll_dispatcher poll-DispatcherLaws has_memory heap (λ n. refl) loop registry false
        queue loop-Registers)
      (omega arith) refl

post_example :
    (q : EventLoop (List PollFd)) × (l : EventLoop (List PollFd)) × (post_all poll_dispatcher
        has_memory heap loop
        ((7, 20, 1, true) ∷ (8, 10, 2, false) ∷ [])
      ≡ some q)
    × (q.wakeups ≡ 1)
    × (handle_pending_channel poll_dispatcher has_memory heap q ≡ some l)
    × Registers poll_dispatcher poll-DispatcherLaws has_memory heap l (λ k.
      if 1 == k then none else if 3 == k then some (20, poll_events (chan 3 6)) else registry k)
unfolding registry_run free_places registry
post_example =
    post_all-handle poll_dispatcher poll-DispatcherLaws has_memory heap (λ n. refl) loop registry _
      ((7, 20, 1, true) ∷ (8, 10, 2, false) ∷ []) loop-Registers refl (omega arith) (omega arith)
      refl

unregistered_example :
    (handle_pending_remove poll_dispatcher has_memory heap loop (pos 3) 20 ≡ some (negsuc 0, loop))
    × (handle_pending_update poll_dispatcher has_memory heap loop (pos 3) 20 ≡ none)
unregistered_example =
    unregistered poll_dispatcher has_memory heap loop refl 3 20 (chan 3 6) refl refl refl

owner_example :
    (l : EventLoop (List PollFd)) × (do_channel_event poll_dispatcher has_memory heap true 0 loop 20
        1
      ≡ some l)
    × Registers poll_dispatcher poll-DispatcherLaws has_memory heap l
        (λ k. if 3 == k then some (20, poll_events (chan 3 6)) else registry k)
    × (l.pending ≡ [])
    × (l.is_handle_pending ≡ false)
unfolding registry_run free_places registry
owner_example =
    do_channel_event-owner poll_dispatcher poll-DispatcherLaws has_memory heap (λ n. refl) loop
      registry _ true 20 1 loop-Registers refl (omega arith) refl

-- The socket pair has the ends 4 and 5, and the channel is made at address 9.
init_example :
    (l : EventLoop (List PollFd)) × (store : Store) × (event_loop_init poll_dispatcher has_memory
        heap 1
        (some (4, 5))
        9
      ≡ some (l, store))
    × (store 9 ≡ some (wake_channel 5))
    × Registers poll_dispatcher poll-DispatcherLaws has_memory store l
        (λ k. if 5 == k then some (9, reading) else none)
    × (l.pending ≡ [])
    × (l.is_handle_pending ≡ false)
init_example =
    event_loop_init-Registers poll_dispatcher poll-DispatcherLaws has_memory heap (λ n. refl) 1 4 5
      9 (omega arith) (rw free_places-poll_init (omega arith))

-- `channel_event_activate` in the loop of `poll_dispatch`, with the callbacks that it has called.
abbrev Running : Type 0
Running = EventLoop (List PollFd) × List (Callback × Payload)

abbrev activate : Running → ℤ → ℕ → Option Running
activate (l, done) fd event =
    elim (channel_event_activate poll_dispatcher has_memory heap l fd event) [
      | none ↦ none
      | some (r, run) ↦ some (l, done ++ run)
    ]

abbrev set_of : Running → List PollFd
set_of s = s.0.dispatcher_data

abbrev polled : Running
polled = (
  record loop {
    dispatcher_data =
        unused
        ∷ record unused {
          fd = pos 1;
          events = reading;
          revents = record reading { wr_norm = true };
        }
        ∷ replicate 1022 unused;
  },
  [],
)

-- The channel of descriptor 1 has a callback for reading and none for writing.
callbacks_called :
    deliver set_of activate polled (notices set_of activate (set_of polled))
    ≡ some (polled.0, (handle_read, Payload.event_loop) ∷ [])
unfolding deliver notices channel_event_activate
callbacks_called = refl
