-- ===== src/EventLoop/Start.antt =====
-- `event_loop_init_with_name` of NetWork/lib/event_loop.c.
use by_doing.Prelude.{
  ℕ, ◌<◌, ◌≡◌, refl, Bool, true, false, none, some, [], arith, ◌==◌, if◌then◌else◌,
}
use by_doing.Prelude.Int.{pos}
use by_doing.Channel.{Channel, channel_new, event_read, handle_wakeup, Payload, map_init}
use by_doing.Dispatcher.{Dispatcher, DispatcherLaws}
use by_doing.EventLoop.{EventLoop, Store, add_channel_event, put_channel, event_loop_init}
use by_doing.EventLoop.Table.{fd_limit}
use by_doing.EventLoop.Pending.{registry_run, Registers}
use by_doing.EventLoop.Refine.{do_channel_event-owner}

-- What the channel of a new loop must be: it waits for reading at its descriptor, and its callback is that
-- of the socket pair.
abbrev pub wake_channel : ℕ → Channel
wake_channel s = record {
  fd = pos s;
  events = event_read;
  read_callback = some handle_wakeup;
  write_callback = none;
  payload = Payload.event_loop;
}

module _ {D : Type 0} (d : Dispatcher D) where
  abbrev bare : ℕ → EventLoop D
  bare self = record {
    quit = false;
    dispatcher_data = d.start;
    channel_map = map_init;
    is_handle_pending = false;
    pending = [];
    owner_thread = self;
    wakeups = 0;
  }

module _ {D : Type 0} (d : Dispatcher D) (laws : DispatcherLaws d) (available : ℕ → Bool)
    (store : Store) where
  bare-Registers : (self : ℕ) → Registers d laws available store (bare d self) (λ k. none)
  unfolding map_init
  bare-Registers self = record {
    synced = record {
      well_formed = refl;
      good = laws.start-IsGood;
      stored = λ k p e. absurd (cc);
      seen = λ k. ground (arith, laws.start-watched k);
    };
    addresses = λ k. refl;
    masks = laws.start-watched;
  }

  init_run :
      (self a s p : ℕ) (l : EventLoop D)
      → add_channel_event d available
          (put_channel store p (wake_channel s))
          true
          self
          (bare d self)
          p
        ≡ some l
      → event_loop_init d available store self (some (a, s)) p
        ≡ some (l, put_channel store p (wake_channel s))
  unfolding event_loop_init channel_new
  init_run self a s p l run = ground (arith, run)

  put_channel-here : (p : ℕ) (c : Channel) → put_channel store p c p ≡ some c
  put_channel-here p c = ground arith

-- With memory for the table, a free place in the new dispatcher, and a socket pair whose second end is in
-- range: the loop is made, its store has the channel for that end at the address that `malloc` gave, this
-- channel is registered and nothing else, and the queue is empty and not being handled.
pub event_loop_init-Registers :
    {D : Type 0} (d : Dispatcher D) (laws : DispatcherLaws d) (available : ℕ → Bool) (store : Store)
    (memory : (bytes : ℕ) → available bytes ≡ true) (self a s p : ℕ)
    → s < fd_limit
    → 0 < laws.free d.start
    → (l : EventLoop D) × (store' : Store) × (event_loop_init d available store self (some (a, s)) p
        ≡ some (l, store'))
      × (store' p ≡ some (wake_channel s))
      × Registers d laws available store' l
          (λ k. if s == k then some (p, laws.mask (wake_channel s)) else none)
      × (l.pending ≡ [])
      × (l.is_handle_pending ≡ false)
unfolding registry_run add_channel_event
event_loop_init-Registers d laws available store memory self a s p small room =
    let store' = put_channel store p (wake_channel s) in
    let at = put_channel-here d laws available store p (wake_channel s) in
    let (l, run, good, empty, idle) =
      do_channel_event-owner d laws available store' memory (bare d self) (λ k. none) _ true p 1
        (bare-Registers d laws available store' self) refl (omega arith) (ground (arith, at)) in
    (l, store', init_run d laws available store self a s p l run, at, good, empty, idle)
