-- ===== src/Connection/Tests.antt =====
-- Connections at concrete values.
use by_doing.Prelude.{
  ℕ, zero, suc, ◌≡◌, refl, Bool, true, false, none, some, List, [], ◌∷◌, arith, ◌==◌, if◌then◌else◌,
}
use by_doing.Prelude.Int.{pos}
use by_doing.Buffer.{Buffer}
use by_doing.Buffer.Window.{IsValid, contents}
use by_doing.Buffer.Plenty.{plenty, plenty-IsWilling}
use by_doing.Channel.{
  Channel, Payload, tcp_connection, handle_read, handle_write, write_event_is_enabled,
}
use by_doing.Channel.Space.{entry_of}
use by_doing.Poll.{PollFd, PollMask, unused}
use by_doing.Poll.Watch.{watched, free_places, Unique}
use by_doing.Poll.Register.{poll_dispatcher, poll-DispatcherLaws}
use by_doing.EventLoop.{EventLoop, Store}
use by_doing.EventLoop.Table.{IsSynced, entry, is_some}
use by_doing.EventLoop.Pending.{Registry, Registers, address_of, mask_of}
use by_doing.Connection.{
  Connection, wrote, run_hook, message, connection_closed, send_data, serve_read,
}
use by_doing.Connection.Send.{send_data-connection}
use by_doing.Connection.Traffic.{Closed, serve_read_lem}

abbrev empty : Buffer
empty = record { bytes = 0 ∷ 0 ∷ 0 ∷ []; total_size = 3; read_index = 0; write_index = 0 }

abbrev socket : Payload → ℕ → Channel
socket payload events = record {
  fd = pos 1;
  events = events;
  read_callback = some handle_read;
  write_callback = some handle_write;
  payload = payload;
}

-- As `tcp_connection_new` makes them.
abbrev made : Connection
made = record {
  channel = socket (tcp_connection 1) 2;
  input_buffer = empty;
  output_buffer = empty;
  has_hook = λ h. true;
}

empty-IsValid : IsValid empty
empty-IsValid = omega arith

short_write_example : send_data plenty made (1 ∷ 2 ∷ 3 ∷ []) (wrote 2) ≡ none
unfolding write_event_is_enabled
short_write_example =
    send_data-connection plenty made (1 ∷ 2 ∷ 3 ∷ []) (wrote 2) 1 refl refl refl (omega arith)
      (omega arith)

full_write : send_data plenty made (1 ∷ 2 ∷ 3 ∷ []) (wrote 3) ≡ some (pos 3, made)
unfolding write_event_is_enabled
full_write =
    send_data-connection plenty made (1 ∷ 2 ∷ 3 ∷ []) (wrote 3) 1 refl refl refl (omega arith)
      (omega arith)

-- Address 10 holds the connection's channel.
abbrev channels : Store
channels p = if p == 10 then some made.channel else none

abbrev reading : PollMask
reading = record { rd_norm = true; wr_norm = false; other = false }

abbrev loop : EventLoop (List PollFd)
loop = record {
  quit = false;
  dispatcher_data = record unused { fd = pos 1; events = reading } ∷ unused ∷ [];
  channel_map = record { entries = none ∷ some 10 ∷ []; nentries = 2 };
  is_handle_pending = false;
  pending = [];
  owner_thread = 0;
  wakeups = 0;
}

abbrev has_memory : ℕ → Bool
has_memory n = true

registry : Registry PollMask
registry k = if 1 == k then some (10, reading) else none

loop-IsSynced : IsSynced poll_dispatcher poll-DispatcherLaws has_memory channels loop
unfolding watched Unique
loop-IsSynced = record { well_formed = refl; good = (refl, (tt, tt)); stored = stored; seen = seen }
  where
    stored :
        (k p : ℕ)
        → entry poll_dispatcher poll-DispatcherLaws has_memory channels loop k ≡ some p
        → (c : Channel) × (channels p ≡ some c) × (c.fd ≡ pos k)
    stored zero p e = absurd (cc)
    stored (suc zero) p e = (made.channel, ground (arith, e), refl)
    stored (suc (suc k)) p e = absurd (cc)

    seen :
        (k : ℕ)
        → is_some (watched loop.dispatcher_data k) ≡ is_some (entry_of loop.channel_map.entries k)
    seen zero = refl
    seen (suc zero) = refl
    seen (suc (suc k)) = ground arith

loop-Registers : Registers poll_dispatcher poll-DispatcherLaws has_memory channels loop registry
unfolding watched registry
loop-Registers = record { synced = loop-IsSynced; addresses = addresses; masks = masks }
  where
    addresses : (k : ℕ) → entry_of loop.channel_map.entries k ≡ address_of (registry k)
    addresses zero = refl
    addresses (suc zero) = refl
    addresses (suc (suc k)) = ground arith

    masks : (k : ℕ) → watched loop.dispatcher_data k ≡ mask_of (registry k)
    masks zero = refl
    masks (suc zero) = refl
    masks (suc (suc k)) = ground arith

abbrev IsGone : Connection → EventLoop (List PollFd) → Type 0
IsGone k l =
    Closed poll_dispatcher poll-DispatcherLaws has_memory channels (λ n. refl) loop registry 1 made
      k l

read_example :
    ((k : Connection) × (serve_read poll_dispatcher has_memory channels true 0 loop plenty made 10
          (some (1 ∷ 2 ∷ []))
        ≡ some (run_hook message, k, loop))
      × IsValid k.input_buffer
      × (contents k.input_buffer ≡ 1 ∷ 2 ∷ []))
    × ((k : Connection) × (l : EventLoop (List PollFd)) × (serve_read poll_dispatcher has_memory
            channels true 0 loop plenty made 10
            (some [])
          ≡ some (run_hook connection_closed, k, l))
        × IsGone k l)
    × ((k : Connection) × (l : EventLoop (List PollFd)) × (serve_read poll_dispatcher has_memory
            channels true 0 loop plenty made 10 none
          ≡ some (run_hook connection_closed, k, l))
        × IsGone k l)
unfolding registry free_places
read_example =
    serve_read_lem poll_dispatcher poll-DispatcherLaws has_memory channels (λ n. refl) true loop
      registry made 10 1 10 reading loop-Registers refl refl (omega arith) refl refl refl plenty 1
      (2 ∷ []) plenty-IsWilling empty-IsValid (omega arith)
