-- ===== src/Poll/Register.antt =====
-- The poll dispatcher as an implementation of the dispatcher interface.
use by_doing.Prelude.{ℕ, ◌≤◌, ◌≡◌, none, List, arith}
use by_doing.Prelude.Int.{pos}
use by_doing.Channel.{Channel}
use by_doing.Dispatcher.{Dispatcher, DispatcherLaws}
use by_doing.Poll.{
  PollFd, PollMask, init_poll_size, poll_events, poll_init, poll_add, poll_del, poll_update,
}
use by_doing.Poll.Watch.{
  watched, free_places, Unique, watched-poll_add, watched-poll_update, watched-poll_del,
  Unique-poll_add, Unique-poll_del, Unique-poll_update, free_places-poll_add, free_places-poll_del,
  free_places-poll_update, unused_places, Unique-unused,
}

pub update-free : (s : List PollFd) (c : Channel) → free_places s ≤ free_places (poll_update s c).1
update-free s c = omega (arith, free_places-poll_update s c)

-- All three operations return 0, also where they found no place.
abbrev pub poll_dispatcher : Dispatcher (List PollFd)
poll_dispatcher = record {
  start = poll_init;
  add = λ s c. (pos 0, (poll_add s c).1);
  del = λ s c. (pos 0, (poll_del s c).1);
  update = λ s c. (pos 0, (poll_update s c).1);
}

pub start-Unique : Unique poll_init
unfolding poll_init
start-Unique = Unique-unused init_poll_size

pub start_watched : (k : ℕ) → watched poll_init k ≡ none
unfolding poll_init
start_watched k = (unused_places init_poll_size k).0

pub free_places-poll_init : free_places poll_init ≡ init_poll_size
unfolding poll_init
free_places-poll_init = (unused_places init_poll_size 0).1

-- The array of the poll dispatcher fills the laws, as the table of `watched`.
abbrev pub poll-DispatcherLaws : DispatcherLaws poll_dispatcher
poll-DispatcherLaws = record {
  Mask = PollMask;
  mask = poll_events;
  IsGood = Unique;
  watched = watched;
  free = free_places;
  start-IsGood = start-Unique;
  start-watched = start_watched;
  add-IsGood = λ s c n e room new u. Unique-poll_add s c n e room new u;
  add-watched = λ s c n k e room new u. watched-poll_add s c n k e room new;
  add-free = free_places-poll_add;
  del-IsGood = λ s c n e u. Unique-poll_del s c n e u;
  del-watched = λ s c n k e u. watched-poll_del s c n k e u;
  del-free = free_places-poll_del;
  update-IsGood = λ s c n e u. Unique-poll_update s c n e u;
  update-watched = λ s c n k e u. watched-poll_update s c n k e;
  update-free = update-free;
}
