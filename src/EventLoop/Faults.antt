-- ===== src/EventLoop/Faults.antt =====
-- What the handlers do with a descriptor that is not registered.
use by_doing.Prelude.{
  ℕ, ◌≡◌, Bool, true, none, some, arith, leb, if◌then◌else◌, get_elem?-some, get_elem?-none, inl,
  inr, Bool-cases,
}
use by_doing.Prelude.Int.{pos, negsuc}
use by_doing.Channel.{Channel}
use by_doing.Channel.Space.{entry_of, IsWellFormed}
use by_doing.Dispatcher.{Dispatcher}
use by_doing.EventLoop.{
  EventLoop, Store, handle_pending_remove, handle_pending_update, do_channel_event,
}

module _ {D : Type 0} (d : Dispatcher D) (available : ℕ → Bool) (store : Store) (l : EventLoop D)
    (w : IsWellFormed l.channel_map) (n p : ℕ) (c : Channel) where
  -- With a descriptor that is not registered, removing faults on the null pointer inside the table, and
  -- returns -1 beyond it; updating is the other way round: it returns -1 inside the table, and beyond it
  -- reads out of bounds. Where they return, nothing has changed.
  pub unregistered :
      store p ≡ some c
      → c.fd ≡ pos n
      → entry_of l.channel_map.entries n ≡ none
      → (handle_pending_remove d available store l (pos n) p
          ≡ (if leb l.channel_map.nentries n then some (negsuc 0, l) else none))
        × (handle_pending_update d available store l (pos n) p
            ≡ (if leb l.channel_map.nentries n then none else some (some (negsuc 0), l)))
  unfolding handle_pending_remove handle_pending_update
  unregistered at fd absent = elim (Bool-cases (leb l.channel_map.nentries n)) [
    | inl beyond ↦ (
      ground (arith, at, fd, beyond),
      ground (arith, beyond, get_elem?-none l.channel_map.entries n),
    )
    | inr inside ↦
        let (o, here) = get_elem?-some l.channel_map.entries n (ground (arith, inside, w)) in
        (ground (arith, at, fd, inside, here, absent), ground (arith, inside, here, absent))
  ]

-- While the queue is being handled, a further call fails its assertion.
pub do_channel_event-asserts :
    {D : Type 0} (d : Dispatcher D) (available : ℕ → Bool) (store : Store) (written : Bool)
    (self : ℕ) (l : EventLoop D) (p type : ℕ)
    → l.is_handle_pending ≡ true
    → do_channel_event d available store written self l p type ≡ none
unfolding do_channel_event
do_channel_event-asserts d available store written self l p type busy = rw busy
