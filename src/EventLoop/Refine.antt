-- ===== src/EventLoop/Refine.antt =====
-- `event_loop_handle_pending_channel` and `event_loop_do_channel_event` as operations on the table of
-- registrations.
use by_doing.Prelude.{
  ℕ, ◌+◌, ◌≤◌, ◌≡◌, ◌≢◌, refl, Bool, true, false, if◌then◌else◌, Option, none, some, List, [], ◌∷◌,
  ◌++◌, arith, Option-cases, inl, inr, length, length-append,
}
use mathlib.Core.List.{append-nil, append_assoc}
use by_doing.Dispatcher.{Dispatcher, DispatcherLaws}
use by_doing.EventLoop.{
  EventLoop, Element, Store, handle_elements, handle_pending_channel, do_channel_event,
}
use by_doing.EventLoop.Pending.{
  Registry, registry_step, registry_run, Registers, handle_element-Handled,
}

-- A call by another thread: the thread, the channel, the type, and whether the byte is written.
abbrev pub Post : Type 0
Post = ℕ × ℕ × ℕ × Bool

abbrev pub elements_of : List Post → List Element
elements_of [] = []
elements_of ((self, p, type, written) ∷ posts) =
    record { type = type; channel = p } ∷ elements_of posts

-- The bytes that the calls write.
abbrev pub bytes_of : List Post → ℕ
bytes_of [] = 0
bytes_of ((self, p, type, written) ∷ posts) =
    let later = bytes_of posts in if written then later + 1 else later

abbrev pub AllForeign : ℕ → List Post → Type 0
AllForeign owner [] = Unit
AllForeign owner ((self, p, type, written) ∷ posts) = (owner ≢ self) × AllForeign owner posts

module _ {D : Type 0} (d : Dispatcher D) (available : ℕ → Bool) (store : Store) where
  -- Calls in the order in which the threads get the mutex.
  unfoldable pub post_all : EventLoop D → List Post → Option (EventLoop D)
  unfolding do_channel_event
  post_all l [] = some l
  post_all l ((self, p, type, written) ∷ posts) =
      elim (do_channel_event d available store written self l p type) [
        | none ↦ none
        | some l' ↦ post_all l' posts
      ]

module _ {D : Type 0} (d : Dispatcher D) (laws : DispatcherLaws d) (available : ℕ → Bool)
    (store : Store) (memory : (bytes : ℕ) → available bytes ≡ true) where
  open laws use {Mask, mask, free}

  -- The flag and the queue are no part of the registrations.
  pub reflag :
      (l : EventLoop D) (t : Registry Mask) (flag : Bool) (queue : List Element)
      → Registers d laws available store l t
      → Registers d laws available store (record l { is_handle_pending = flag; pending = queue }) t
  reflag l t flag queue h = record {
    synced = record {
      well_formed = h.synced.well_formed;
      good = h.synced.good;
      stored = h.synced.stored;
      seen = h.synced.seen;
    };
    addresses = h.addresses;
    masks = h.masks;
  }

  rewake :
      (l : EventLoop D) (t : Registry Mask) (wakeups : ℕ) (queue : List Element)
      → Registers d laws available store l t
      → Registers d laws available store (record l { pending = queue; wakeups = wakeups }) t
  rewake l t wakeups queue h = record {
    synced = record {
      well_formed = h.synced.well_formed;
      good = h.synced.good;
      stored = h.synced.stored;
      seen = h.synced.seen;
    };
    addresses = h.addresses;
    masks = h.masks;
  }

  pub handle_elements_refines :
      (es : List Element) (l : EventLoop D) (t t' : Registry Mask)
      → Registers d laws available store l t
      → length es ≤ free l.dispatcher_data
      → registry_run mask store t es ≡ some t'
      → (l' : EventLoop D) × (handle_elements d available store l es ≡ some l')
        × Registers d laws available store l' t'
  unfolding handle_elements registry_run
  handle_elements_refines [] l t t' h room run =
      let is_t' : t ≡ t' = ground (arith, run) in (l, refl, rw is_t' at h)
  handle_elements_refines (e ∷ es) l t t' h room run =
      elim (Option-cases (registry_step mask store t e)) [
        | inl stuck ↦ absurd (ground (arith, stuck, run))
        | inr (t1, step) ↦
            let (l1, one) =
              handle_element-Handled d laws available store memory l t t1 e h (omega arith) step in
            let (l', rest, good) =
              handle_elements_refines es l1 t1 t' one.registers (omega (arith, one.room))
                (ground (arith, step, run)) in
            (l', ground (arith, one.done, rest), good)
      ]

  -- With memory for the table: if the table of registrations accepts the queue in its order, and the
  -- dispatcher has a free place for each element, `event_loop_handle_pending_channel` ends without a fault,
  -- with the table's registrations, an empty queue, and the flag down.
  pub handle_pending_channel_refines :
      (l : EventLoop D) (t t' : Registry Mask)
      → Registers d laws available store l t
      → length l.pending ≤ free l.dispatcher_data
      → registry_run mask store t l.pending ≡ some t'
      → (l' : EventLoop D) × (handle_pending_channel d available store l ≡ some l')
        × Registers d laws available store l' t'
        × (l'.pending ≡ [])
        × (l'.is_handle_pending ≡ false)
  unfolding handle_pending_channel
  handle_pending_channel_refines l t t' h room run =
      let (l', go, good) =
        handle_elements_refines l.pending (record l { is_handle_pending = true }) t t'
          (reflag l t true l.pending h) room run in
      (
        record l' { pending = []; is_handle_pending = false },
        ground (arith, go),
        reflag l' t' false [] good,
        refl,
        refl,
      )

  -- With memory for the table: if the table of registrations accepts the queue with the new element, and the
  -- dispatcher has a free place for each, a call by the owner, while the queue is not being handled, adds its
  -- element to the queue and handles the whole queue at once.
  pub do_channel_event-owner :
      (l : EventLoop D) (t t' : Registry Mask) (written : Bool) (p type : ℕ)
      → Registers d laws available store l t
      → l.is_handle_pending ≡ false
      → length l.pending + 1 ≤ free l.dispatcher_data
      → registry_run mask store t (l.pending ++ (record { type = type; channel = p } ∷ []))
        ≡ some t'
      → (l' : EventLoop D) × (do_channel_event d available store written l.owner_thread l p type
          ≡ some l')
        × Registers d laws available store l' t'
        × (l'.pending ≡ [])
        × (l'.is_handle_pending ≡ false)
  unfolding do_channel_event
  do_channel_event-owner l t t' written p type h idle room run =
      let queue = l.pending ++ (record { type = type; channel = p } ∷ []) in
      let (l', go, good, empty, down) =
        handle_pending_channel_refines (record l { pending = queue }) t t'
          (reflag l t l.is_handle_pending queue h)
          (omega (arith, length-append l.pending (record { type = type; channel = p } ∷ []))) run in
      (l', ground (arith, go, idle), good, empty, down)

  posted : EventLoop D → List Post → EventLoop D
  posted l posts = record l {
    pending = l.pending ++ elements_of posts;
    wakeups = l.wakeups + bytes_of posts;
  }

  post_all_lem :
      (posts : List Post) (l : EventLoop D)
      → l.is_handle_pending ≡ false
      → AllForeign l.owner_thread posts
      → post_all d available store l posts ≡ some (posted l posts)
  unfolding post_all posted
  post_all_lem [] l idle foreign = ground (arith, append-nil l.pending)
  post_all_lem ((self, p, type, written) ∷ posts) l idle foreign =
      let next = record l {
        pending = l.pending ++ (record { type = type; channel = p } ∷ []);
        wakeups = if written then l.wakeups + 1 else l.wakeups;
      } in
      ground (
        arith,
        idle,
        foreign.0,
        post_all_lem posts next idle foreign.1,
        append_assoc l.pending (record { type = type; channel = p } ∷ []) (elements_of posts),
      )

  -- With memory for the table: calls by other threads only queue their elements, and each whose `write`
  -- succeeds adds one byte to wake the loop. If the table of registrations accepts the whole queue, and the
  -- dispatcher has a free place for each element, then all of them take effect, in the order of the calls,
  -- when the owner handles the queue.
  pub post_all-handle :
      (l : EventLoop D) (t t' : Registry Mask) (posts : List Post)
      → Registers d laws available store l t
      → l.is_handle_pending ≡ false
      → AllForeign l.owner_thread posts
      → length (l.pending ++ elements_of posts) ≤ free l.dispatcher_data
      → registry_run mask store t (l.pending ++ elements_of posts) ≡ some t'
      → (q : EventLoop D) × (l' : EventLoop D) × (post_all d available store l posts ≡ some q)
        × (q.wakeups ≡ l.wakeups + bytes_of posts)
        × (handle_pending_channel d available store q ≡ some l')
        × Registers d laws available store l' t'
  unfolding posted
  post_all-handle l t t' posts h idle foreign room run =
      let q = posted l posts in
      let (l', go, good, empty, down) =
        handle_pending_channel_refines q t t'
          (rewake l t (l.wakeups + bytes_of posts) (l.pending ++ elements_of posts) h) room run in
      (q, l', post_all_lem posts l idle foreign, refl, go, good)
