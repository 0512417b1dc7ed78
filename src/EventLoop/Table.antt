-- ===== src/EventLoop/Table.antt =====
-- What an event loop has registered: a table from descriptors to the channel's address and the events
-- watched, and the effect on it of one pending element.
use by_doing.Prelude.{
  ℕ, ◌+◌, ◌^◌, ◌≤◌, ◌<◌, ◌≡◌, refl, ◌∙◌, ap, Bool, true, false, Option, none, some, List, arith,
  ◌==◌, if◌then◌else◌, set, length, get_elem?-set, get_elem?-none, get_elem?-some, length-set,
  Bool-cases, inl, inr, dec_lt,
}
use by_doing.Prelude.Int.{ℤ, pos, negsuc, eqb_ℤ}
use by_doing.Channel.{Channel, ChannelMap}
use by_doing.Channel.Space.{entry_of, IsWellFormed, make_space_lem}
use by_doing.Dispatcher.{Dispatcher, DispatcherLaws}
use by_doing.EventLoop.{
  EventLoop, Store, space_for, handle_pending_add, handle_pending_remove, handle_pending_update,
}

-- A descriptor for which the table's size does not overflow.
abbrev pub fd_limit : ℕ
fd_limit = 2 ^ 27

abbrev pub is_some {ℓ} : {A : Type ℓ} → Option A → Bool
is_some none = false
is_some (some _) = true

entry_of-set :
    (es : List (Option ℕ)) (n : ℕ) (v : Option ℕ) (k : ℕ)
    → n < length es
    → entry_of (set es n v) k ≡ (if n == k then v else entry_of es k)
entry_of-set es n v k h = ground (arith, get_elem?-set es n v k)

pub entry_of-inside :
    (es : List (Option ℕ)) (n : ℕ) {p : ℕ} → entry_of es n ≡ some p → n < length es
entry_of-inside es n h = ground (arith, get_elem?-none es n)

module _ {D : Type 0} (d : Dispatcher D) (laws : DispatcherLaws d) (available : ℕ → Bool)
    (store : Store) where
  open laws use {Mask, mask, IsGood, watched, free}

  abbrev pub entry : EventLoop D → ℕ → Option ℕ
  entry l k = entry_of l.channel_map.entries k

  -- Every registered channel is there and has the descriptor under which it is registered, and the
  -- dispatcher watches exactly the registered descriptors.
  pub record IsSynced (l : EventLoop D) : Type 0 where
    pub well_formed : IsWellFormed l.channel_map
    pub good : IsGood l.dispatcher_data
    pub stored :
        (k p : ℕ) → entry l k ≡ some p → (c : Channel) × (store p ≡ some c) × (c.fd ≡ pos k)
    pub seen : (k : ℕ) → is_some (watched l.dispatcher_data k) ≡ is_some (entry l k)

  -- `l'` differs from `l` at most in the entry and the watched events of `n`, which are now these.
  pub record Changed (l : EventLoop D) (n : ℕ) (p : Option ℕ) (m : Option Mask) (l' : EventLoop D)
      : Type 0 where
    pub synced : IsSynced l'
    pub entries : (k : ℕ) → entry l' k ≡ (if n == k then p else entry l k)
    pub masks :
        (k : ℕ) → watched l'.dispatcher_data k ≡ (if n == k then m else watched l.dispatcher_data k)
    pub room : free l.dispatcher_data ≤ free l'.dispatcher_data + 1
    pub queue_kept : l'.pending ≡ l.pending

  -- The parts from which a change of the entry `n` is put together.
  changed :
      (l l' : EventLoop D) (n : ℕ) (p : Option ℕ) (m : Option Mask)
      → IsSynced l
      → IsWellFormed l'.channel_map
      → IsGood l'.dispatcher_data
      → ((k : ℕ) → entry l' k ≡ (if n == k then p else entry l k))
      → ((k : ℕ)
          → watched l'.dispatcher_data k ≡ (if n == k then m else watched l.dispatcher_data k))
      → is_some m ≡ is_some p
      → ((q : ℕ) → p ≡ some q → (c : Channel) × (store q ≡ some c) × (c.fd ≡ pos n))
      → free l.dispatcher_data ≤ free l'.dispatcher_data + 1
      → l'.pending ≡ l.pending
      → Changed l n p m l'
  changed l l' n p m v w g es ms agree own room queue = record {
    synced = record {
      well_formed = w;
      good = g;
      stored = λ k q h. elim (Bool-cases (n == k)) [
        | inl here ↦
            let (c, at, fd) = own q (ground (arith, es k, here, h)) in
            (c, at, ground (arith, fd, here))
        | inr there ↦ v.stored k q (ground (arith, es k, there, h))
      ];
      seen = λ k. ground (arith, es k, ms k, v.seen k, agree);
    };
    entries = es;
    masks = ms;
    room = room;
    queue_kept = queue;
  }

  module _ (l : EventLoop D) (v : IsSynced l) (n p : ℕ) (c : Channel) (stored_at : store p ≡ some c)
      (has_fd : c.fd ≡ pos n) where
    open v use {well_formed, good, stored, seen}

    -- The table after space has been made.
    space_for_lem :
        ((bytes : ℕ) → available bytes ≡ true)
        → n < fd_limit
        → (m : ChannelMap) × (space_for d available store l.channel_map n ≡ some (pos 0, m))
          × IsWellFormed m
          × (n < m.nentries)
          × ((k : ℕ) → entry_of m.entries k ≡ entry l k)
    space_for_lem memory h = elim (dec_lt n l.channel_map.nentries) [
      | yes inside ↦ (l.channel_map, ground arith, well_formed, inside, λ k. refl)
      | no outside ↦
          let (r, m, run, s) = make_space_lem available l.channel_map n well_formed h in
          elim s.outcome [
            | inl (zero_r, room) ↦ (m, ground (arith, run, zero_r), s.well_formed, room, s.same)
            | inr (_, _, bytes, refused) ↦ absurd (cc (memory bytes))
          ]
    ]

    pub handle_pending_add-new :
        ((bytes : ℕ) → available bytes ≡ true)
        → n < fd_limit
        → 0 < free l.dispatcher_data
        → entry l n ≡ none
        → (l' : EventLoop D) × (handle_pending_add d available store l (pos n) p ≡ some (pos 1, l'))
          × Changed l n (some p) (some (mask c)) l'
    unfolding handle_pending_add
    handle_pending_add-new memory h room new =
        let (m, space, w, lt, same) = space_for_lem memory h in
        let (o, here) = get_elem?-some m.entries n (omega arith) in
        let unseen : watched l.dispatcher_data n ≡ none = ground (arith, seen n, new) in
        let l' = record l {
          channel_map = record m { entries = set m.entries n (some p) };
          dispatcher_data = (d.add l.dispatcher_data c).1;
        } in
        (
          l',
          ground (arith, space, here, same n, new, stored_at),
          changed l l' n (some p) (some (mask c)) v (omega (arith, length-set m.entries n (some p)))
              (laws.add-IsGood l.dispatcher_data c n has_fd room unseen good)
              (λ k.
                entry_of-set m.entries n (some p) k (omega arith)
                ∙ ap (λ x. if n == k then some p else x) (same k))
              (λ k. laws.add-watched l.dispatcher_data c n k has_fd room unseen good) refl
              (λ q e. (c, ground (arith, stored_at, e), has_fd)) (laws.add-free l.dispatcher_data c)
              refl,
        )

    -- A descriptor that is registered already stays as it is.
    pub handle_pending_add-again :
        ((bytes : ℕ) → available bytes ≡ true)
        → n < fd_limit
        → (q : ℕ) → entry l n ≡ some q
        → (handle_pending_add d available store l (pos n) p ≡ some (pos 0, l))
    unfolding handle_pending_add
    handle_pending_add-again memory h q old =
        let inside = entry_of-inside l.channel_map.entries n old in
        let (o, here) = get_elem?-some l.channel_map.entries n inside in
        ground (arith, here, old, inside, well_formed)

    pub handle_pending_remove_lem :
        (q : ℕ)
        → entry l n ≡ some q
        → (r : ℤ) × (l' : EventLoop D) × (handle_pending_remove d available store l (pos n) p
            ≡ some (r, l'))
          × Changed l n none none l'
    unfolding handle_pending_remove
    handle_pending_remove_lem q e =
        let inside = entry_of-inside l.channel_map.entries n e in
        let (o, here) = get_elem?-some l.channel_map.entries n inside in
        let (c', at, fd) = stored n q e in
        let l' = record l {
          channel_map = record (l.channel_map) { entries = set l.channel_map.entries n none };
          dispatcher_data = (d.del l.dispatcher_data c').1;
        } in
        (
          if eqb_ℤ (d.del l.dispatcher_data c').0 (negsuc 0) then negsuc 0 else pos 1,
          l',
          ground (arith, stored_at, has_fd, inside, well_formed, here, e, at),
          changed l l' n none none v
              (omega (arith, length-set l.channel_map.entries n none, well_formed))
              (laws.del-IsGood l.dispatcher_data c' n fd good)
              (λ k. entry_of-set l.channel_map.entries n none k inside)
              (λ k. laws.del-watched l.dispatcher_data c' n k fd good) refl (λ q' e'. cc)
              (omega (arith, laws.del-free l.dispatcher_data c')) refl,
        )

    pub handle_pending_update_lem :
        (q : ℕ)
        → entry l n ≡ some q
        → (l' : EventLoop D) × (handle_pending_update d available store l (pos n) p
            ≡ some (none, l'))
          × Changed l n (some q) (some (mask c)) l'
    unfolding handle_pending_update
    handle_pending_update_lem q e =
        let inside = entry_of-inside l.channel_map.entries n e in
        let (o, here) = get_elem?-some l.channel_map.entries n inside in
        let l' = record l { dispatcher_data = (d.update l.dispatcher_data c).1 } in
        (
          l',
          ground (arith, here, e, stored_at),
          changed l l' n (some q) (some (mask c)) v well_formed
              (laws.update-IsGood l.dispatcher_data c n has_fd good)
              (λ k. ground (arith, e, ap (entry l) {x = n} {y = k}))
              (λ k.
                laws.update-watched l.dispatcher_data c n k has_fd good ∙ ground (arith, seen n, e))
              refl (λ q' e'. stored n q' (e ∙ e'))
              (omega (arith, laws.update-free l.dispatcher_data c)) refl,
        )
