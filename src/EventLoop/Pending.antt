-- ===== src/EventLoop/Pending.antt =====
-- The elements of the pending queue as operations on a table of registrations.
use by_doing.Prelude.{
  ℕ, ◌+◌, ◌≤◌, ◌<◌, ◌≡◌, Bool, true, Option, none, some, List, [], ◌∷◌, arith, ltb, ◌==◌,
  if◌then◌else◌, Option-cases, inl, inr, ℕ_discrete,
}
use by_doing.Prelude.Int.{pos, negsuc, Int-cases}
use by_doing.Channel.{Channel}
use by_doing.Dispatcher.{Dispatcher, DispatcherLaws}
use by_doing.EventLoop.{EventLoop, Element, Store, handle_element}
use by_doing.EventLoop.Table.{
  fd_limit, entry, IsSynced, Changed, handle_pending_add-new, handle_pending_add-again,
  handle_pending_remove_lem, handle_pending_update_lem,
}

-- A registration: the channel's address and the events that are watched.
abbrev pub Registry : Type 0 → Type 0
Registry M = ℕ → Option (ℕ × M)

abbrev pub address_of : {M : Type 0} → Option (ℕ × M) → Option ℕ
address_of none = none
address_of (some (p, m)) = some p

abbrev pub mask_of : {M : Type 0} → Option (ℕ × M) → Option M
mask_of none = none
mask_of (some (p, m)) = some m

module _ {M : Type 0} (mask : Channel → M) (store : Store) where
  abbrev replace : Registry M → ℕ → Option (ℕ × M) → Registry M
  replace t n r k = if n == k then r else t k

  -- An element for descriptor `n`: adding keeps a registration that is there, removing and updating want
  -- one. `none` is what a caller must not do.
  abbrev registry_change : Registry M → ℕ → ℕ → ℕ → Channel → Option (Registry M)
  registry_change t type n p c =
      if type == 1
      then (if ltb n fd_limit
          then some (elim (t n) [ none ↦ replace t n (some (p, mask c)) | some _ ↦ t ])
          else none)
      else if type == 2
      then elim (t n) [ none ↦ none | some _ ↦ some (replace t n none) ]
      else if type == 3
      then elim (t n) [ none ↦ none | some (q, _) ↦ some (replace t n (some (q, mask c))) ]
      else some t

  -- A negative descriptor is passed over.
  unfoldable pub registry_step : Registry M → Element → Option (Registry M)
  registry_step t e = elim (store e.channel) [
    | none ↦ none
    | some c ↦ elim c.fd [ pos n ↦ registry_change t e.type n e.channel c | negsuc _ ↦ some t ]
  ]

  unfoldable pub registry_run : Registry M → List Element → Option (Registry M)
  unfolding registry_step
  registry_run t [] = some t
  registry_run t (e ∷ es) = elim (registry_step t e) [ none ↦ none | some t' ↦ registry_run t' es ]

module _ {D : Type 0} (d : Dispatcher D) (laws : DispatcherLaws d) (available : ℕ → Bool)
    (store : Store) where
  open laws use {Mask, mask, watched, free}

  -- The event loop has these registrations, and is synced.
  pub record Registers (l : EventLoop D) (t : Registry Mask) : Type 0 where
    pub synced : IsSynced d laws available store l
    pub addresses : (k : ℕ) → entry d laws available store l k ≡ address_of (t k)
    pub masks : (k : ℕ) → watched l.dispatcher_data k ≡ mask_of (t k)

  -- One element keeps the agreement, and uses up at most one free place.
  pub record Handled (l : EventLoop D) (e : Element) (t : Registry Mask) (l' : EventLoop D)
      : Type 0 where
    pub done : handle_element d available store l e ≡ some l'
    pub registers : Registers l' t
    pub room : free l.dispatcher_data ≤ free l'.dispatcher_data + 1

  Changed-Registers :
      (l l' : EventLoop D) (t : Registry Mask) (n : ℕ) (r : Option (ℕ × Mask))
      → Registers l t
      → Changed d laws available store l n (address_of r) (mask_of r) l'
      → Registers l' (replace mask store t n r)
  Changed-Registers l l' t n r h c = record {
    synced = c.synced;
    addresses = λ k. ground (arith, c.entries k, h.addresses k);
    masks = λ k. ground (arith, c.masks k, h.masks k);
  }

  module _ (memory : (bytes : ℕ) → available bytes ≡ true) where
    add-Handled :
        (l : EventLoop D) (t t' : Registry Mask) (n : ℕ) (c : Channel) (e : Element)
        → Registers l t
        → store e.channel ≡ some c
        → c.fd ≡ pos n
        → 0 < free l.dispatcher_data
        → e.type ≡ 1
        → registry_change mask store t e.type n e.channel c ≡ some t'
        → (l' : EventLoop D) × Handled l e t' l'
    unfolding handle_element
    add-Handled l t t' n c e h at fd room type step = elim (Option-cases (t n)) [
      | inl new ↦
          let (l', run, ch) =
            handle_pending_add-new d laws available store l h.synced n e.channel c at fd memory
              (ground (arith, step, type)) room (ground (arith, h.addresses n, new)) in
          let regs = Changed-Registers l l' t n (some (e.channel, mask c)) h ch in
          let is_t' : replace mask store t n (some (e.channel, mask c)) ≡ t' =
            ground (arith, step, type, new) in
          (
            l',
            record {
              done = ground (arith, at, fd, type, run);
              registers = rw is_t' at regs;
              room = ch.room;
            },
          )
      | inr ((q, m), old) ↦
          let run =
            handle_pending_add-again d laws available store l h.synced n e.channel c at fd memory
              (ground (arith, step, type)) q (ground (arith, h.addresses n, old)) in
          let is_t' : t ≡ t' = ground (arith, step, type, old) in
          (
            l,
            record {
              done = ground (arith, at, fd, type, run);
              registers = rw is_t' at h;
              room = omega arith;
            },
          )
    ]

    remove-Handled :
        (l : EventLoop D) (t t' : Registry Mask) (n : ℕ) (c : Channel) (e : Element)
        → Registers l t
        → store e.channel ≡ some c
        → c.fd ≡ pos n
        → e.type ≡ 2
        → registry_change mask store t e.type n e.channel c ≡ some t'
        → (l' : EventLoop D) × Handled l e t' l'
    unfolding handle_element
    remove-Handled l t t' n c e h at fd type step = elim (Option-cases (t n)) [
      | inl new ↦ absurd (ground (arith, step, type, new))
      | inr ((q, m), old) ↦
          let (r, l', run, ch) =
            handle_pending_remove_lem d laws available store l h.synced n e.channel c at fd q
              (ground (arith, h.addresses n, old)) in
          let regs = Changed-Registers l l' t n none h ch in
          let is_t' : replace mask store t n none ≡ t' = ground (arith, step, type, old) in
          (
            l',
            record {
              done = ground (arith, at, fd, type, run);
              registers = rw is_t' at regs;
              room = ch.room;
            },
          )
    ]

    update-Handled :
        (l : EventLoop D) (t t' : Registry Mask) (n : ℕ) (c : Channel) (e : Element)
        → Registers l t
        → store e.channel ≡ some c
        → c.fd ≡ pos n
        → e.type ≡ 3
        → registry_change mask store t e.type n e.channel c ≡ some t'
        → (l' : EventLoop D) × Handled l e t' l'
    unfolding handle_element
    update-Handled l t t' n c e h at fd type step = elim (Option-cases (t n)) [
      | inl new ↦ absurd (ground (arith, step, type, new))
      | inr ((q, m), old) ↦
          let (l', run, ch) =
            handle_pending_update_lem d laws available store l h.synced n e.channel c at fd q
              (ground (arith, h.addresses n, old)) in
          let regs = Changed-Registers l l' t n (some (q, mask c)) h ch in
          let is_t' : replace mask store t n (some (q, mask c)) ≡ t' =
            ground (arith, step, type, old) in
          (
            l',
            record {
              done = ground (arith, at, fd, type, run);
              registers = rw is_t' at regs;
              room = ch.room;
            },
          )
    ]

    pub handle_element-Handled :
        (l : EventLoop D) (t t' : Registry Mask) (e : Element)
        → Registers l t
        → 0 < free l.dispatcher_data
        → registry_step mask store t e ≡ some t'
        → (l' : EventLoop D) × Handled l e t' l'
    unfolding handle_element registry_step
    handle_element-Handled l t t' e h room step = elim (Option-cases (store e.channel)) [
      | inl nothing ↦ absurd (ground (arith, nothing, step))
      | inr (c, at) ↦ elim (Int-cases c.fd) [
        | inl (n, fd) ↦ by_type n c at fd (ground (arith, at, fd, step))
        | inr (n, fd) ↦
            let is_t' : t ≡ t' = ground (arith, at, fd, step) in
            (
              l,
              record {
                done = ground (arith, at, fd);
                registers = rw is_t' at h;
                room = omega arith;
              },
            )
      ]
    ]
      where
        by_type :
            (n : ℕ) (c : Channel)
            → store e.channel ≡ some c
            → c.fd ≡ pos n
            → registry_change mask store t e.type n e.channel c ≡ some t'
            → (l' : EventLoop D) × Handled l e t' l'
        by_type n c at fd change = elim (ℕ_discrete e.type 1) [
          | yes one ↦ add-Handled l t t' n c e h at fd room one change
          | no not_one ↦ elim (ℕ_discrete e.type 2) [
            | yes two ↦ remove-Handled l t t' n c e h at fd two change
            | no not_two ↦ elim (ℕ_discrete e.type 3) [
              | yes three ↦ update-Handled l t t' n c e h at fd three change
              | no other ↦
                  let is_t' : t ≡ t' = ground (arith, change) in
                  (
                    l,
                    record {
                      done = ground (arith, at, fd);
                      registers = rw is_t' at h;
                      room = omega arith;
                    },
                  )
            ]
          ]
        ]
