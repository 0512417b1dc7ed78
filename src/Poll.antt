-- ===== src/Poll.antt =====
-- NetWork/lib/poll_dispatcher.c: the array of `struct pollfd` that `poll` watches.
pub mod Watch
pub mod Dispatch
pub mod Register
mod Tests
use by_doing.Prelude.{
  ℕ, zero, suc, ◌+◌, ◌-◌, ◌^◌, ◌<◌, Bool, true, false, ◌&&◌, ◌||◌, Option, none, some, List, [],
  ◌∷◌, ltb, leb, ◌==◌, if◌then◌else◌, replicate, get_elem?,
}
use by_doing.Prelude.Int.{ℤ, pos, negsuc, eqb_ℤ}
use by_doing.Channel.{Channel, has_flag, event_read, event_write}

abbrev pub init_poll_size : ℕ
init_poll_size = 1024

-- The mask of `events` and `revents`, of which the code uses POLLRDNORM and POLLWRNORM; `other` stands
-- for the bits that it does not look at.
pub record PollMask : Type 0 where
  pub rd_norm : Bool
  pub wr_norm : Bool
  pub other : Bool

pub record PollFd : Type 0 where
  pub fd : ℤ
  pub events : PollMask
  pub revents : PollMask

abbrev pub no_mask : PollMask
no_mask = record { rd_norm = false; wr_norm = false; other = false }

-- A place that is not used has the descriptor -1.
abbrev pub unused : PollFd
unused = record { fd = negsuc 0; events = no_mask; revents = no_mask }

-- `malloc` leaves `events` and `revents` undefined; they are not read while the descriptor is -1.
unfoldable pub poll_init : List PollFd
poll_init = replicate init_poll_size unused

abbrev pub is_negative : ℤ → Bool
is_negative (pos _) = false
is_negative (negsuc _) = true

-- The translation of a channel's events, which `poll_add` and `poll_update` share.
abbrev pub poll_events : Channel → PollMask
poll_events c = record {
  rd_norm = has_flag event_read c.events;
  wr_norm = has_flag event_write c.events;
  other = false;
}

-- The loop over the places: the first one with `test` is changed, the flag says whether there is one.
unfoldable pub change_first : (PollFd → Bool) → (PollFd → PollFd) → List PollFd → Bool × List PollFd
change_first test change [] = (false, [])
change_first test change (p ∷ ps) =
    let (found, rest) = change_first test change ps in
    if test p then (true, change p ∷ ps) else (found, p ∷ rest)

-- The first result says whether there was a place; without one the code logs a message and returns 0 all
-- the same.
unfoldable pub poll_add : List PollFd → Channel → Bool × List PollFd
unfolding change_first
poll_add set c =
    change_first (λ p. is_negative p.fd) (λ p. record p { fd = c.fd; events = poll_events c }) set

unfoldable pub poll_del : List PollFd → Channel → Bool × List PollFd
unfolding change_first
poll_del set c = change_first (λ p. eqb_ℤ p.fd c.fd) (λ p. record p { fd = negsuc 0 }) set

unfoldable pub poll_update : List PollFd → Channel → Bool × List PollFd
unfolding change_first
poll_update set c =
    change_first (λ p. eqb_ℤ p.fd c.fd) (λ p. record p { events = poll_events c }) set

-- One place that `poll` reported: its events go to `channel_event_activate`, reading first.
module _ {S : Type 0} (event_set : S → List PollFd) (activate : S → ℤ → ℕ → Option S) where
  abbrev pub activate_if : Bool → ℕ → ℤ → S → Option S
  activate_if false event fd s = some s
  activate_if true event fd s = activate s fd event

  unfoldable pub activate_place : S → PollFd → Option S
  activate_place s p = elim (activate_if p.revents.rd_norm event_read p.fd s) [
    | none ↦ none
    | some s' ↦ activate_if p.revents.wr_norm event_write p.fd s'
  ]

  abbrev pub is_ready : PollFd → Bool
  is_ready p = p.revents.rd_norm || (p.revents.wr_norm || p.revents.other)

  -- The loop, with the number of rounds that are left; each round reads the array as the callbacks have
  -- left it.
  unfoldable pub poll_scan : ℕ → ℕ → ℕ → S → Option S
  unfolding activate_place
  poll_scan zero i ready s = some s
  poll_scan (suc rounds) i ready s = elim (get_elem? (event_set s) i) [
    | none ↦ none
    | some p ↦ elim (is_negative p.fd) [
      | true ↦ poll_scan rounds (i + 1) ready s
      | false ↦ elim (is_ready p) [
        | false ↦ poll_scan rounds (i + 1) ready s
        | true ↦ elim (activate_place s p) [
          | none ↦ none
          | some s' ↦ elim (leb ready 1) [
            | true ↦ some s'
            | false ↦ poll_scan rounds (i + 1) (ready - 1) s'
          ]
        ]
      ]
    ]
  ]

  -- `poll` has written `revents` into the array and returned `ready_number`; on an error the program exits,
  -- `none`.
  unfoldable pub poll_dispatch : ℤ → S → Option S
  unfolding poll_scan
  poll_dispatch (negsuc _) s = none
  poll_dispatch (pos zero) s = some s
  poll_dispatch (pos (suc ready)) s = poll_scan init_poll_size 0 (suc ready) s
