-- ===== src/Poll/Dispatch.antt =====
-- `poll_dispatch` of NetWork/lib/poll_dispatcher.c.
use by_doing.Prelude.{
  ℕ, ◌≡◌, Bool, true, false, ◌++◌, Option, none, some, List, [], ◌∷◌, if◌then◌else◌,
}
use by_doing.Prelude.Int.{ℤ}
use by_doing.Channel.{event_read, event_write}
use by_doing.Poll.{PollFd, is_negative, is_ready, activate_place}

module _ {S : Type 0} (event_set : S → List PollFd) (activate : S → ℤ → ℕ → Option S) where
  -- The places that are used and have an event.
  unfoldable pub ready_places : List PollFd → List PollFd
  ready_places [] = []
  ready_places (p ∷ ps) =
      let rest = ready_places ps in
      if is_negative p.fd then rest else if is_ready event_set activate p then p ∷ rest else rest

  -- The places one after the other.
  unfoldable pub visit : S → List PollFd → Option S
  visit s [] = some s
  visit s (p ∷ ps) = elim (activate_place event_set activate s p) [
    | none ↦ none
    | some s' ↦ visit s' ps
  ]

  -- What a used place asks for, by the two bits that count.
  abbrev pub flag_notices : Bool → Bool → ℤ → List (ℤ × ℕ)
  flag_notices true true fd = (fd, event_read) ∷ (fd, event_write) ∷ []
  flag_notices true false fd = (fd, event_read) ∷ []
  flag_notices false true fd = (fd, event_write) ∷ []
  flag_notices false false fd = []

  abbrev pub place_notices : PollFd → List (ℤ × ℕ)
  place_notices p =
      if is_negative p.fd then [] else flag_notices p.revents.rd_norm p.revents.wr_norm p.fd

  -- The descriptors with the events that they are activated for.
  unfoldable pub notices : List PollFd → List (ℤ × ℕ)
  notices [] = []
  notices (p ∷ ps) = place_notices p ++ notices ps

  unfoldable pub deliver : S → List (ℤ × ℕ) → Option S
  deliver s [] = some s
  deliver s ((fd, event) ∷ ns) = elim (activate s fd event) [
    | none ↦ none
    | some s' ↦ deliver s' ns
  ]

  -- A callback that registers or removes nothing.
  abbrev pub KeepsSet : Type 0
  KeepsSet =
      (s : S) (p : PollFd) (s' : S)
      → activate_place event_set activate s p ≡ some s'
      → event_set s' ≡ event_set s
