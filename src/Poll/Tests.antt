-- ===== src/Poll/Tests.antt =====
-- The poll dispatcher at concrete values.
use by_doing.Prelude.{ℕ, ◌≡◌, refl, true, false, Option, none, some, List, [], ◌∷◌, ◌++◌, replicate}
use by_doing.Prelude.Int.{ℤ, pos}
use by_doing.Channel.{Channel, Payload}
use by_doing.Poll.{PollFd, PollMask, unused}
use by_doing.Poll.Watch.{watched, Unique}
use by_doing.Poll.Dispatch.{notices, deliver}

abbrev reading : PollMask
reading = record { rd_norm = true; wr_norm = false; other = false }

abbrev slots : List PollFd
slots =
    record unused { fd = pos 3; events = reading }
    ∷ unused
    ∷ record unused { fd = pos 5; events = reading }
    ∷ []

abbrev chan : ℕ → Channel
chan n = record {
  fd = pos n;
  events = 6;
  read_callback = none;
  write_callback = none;
  payload = Payload.tcp_server;
}

slots-Unique : Unique slots
unfolding Unique watched
slots-Unique = (refl, (tt, (refl, tt)))

-- A program that notes each call of `channel_event_activate`.
abbrev Noted : Type 0
Noted = List PollFd × List (ℤ × ℕ)

abbrev note : Noted → ℤ → ℕ → Option Noted
note (set, calls) fd event = some (set, calls ++ ((fd, event) ∷ []))

abbrev set_of : Noted → List PollFd
set_of s = s.0

abbrev polled : Noted
polled = (
  record unused { fd = pos 3; revents = reading }
      ∷ unused
      ∷ record unused { fd = pos 5; revents = record reading { wr_norm = true } }
      ∷ replicate 1021 unused,
  [],
)

delivers :
    deliver set_of note polled (notices set_of note polled.0)
    ≡ some (polled.0, (pos 3, 2) ∷ (pos 5, 2) ∷ (pos 5, 4) ∷ [])
unfolding deliver notices
delivers = refl
