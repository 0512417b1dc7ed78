-- ===== src/Channel/Flags.antt =====
-- The write interest of a channel.
use by_doing.Prelude.{ℕ, Bool, ◌≡◌, refl, true, false, some, arith}
use by_doing.Channel.{
  Channel, event_loop, event_read, event_write, has_flag, with_flag, without_flag,
  write_event_is_enabled, write_event_enable, write_event_disable,
}

-- The read interest stays, whatever becomes of the write interest.
read_flag-with : (e : ℕ) → has_flag event_read (with_flag event_write e) ≡ has_flag event_read e
read_flag-with e = ground arith

read_flag-without :
    (e : ℕ) → has_flag event_read (without_flag event_write e) ≡ has_flag event_read e
read_flag-without e = ground arith

-- What a call that succeeds has changed: the write interest is `on`, all else is as before.
pub record Switched (c : Channel) (on : Bool) (c' : Channel) : Type 0 where
  pub enabled : write_event_is_enabled c' ≡ on
  pub read_kept : has_flag event_read c'.events ≡ has_flag event_read c.events
  pub rest_kept : record c' { events = c.events } ≡ c

-- On a channel whose data is an event loop, enabling and disabling write events switch exactly that
-- interest.
pub write_event-Switched :
    (c : Channel)
    → c.payload ≡ event_loop
    → ((a : Channel) × (write_event_enable c ≡ some a) × Switched c true a)
      × ((b : Channel) × (write_event_disable c ≡ some b) × Switched c false b)
unfolding write_event_enable write_event_disable write_event_is_enabled
write_event-Switched c h = (
  (
    record c { events = with_flag event_write c.events },
    ground (arith, h),
    record { enabled = ground arith; read_kept = read_flag-with c.events; rest_kept = refl },
  ),
  (
    record c { events = without_flag event_write c.events },
    ground (arith, h),
    record { enabled = ground arith; read_kept = read_flag-without c.events; rest_kept = refl },
  ),
)
