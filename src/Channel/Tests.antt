-- ===== src/Channel/Tests.antt =====
-- The channel code at concrete values.
use by_doing.Prelude.{◌≡◌, refl, true, none, some, [], ◌∷◌, arith}
use by_doing.Prelude.Int.{ℤ, pos}
use by_doing.Channel.{
  Channel, ChannelMap, event_loop, tcp_connection, handle_read, double_until, make_space, map_clear,
  map_init, write_event_enable,
}
use by_doing.Channel.Space.{HasSpace, make_space_lem}

wake : Channel
wake = record {
  fd = pos 4;
  events = 2;
  read_callback = some handle_read;
  write_callback = none;
  payload = event_loop;
}

switches :
    (write_event_enable wake ≡ some (record wake { events = 6 }))
    × (write_event_enable (record wake { payload = tcp_connection 1 }) ≡ none)
unfolding write_event_enable wake
switches = (refl, refl)

doubles : double_until 101 32 100 ≡ some 128
unfolding double_until
doubles = refl

abbrev two : ChannelMap
two = record { entries = none ∷ some 7 ∷ []; nentries = 2 }

clears : map_clear two ≡ (7 ∷ [], map_init)
unfolding map_clear
clears = refl

make_space_example :
    (r : ℤ) × (m : ChannelMap) × (make_space (λ n. true) two 5 8 ≡ some (r, m))
    × HasSpace (λ n. true) two 5 r m
make_space_example = make_space_lem (λ n. true) two 5 refl (omega arith)
