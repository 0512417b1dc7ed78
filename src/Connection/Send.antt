-- ===== src/Connection/Send.antt =====
-- `tcp_connection_send_data` on the channels that `tcp_connection_new` makes.
use by_doing.Prelude.{
  ℕ, ◌+◌, ◌-◌, ◌%◌, ◌≤◌, ◌<◌, ◌≡◌, refl, ap, ◌∙◌, Bool, true, false, none, some, List, arith, ◌==◌,
  if◌then◌else◌, length,
}
use by_doing.Prelude.Int.{pos, eqb_ℤ}
use by_doing.Buffer.{Heap, int_limit, readable_size}
use by_doing.Channel.{tcp_connection, write_event_is_enabled, write_event_enable}
use by_doing.Connection.{
  Connection, Write, wrote, failed, as_int, as_size, size_mod, send_data, keep_rest, finish_send,
}

abbrev pub took_all : List ℕ → Write → Bool
took_all bytes (wrote n) = n == length bytes
took_all bytes (failed _) = false

-- `write` does not take more than it is given.
abbrev pub IsFair : List ℕ → Write → Type 0
IsFair bytes (wrote n) = n ≤ length bytes
IsFair bytes (failed _) = Unit

pub send_data-idle :
    (heap : Heap) (k : Connection) (bytes : List ℕ) (w : Write)
    → write_event_is_enabled k.channel ≡ false
    → k.output_buffer.read_index ≡ k.output_buffer.write_index
    → send_data heap k bytes w
      ≡ finish_send heap k bytes (as_size w) ((length bytes + size_mod - as_size w) % size_mod)
unfolding send_data
send_data-idle heap k bytes w off idle =
    let quiet : eqb_ℤ (readable_size k.output_buffer) (pos 0) ≡ true = ground arith in
    rw off (rw quiet refl)

pub send_data-on :
    (heap : Heap) (k : Connection) (bytes : List ℕ) (w : Write)
    → write_event_is_enabled k.channel ≡ true
    → send_data heap k bytes w ≡ finish_send heap k bytes 0 (length bytes)
unfolding send_data
send_data-on heap k bytes w on = rw on refl

pub send_data-busy :
    (heap : Heap) (k : Connection) (bytes : List ℕ) (w : Write)
    → write_event_is_enabled k.channel ≡ false
    → eqb_ℤ (readable_size k.output_buffer) (pos 0) ≡ false
    → send_data heap k bytes w ≡ finish_send heap k bytes 0 (length bytes)
unfolding send_data
send_data-busy heap k bytes w off busy = rw off (rw busy refl)

-- Bytes beyond the end of the data are read.
finish_send-out :
    (heap : Heap) (k : Connection) (bytes : List ℕ) (sent left : ℕ)
    → 0 < left
    → length bytes < sent + left
    → finish_send heap k bytes sent left ≡ none
finish_send-out heap k bytes sent left some_left out = ground arith

keep_rest-connection :
    (heap : Heap) (k : Connection) (bytes : List ℕ) (sent left : ℕ) (q : ℕ)
    → k.channel.payload ≡ tcp_connection q
    → write_event_is_enabled k.channel ≡ false
    → keep_rest heap k bytes sent left ≡ none
unfolding write_event_enable
keep_rest-connection heap k bytes sent left q owner off = ground arith

pub as_int-small : (n : ℕ) → n < int_limit → as_int n ≡ pos n
as_int-small n h = ground arith

pub left_over : (len n : ℕ) → len < int_limit → n ≤ len → (len + size_mod - n) % size_mod ≡ len - n
left_over len n h fair = omega arith

left_after_failure :
    (len : ℕ) → len < int_limit → (len + size_mod - (size_mod - 1)) % size_mod ≡ len + 1
left_after_failure len h = omega arith

-- On a channel whose data is a connection, as `tcp_connection_new` makes them, with nothing waiting and no
-- interest in writing: if `write` takes all bytes the call returns their number and changes nothing; if it
-- takes fewer, or fails, the behaviour is undefined.
pub send_data-connection :
    (heap : Heap) (k : Connection) (bytes : List ℕ) (w : Write) (q : ℕ)
    → k.channel.payload ≡ tcp_connection q
    → write_event_is_enabled k.channel ≡ false
    → k.output_buffer.read_index ≡ k.output_buffer.write_index
    → length bytes < int_limit
    → IsFair bytes w
    → send_data heap k bytes w ≡ (if took_all bytes w then some (pos (length bytes), k) else none)
send_data-connection heap k bytes (wrote n) q owner off idle small fair =
    let start = send_data-idle heap k bytes (wrote n) off idle in
    let left = left_over (length bytes) n small fair in
    rw start (
      rw left (
        ground (
          arith,
          keep_rest-connection heap k bytes n (length bytes - n) q owner off,
          as_int-small (length bytes) small,
        )))
send_data-connection heap k bytes (failed e) q owner off idle small fair =
    send_data-idle heap k bytes (failed e) off idle
    ∙ ap (finish_send heap k bytes (size_mod - 1)) (left_after_failure (length bytes) small)
    ∙ finish_send-out heap k bytes (size_mod - 1) (length bytes + 1) (omega arith) (omega arith)
