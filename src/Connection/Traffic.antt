-- ===== src/Connection/Traffic.antt =====
-- `handle_read`: what comes from the socket, and the end of a connection.
use by_doing.Prelude.{
  ℕ, suc, ◌+◌, ◌≤◌, ◌<◌, ◌≡◌, refl, ◌∙◌, Bool-cases, inl, inr, Bool, true, false, none, some,
  Option, List, [], ◌∷◌, ◌++◌, arith, ◌==◌, if◌then◌else◌, length,
}
use by_doing.Prelude.Int.{pos}
use mathlib.Core.List.{append-nil}
use by_doing.Buffer.{Heap, Buffer, int_limit}
use by_doing.Buffer.Window.{IsValid, contents}
use by_doing.Buffer.Append.{IsWilling}
use by_doing.Buffer.Read.{socket_read-Appended, socket_read-failed}
use by_doing.Dispatcher.{Dispatcher, DispatcherLaws}
use by_doing.EventLoop.{EventLoop, Store, remove_channel_event}
use by_doing.EventLoop.Pending.{Registry, registry_run, Registers}
use by_doing.EventLoop.Refine.{do_channel_event-owner}
use by_doing.Connection.{
  Connection, run_hook, nothing, close, hook_if, message, connection_closed, on_read,
  connection_closed_by, serve_read,
}

on_read_lem :
    (heap : Heap) (k : Connection) (c : ℕ) (cs : List ℕ)
    → IsWilling heap
    → IsValid k.input_buffer
    → k.input_buffer.total_size + suc (length cs) < int_limit
    → ((k' : Connection) × (on_read heap k (some (c ∷ cs)) ≡ some (hook_if k message, k'))
        × IsValid k'.input_buffer
        × (contents k'.input_buffer ≡ contents k.input_buffer ++ (c ∷ cs)))
      × ((b : Buffer) × (on_read heap k (some []) ≡ some (close, record k { input_buffer = b }))
          × (contents b ≡ contents k.input_buffer ++ []))
      × (on_read heap k none ≡ some (close, k))
unfolding on_read
on_read_lem heap k c cs w v fits =
    let (b, run, a) = socket_read-Appended heap k.input_buffer (c ∷ cs) w v fits in
    let (e, eof, ae) = socket_read-Appended heap k.input_buffer [] w v (omega arith) in
    (
      (record k { input_buffer = b }, ground (arith, run), a.valid, a.same),
      (e, ground (arith, eof), ae.same),
      ground (arith, socket_read-failed heap k.input_buffer),
    )

module _ {D : Type 0} (d : Dispatcher D) (laws : DispatcherLaws d) (available : ℕ → Bool)
    (store : Store) (memory : (bytes : ℕ) → available bytes ≡ true) where
  open laws use {Mask, mask, free}

  -- The registrations without that of descriptor `n`.
  abbrev pub without : Registry Mask → ℕ → Registry Mask
  without t n = λ k. if n == k then none else t k

  -- The connection has left its event loop, and its input is as it was.
  pub record Closed (l : EventLoop D) (t : Registry Mask) (n : ℕ) (k k' : Connection)
      (l' : EventLoop D) : Type 0 where
    pub registers : Registers d laws available store l' (without t n)
    pub queue : l'.pending ≡ []
    pub input : contents k'.input_buffer ≡ contents k.input_buffer

  module _ (written : Bool) (l : EventLoop D) (t : Registry Mask) (k : Connection) (p n q : ℕ)
      (m : Mask) (synced : Registers d laws available store l t)
      (idle : l.is_handle_pending ≡ false) (quiet : l.pending ≡ [])
      (room : 1 ≤ free l.dispatcher_data) (at : store p ≡ some k.channel)
      (fd : k.channel.fd ≡ pos n) (known : t n ≡ some (q, m)) where
    -- The end of a connection takes its descriptor out of the registrations.
    leave :
        (l' : EventLoop D) × (remove_channel_event d available store written l.owner_thread l p
          ≡ some l')
        × Registers d laws available store l' (without t n)
        × (l'.pending ≡ [])
    unfolding remove_channel_event registry_run
    leave =
        let (l', run, good, empty, _) =
          do_channel_event-owner d laws available store memory l t (without t n) written p 2 synced
            idle (ground (arith, quiet)) (ground (arith, quiet, at, fd, known)) in
        (l', run, good, empty)

    closes :
        (heap : Heap) (received : Option (List ℕ)) (b : Buffer)
        → on_read heap k received ≡ some (close, record k { input_buffer = b })
        → contents b ≡ contents k.input_buffer
        → (k' : Connection) × (l' : EventLoop D) × (serve_read d available store written
              l.owner_thread l heap k p received
            ≡ some (
              if k.has_hook connection_closed then run_hook connection_closed else nothing,
              k',
              l',
            ))
          × Closed l t n k k' l'
    unfolding serve_read connection_closed_by
    closes heap received b read same =
        let (l', run, good, empty) = leave in
        (
          record k { input_buffer = b },
          l',
          ground (arith, read, run),
          record { registers = good; queue = empty; input = same },
        )

    -- With memory for the table and an allocator that does not refuse: let a connection's channel be registered
    -- with a dispatcher that has a free place, by an event loop that has nothing pending, and let its thread
    -- call `handle_read`. The bytes that came stand behind those that wait in the input buffer, the message
    -- callback is called, if there is one, and the loop is as it was. On no bytes, or an error, the loop has
    -- exactly the other descriptors registered, the callback for a closed connection is called, if there is
    -- one, and the input buffer keeps its bytes.
    pub serve_read_lem :
        (heap : Heap) (c : ℕ) (cs : List ℕ)
        → IsWilling heap
        → IsValid k.input_buffer
        → k.input_buffer.total_size + suc (length cs) < int_limit
        → ((k' : Connection) × (serve_read d available store written l.owner_thread l heap k p
                (some (c ∷ cs))
              ≡ some (if k.has_hook message then run_hook message else nothing, k', l))
            × IsValid k'.input_buffer
            × (contents k'.input_buffer ≡ contents k.input_buffer ++ (c ∷ cs)))
          × ((k' : Connection) × (l' : EventLoop D) × (serve_read d available store written
                  l.owner_thread l heap k p
                  (some [])
                ≡ some (
                  if k.has_hook connection_closed then run_hook connection_closed else nothing,
                  k',
                  l',
                ))
              × Closed l t n k k' l')
          × ((k' : Connection) × (l' : EventLoop D) × (serve_read d available store written
                  l.owner_thread l heap k p none
                ≡ some (
                  if k.has_hook connection_closed then run_hook connection_closed else nothing,
                  k',
                  l',
                ))
              × Closed l t n k k' l')
    unfolding serve_read
    serve_read_lem heap c cs w v fits =
        let ((k1, read, valid, same), (b, ended, kept), failed) =
          on_read_lem heap k c cs w v fits in
        (
          (
            k1,
            (elim (Bool-cases (k.has_hook message)) [
              | inl hooked ↦ ground (arith, read, hooked)
              | inr bare ↦ ground (arith, read, bare)
            ]),
            valid,
            same,
          ),
          closes heap (some []) b ended (kept ∙ append-nil (contents k.input_buffer)),
          closes heap none k.input_buffer failed refl,
        )
