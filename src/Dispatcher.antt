-- ===== src/Dispatcher.antt =====
-- NetWork/lib/event_dispatcher.h: what the event loop asks of an I/O multiplexer, as a record of
-- operations, and what it may rely on. poll_dispatcher.c fills both.
use by_doing.Prelude.{ℕ, ◌+◌, ◌≤◌, ◌<◌, ◌≡◌, Option, none, some, ◌==◌, if◌then◌else◌}
use by_doing.Prelude.Int.{ℤ, pos}
use by_doing.Channel.{Channel}

-- `init`, `add`, `del` and `update` of the struct, over the dispatcher's data.
pub record Dispatcher (D : Type 0) : Type 0 where
  pub start : D
  pub add : D → Channel → ℤ × D
  pub del : D → Channel → ℤ × D
  pub update : D → Channel → ℤ × D

-- The abstract view is a table from descriptors to watched events, with a number of free places.
pub record DispatcherLaws {D : Type 0} (d : Dispatcher D) : Type 1 where
  pub Mask : Type 0
  pub mask : Channel → Mask
  pub IsGood : D → Type 0
  pub watched : D → ℕ → Option Mask
  pub free : D → ℕ
  pub start-IsGood : IsGood d.start
  pub start-watched : (k : ℕ) → watched d.start k ≡ none
  pub add-IsGood :
      (s : D) (c : Channel) (n : ℕ)
      → c.fd ≡ pos n
      → 0 < free s
      → watched s n ≡ none
      → IsGood s
      → IsGood (d.add s c).1
  pub add-watched :
      (s : D) (c : Channel) (n k : ℕ)
      → c.fd ≡ pos n
      → 0 < free s
      → watched s n ≡ none
      → IsGood s
      → watched (d.add s c).1 k ≡ (if n == k then some (mask c) else watched s k)
  pub add-free : (s : D) (c : Channel) → free s ≤ free (d.add s c).1 + 1
  pub del-IsGood : (s : D) (c : Channel) (n : ℕ) → c.fd ≡ pos n → IsGood s → IsGood (d.del s c).1
  pub del-watched :
      (s : D) (c : Channel) (n k : ℕ)
      → c.fd ≡ pos n
      → IsGood s
      → watched (d.del s c).1 k ≡ (if n == k then none else watched s k)
  pub del-free : (s : D) (c : Channel) → free s ≤ free (d.del s c).1
  pub update-IsGood :
      (s : D) (c : Channel) (n : ℕ) → c.fd ≡ pos n → IsGood s → IsGood (d.update s c).1
  pub update-watched :
      (s : D) (c : Channel) (n k : ℕ)
      → c.fd ≡ pos n
      → IsGood s
      → watched (d.update s c).1 k ≡ (
          if n == k
          then elim (watched s n) [ none ↦ none | some _ ↦ some (mask c) ]
          else watched s k)
  pub update-free : (s : D) (c : Channel) → free s ≤ free (d.update s c).1
