-- ===== src/Poll/Watch.antt =====
-- The array as a table from descriptors to the events that are watched.
use by_doing.Prelude.{
  ℕ, zero, suc, ◌+◌, ◌≤◌, ◌<◌, ◌≡◌, refl, false, Option, none, some, List, [], ◌∷◌, arith, ◌==◌,
  if◌then◌else◌, replicate, Bool-cases, inl, inr,
}
use by_doing.Prelude.Int.{ℤ, pos, negsuc, eqb_ℤ}
use by_doing.Channel.{Channel}
use by_doing.Poll.{
  PollMask, PollFd, unused, is_negative, poll_events, poll_add, poll_del, poll_update,
}

-- The mask of the first place that has the descriptor.
unfoldable pub watched : List PollFd → ℕ → Option PollMask
watched [] n = none
watched (p ∷ ps) n = if eqb_ℤ p.fd (pos n) then some p.events else watched ps n

-- The places that are not used.
unfoldable pub free_places : List PollFd → ℕ
free_places [] = 0
free_places (p ∷ ps) = if is_negative p.fd then suc (free_places ps) else free_places ps

abbrev Absent : ℤ → List PollFd → Type 0
Absent (pos n) ps = watched ps n ≡ none
Absent (negsuc _) ps = Unit

-- No descriptor has two places.
unfoldable pub Unique : List PollFd → Type 0
Unique [] = Unit
Unique (p ∷ ps) = Absent p.fd ps × Unique ps

-- With a place free and the descriptor not watched, `poll_add` makes the array watch the channel's events for
-- its descriptor, and every other descriptor as before.
pub watched-poll_add :
    (set : List PollFd) (c : Channel) (n k : ℕ)
    → c.fd ≡ pos n
    → 0 < free_places set
    → watched set n ≡ none
    → watched (poll_add set c).1 k ≡ (if n == k then some (poll_events c) else watched set k)
unfolding watched free_places poll_add
watched-poll_add [] c n k e room new = absurd (omega arith)
watched-poll_add (p ∷ ps) c n k e room new = elim (Bool-cases (is_negative p.fd)) [
  | inl free ↦ ground (arith, free, e)
  | inr used ↦ ground (arith, used, e, watched-poll_add ps c n k e)
]

-- `poll_update` changes what is watched for the channel's descriptor to the channel's events if the
-- descriptor is watched, and nothing else.
pub watched-poll_update :
    (set : List PollFd) (c : Channel) (n k : ℕ)
    → c.fd ≡ pos n
    → watched (poll_update set c).1 k ≡ (
        if n == k
        then elim (watched set n) [ none ↦ none | some _ ↦ some (poll_events c) ]
        else watched set k)
unfolding watched poll_update
watched-poll_update [] c n k e = ground arith
watched-poll_update (p ∷ ps) c n k e = ground (arith, e, watched-poll_update ps c n k e)

-- In an array without a descriptor in two places, after `poll_del` the channel's descriptor is not
-- watched, and every other one as before.
pub watched-poll_del :
    (set : List PollFd) (c : Channel) (n k : ℕ)
    → c.fd ≡ pos n
    → Unique set
    → watched (poll_del set c).1 k ≡ (if n == k then none else watched set k)
unfolding watched poll_del Unique
watched-poll_del [] c n k e u = ground arith
watched-poll_del (p ∷ ps) c n k e u = ground (arith, e, watched-poll_del ps c n k e, u.0)

Absent-poll_add :
    (d : ℤ) (ps : List PollFd) (c : Channel) (n : ℕ)
    → c.fd ≡ pos n
    → watched ps n ≡ none
    → 0 < free_places ps
    → eqb_ℤ d (pos n) ≡ false
    → Absent d ps
    → Absent d (poll_add ps c).1
Absent-poll_add (pos k) ps c n e new room apart a =
    ground (arith, watched-poll_add ps c n k e room new)
Absent-poll_add (negsuc k) ps c n e new room apart a = tt

pub Unique-poll_add :
    (set : List PollFd) (c : Channel) (n : ℕ)
    → c.fd ≡ pos n
    → 0 < free_places set
    → watched set n ≡ none
    → Unique set
    → Unique (poll_add set c).1
unfolding watched free_places poll_add Unique
Unique-poll_add [] c n e room new u = tt
Unique-poll_add (p ∷ ps) c n e room new u = elim (Bool-cases (is_negative p.fd)) [
  | inl free ↦ rw free (rw e (ground (arith, free, e)), u.1)
  | inr used ↦ rw used (
    Absent-poll_add p.fd ps c n e (ground (arith, used)) (ground (arith, used))
        (ground (arith, used)) u.0,
    Unique-poll_add ps c n e (ground (arith, used)) (ground (arith, used)) u.1,
  )
]

Absent-poll_del :
    (d : ℤ) (ps : List PollFd) (c : Channel) (n : ℕ)
    → c.fd ≡ pos n
    → Unique ps
    → Absent d ps
    → Absent d (poll_del ps c).1
Absent-poll_del (pos k) ps c n e u a = ground (arith, watched-poll_del ps c n k e u)
Absent-poll_del (negsuc k) ps c n e u a = tt

pub Unique-poll_del :
    (set : List PollFd) (c : Channel) (n : ℕ)
    → c.fd ≡ pos n
    → Unique set
    → Unique (poll_del set c).1
unfolding poll_del Unique
Unique-poll_del [] c n e u = tt
Unique-poll_del (p ∷ ps) c n e u = elim (Bool-cases (eqb_ℤ p.fd c.fd)) [
  | inl hit ↦ rw hit (tt, u.1)
  | inr miss ↦ rw miss (Absent-poll_del p.fd ps c n e u.1 u.0, Unique-poll_del ps c n e u.1)
]

Absent-poll_update :
    (d : ℤ) (ps : List PollFd) (c : Channel) (n : ℕ)
    → c.fd ≡ pos n
    → Absent d ps
    → Absent d (poll_update ps c).1
Absent-poll_update (pos k) ps c n e a = ground (arith, watched-poll_update ps c n k e)
Absent-poll_update (negsuc k) ps c n e a = tt

pub Unique-poll_update :
    (set : List PollFd) (c : Channel) (n : ℕ)
    → c.fd ≡ pos n
    → Unique set
    → Unique (poll_update set c).1
unfolding poll_update Unique
Unique-poll_update [] c n e u = tt
Unique-poll_update (p ∷ ps) c n e u = elim (Bool-cases (eqb_ℤ p.fd c.fd)) [
  | inl hit ↦ rw hit u
  | inr miss ↦ rw miss (Absent-poll_update p.fd ps c n e u.0, Unique-poll_update ps c n e u.1)
]

pub free_places-poll_add :
    (set : List PollFd) (c : Channel) → free_places set ≤ free_places (poll_add set c).1 + 1
unfolding free_places poll_add
free_places-poll_add [] c = omega arith
free_places-poll_add (p ∷ ps) c = ground (arith, free_places-poll_add ps c)

pub free_places-poll_del :
    (set : List PollFd) (c : Channel) → free_places set ≤ free_places (poll_del set c).1
unfolding free_places poll_del
free_places-poll_del [] c = omega arith
free_places-poll_del (p ∷ ps) c = ground (arith, free_places-poll_del ps c)

pub free_places-poll_update :
    (set : List PollFd) (c : Channel) → free_places (poll_update set c).1 ≡ free_places set
unfolding free_places poll_update
free_places-poll_update [] c = refl
free_places-poll_update (p ∷ ps) c = ground (arith, free_places-poll_update ps c)

pub unused_places :
    (n k : ℕ) → (watched (replicate n unused) k ≡ none) × (free_places (replicate n unused) ≡ n)
unfolding watched free_places
unused_places zero k = (refl, refl)
unused_places (suc n) k = ground (arith, unused_places n k)

pub Unique-unused : (n : ℕ) → Unique (replicate n unused)
unfolding Unique
Unique-unused zero = tt
Unique-unused (suc n) = (tt, Unique-unused n)
