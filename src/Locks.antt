-- ===== src/Locks.antt =====
-- Lock traffic: what a table operation asks of the semaphores and which records it touches, in
-- order, and the discipline that a single process has to keep.
use rest_technosphere_cpp_se.Base.{
  ℕ, ◌/◌, ◌≡◌, refl, Bool, true, false, ◌&&◌, List, [], ◌∷◌, ◌++◌, ◌==◌, if◌then◌else◌,
}

-- `acquire b x` is `lock(b, x)`, `release b x` is `unlock(b, x)`; `reads i` and `writes i` are
-- accesses to the bytes of record `i`.
pub data Event : Type 0 where
  acquire : ℕ → Bool → Event
  release : ℕ → Bool → Event
  reads : ℕ → Event
  writes : ℕ → Event

-- What one process holds. `broken` is a breach of the discipline: a second lock while one is held
-- (with a binary semaphore that is a deadlock risk), an unlock of what is not held, an access to a
-- record outside the held block, or a write under a shared lock.
pub data Held : Type 0 where
  idle : Held
  holding : ℕ → Bool → Held
  broken : Held

abbrev pub same_mode : Bool → Bool → Bool
same_mode true true = true
same_mode false false = true
same_mode true false = false
same_mode false true = false

unfoldable pub follow_event : ℕ → Held → Event → Held
follow_event size idle (acquire b x) = holding b x
follow_event size (holding c y) (release b x) = if c == b && same_mode y x then idle else broken
follow_event size (holding c y) (reads i) = if i / size == c then holding c y else broken
follow_event size (holding c y) (writes i) = if i / size == c && y then holding c y else broken
follow_event size _ _ = broken

-- The blocks have `size` records each.
unfoldable pub follow : ℕ → Held → List Event → Held
unfolding follow_event
follow size h [] = h
follow size h (e ∷ es) = follow size (follow_event size h e) es

pub follow-append :
    (size : ℕ) (h : Held) (es fs : List Event)
    → follow size h (es ++ fs) ≡ follow size (follow size h es) fs
unfolding follow
follow-append size h [] fs = refl
follow-append size h (e ∷ es) fs = follow-append size (follow_event size h e) es fs
