-- ===== src/Ipc/Names.antt =====
-- The named semaphores of server 2.0 between two starts.
use rest_technosphere_cpp_se.Base.{
  ℕ, zero, suc, ◌<◌, ◌≤◌, ◌≡◌, refl, ◌∙◌, Bool, true, false, ◌&&◌, none, some, List, Bytes, length,
  inl, inr, Bool-cases, ltb, ◌==◌, text_eq, text_eq_refl, if◌then◌else◌, arith,
}
use mathlib.Core.Option
use rest_technosphere_cpp_se.Memory.{Mem}
use rest_technosphere_cpp_se.PosixTable.{segments_count}
use rest_technosphere_cpp_se.Locks.{Event}
use rest_technosphere_cpp_se.PosixTable.{contents}
use rest_technosphere_cpp_se.Semaphores.{posix, start}
use rest_technosphere_cpp_se.Server
use rest_technosphere_cpp_se.Server.Soundness.{ipc_create-contents}
use rest_technosphere_cpp_se.Ipc.{Shared}
use rest_technosphere_cpp_se.Ipc.Posix.{
  Resources, Outcomes, lock_name, open_locks, unlink_locks, ipc_create, ipc_delete,
}

lock_name-apart :
    (i j : ℕ) → i < 1000 → j < 1000 → (i == j) ≡ false → text_eq (lock_name i) (lock_name j) ≡ false
unfolding lock_name text_eq
lock_name-apart i j l h e = ground arith

-- `temp` has 16 bytes
lock_name-fits : (i : ℕ) → length (lock_name i) < 16
unfolding lock_name
lock_name-fits i = omega arith

module _ {Semaphore : Type 0} {Segment : Type 0} (m : Shared Segment Mem)
    (x : Shared Semaphore ℕ) where
  -- the first `n` semaphores are opened, or made where there is none, unless `sem_open` fails
  open_locks-content :
      (lock_opened : ℕ → Bool) (n i : ℕ) (named : Bytes → Semaphore)
      → n ≤ 1000
      → i < 1000
      → x.content (open_locks m x lock_opened n named (lock_name i)) ≡ (
          if ltb i n && lock_opened i
          then some (Option.get_or (x.content (named (lock_name i))) 1)
          else x.content (named (lock_name i)))
  unfolding open_locks
  open_locks-content lock_opened zero i named l h = ground arith
  open_locks-content lock_opened (suc n) i named l h =
      let ih = open_locks-content lock_opened n i named (omega arith) h in
      elim (Bool-cases (n == i)) [
        | inl e ↦
            let p : n ≡ i = ground arith in
            let now : ltb i (suc i) ≡ true = ground arith in
            let before : ltb i i ≡ false = ground arith in
            let at_i = rw p at ih in
            elim (Bool-cases (lock_opened i)) [
              | inl on ↦
                  rw (p, on, text_eq_refl (lock_name i), now)
                    (x.content-open_or_create 1 _ ∙ rw (at_i, before) refl)
              | inr off ↦ rw (p, off, now, at_i, before) refl
            ]
        | inr e ↦
            let same : ltb i (suc n) ≡ ltb i n = ground arith in
            elim (Bool-cases (lock_opened n)) [
              | inl on ↦ rw (on, lock_name-apart n i (omega arith) h e, same) ih
              | inr off ↦ rw (off, same) ih
            ]
      ]

  unlink_locks-content :
      (n i : ℕ) (named : Bytes → Semaphore)
      → n ≤ 1000
      → i < 1000
      → x.content (unlink_locks m x n named (lock_name i))
        ≡ (if ltb i n then none else x.content (named (lock_name i)))
  unfolding unlink_locks
  unlink_locks-content zero i named l h = ground arith
  unlink_locks-content (suc n) i named l h =
      let ih = unlink_locks-content n i named (omega arith) h in
      elim (Bool-cases (n == i)) [
        | inl e ↦
            let p : n ≡ i = ground arith in
            let now : ltb i (suc i) ≡ true = ground arith in
            rw (p, text_eq_refl (lock_name i), now) (x.content-remove _)
        | inr e ↦
            let same : ltb i (suc n) ≡ ltb i n = ground arith in
            rw (lock_name-apart n i (omega arith) h e, same) ih
      ]

  ipc_create-ok :
      (o : Outcomes) (r : Resources Segment Semaphore)
      → (ipc_create m x o r).0 ≡ (o.opened && o.truncated && o.mapped)
  unfolding ipc_create
  ipc_create-ok o r = ground arith

  -- the semaphores after `ipc_create`, and after a call that throws
  ipc_create-named :
      (o : Outcomes) (r : Resources Segment Semaphore) (i : ℕ)
      → i < segments_count
      → x.content ((ipc_create m x o r).1.named (lock_name i)) ≡ (
          if (o.opened && o.truncated && o.mapped) && o.lock_opened i
          then some (Option.get_or (x.content (r.named (lock_name i))) 1)
          else x.content (r.named (lock_name i)))
  unfolding ipc_create
  ipc_create-named o r i l =
      let e =
        open_locks-content o.lock_opened segments_count i r.named (omega arith) (omega arith) in
      let inside : ltb i segments_count ≡ true = ground arith in
      let opened : x.content (open_locks m x o.lock_opened 8 r.named (lock_name i)) ≡ (
          if o.lock_opened i
          then some (Option.get_or (x.content (r.named (lock_name i))) 1)
          else x.content (r.named (lock_name i))) =
        rw inside at e in
      ground (arith, opened)

  ipc_create-segment :
      (o : Outcomes) (r : Resources Segment Semaphore)
      → m.content (ipc_create m x o r).1.segment ≡ (
          if o.opened && o.truncated && o.mapped
          then some (Server.ipc_create (Option.get_or (m.content r.segment) (λ a. 0)))
          else if o.opened
          then some (Option.get_or (m.content r.segment) (λ a. 0))
          else m.content r.segment)
  unfolding ipc_create
  ipc_create-segment o r =
      let e = m.content-open_or_create (λ a. 0) r.segment in
      let c = m.content-change Server.ipc_create _ _ e in ground (arith, e, c)

  ipc_delete-named :
      (r : Resources Segment Semaphore) (i : ℕ)
      → i < segments_count
      → x.content ((ipc_delete m x r).named (lock_name i)) ≡ none
  unfolding ipc_delete
  ipc_delete-named r i l =
      let inside : ltb i segments_count ≡ true = ground arith in
      unlink_locks-content segments_count i r.named (omega arith) (omega arith) ∙ rw inside refl

-- `ipc_create` returns exactly if `shm_open`, `ftruncate` and `mmap` succeed; a `sem_open` that fails goes
-- unnoticed. Where it returns, the semaphore of a lock whose `sem_open` has succeeded has the value that an earlier
-- run left in it, or 1 if there was none, and no key is in the table; where it throws, no semaphore is changed. After
-- `ipc_delete`, another `ipc_create` that returns gives every lock that it opens the value that module Semaphores
-- starts with. The names of the semaphores fit in their 16 bytes.
pub ipc_create-locks :
    {Segment Semaphore : Type 0} (m : Shared Segment Mem) (x : Shared Semaphore ℕ) (o : Outcomes)
    (r : Resources Segment Semaphore) (key : Bytes) (program : ℕ → List Event) (i : ℕ)
    → i < segments_count
    → let ok = o.opened && o.truncated && o.mapped in
      let (returns, made) = ipc_create m x o r in
      let old = x.content (r.named (lock_name i)) in
      let table = Server.ipc_create (Option.get_or (m.content r.segment) (λ a. 0)) in
      let again = (ipc_create m x o (ipc_delete m x r)).1 in
      (returns ≡ ok)
      × (x.content (made.named (lock_name i))
          ≡ (if ok && o.lock_opened i then some (Option.get_or old 1) else old))
      × (m.content made.segment ≡ (
          if ok
          then some table
          else if o.opened
          then some (Option.get_or (m.content r.segment) (λ a. 0))
          else m.content r.segment))
      × (contents table key ≡ none)
      × (x.content (again.named (lock_name i))
          ≡ (if ok && o.lock_opened i then some ((start posix program).value i) else none))
      × (length (lock_name i) < 16)
ipc_create-locks m x o r key program i l = (
  ipc_create-ok m x o r,
  ipc_create-named m x o r i l,
  ipc_create-segment m x o r,
  ipc_create-contents _ key,
  rw (ipc_delete-named m x r i l) at (ipc_create-named m x o (ipc_delete m x r) i l),
  lock_name-fits i,
)
