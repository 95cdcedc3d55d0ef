-- ===== src/Records/Clear.antt =====
-- A table whose memory has been set to zero: `memset` over all its records, as the set-up of the shared memory in
-- both servers has it.
use rest_technosphere_cpp_se.Base.{
  ℕ, ◌*◌, ◌<◌, ◌≡◌, false, none, Bytes, inl, inr, Option-cases, ltb, if◌then◌else◌, arith,
}
use rest_technosphere_cpp_se.Memory.{Mem}
use rest_technosphere_cpp_se.Probe.Search.{probe, probe-some}
use rest_technosphere_cpp_se.Records.{record_size, status_at, filled_with, lookup, IsWellFormed}

-- `memset` of `n` records
unfoldable pub clear : ℕ → Mem → Mem
clear n m a = if ltb a (n * record_size) then 0 else m a

clear-status : (n : ℕ) (m : Mem) (i : ℕ) → i < n → clear n m (status_at i) ≡ 0
unfolding clear
clear-status n m i l = ground arith

-- no record is filled
clear-filled_with :
    (n : ℕ) (m : Mem) (key : Bytes) (i : ℕ) → i < n → filled_with (clear n m) key i ≡ false
unfolding filled_with
clear-filled_with n m key i l = ground (arith, clear-status n m i l)

pub clear-IsWellFormed : (n off : ℕ) (m : Mem) → IsWellFormed n off (clear n m)
clear-IsWellFormed n off m = record {
  unique = λ key i j k li lj fi fj. let e = clear-filled_with n m key i li in cc;
  ended = λ i l f. absurd (let e = clear-status n m i l in omega arith);
}

pub clear-lookup :
    (n off : ℕ) (home : Bytes → ℕ) (m : Mem) (key : Bytes)
    → home key < n
    → lookup n off home (clear n m) key ≡ none
unfolding lookup
clear-lookup n off home m key inside =
    elim (Option-cases (probe (filled_with (clear n m) key) n (home key))) [
      | inl o ↦ rw (lookup, o)
      | inr (i, o) ↦
          let (f, l) = probe-some (filled_with (clear n m) key) n (home key) inside i o in
          let e = clear-filled_with n m key i l in absurd (cc)
    ]
