-- ===== src/Records/Bury.antt =====
-- What marking records as deleted does to the searches and to the meaning of the memory.
use rest_technosphere_cpp_se.Base.{
  ℕ, ◌+◌, ◌<◌, ◌≡◌, ◌∙◌, ap, inl, inr, Bool, true, false, Option, none, some, Bytes, if◌then◌else◌,
  arith, Bool-cases, Option-cases, not, ◌&&◌,
}
use rest_technosphere_cpp_se.Memory.{Mem, c_string}
use rest_technosphere_cpp_se.Probe.Search.{probe, probe-some, probe-none, probe-congr, probe_only}
use rest_technosphere_cpp_se.Records.{
  key_size, filled, rip, key_at, status_at, filled_with, IsKey, room, lookup, IsWellFormed,
}
use rest_technosphere_cpp_se.Records.Frame.{
  AgreeButStatus, strcmp-AgreeButStatus, c_string-AgreeButStatus,
}

-- `m'` is `m` with the records that `dead` names marked as deleted
pub record IsBuried (n : ℕ) (dead : ℕ → Bool) (m m' : Mem) : Type 0 where
  pub kept : (j : ℕ) → AgreeButStatus j m m'
  pub status : (j : ℕ) → j < n → m' (status_at j) ≡ (if dead j then rip else m (status_at j))

-- the meaning of the memory without the records that `dead` names
unfoldable pub lookup_alive : (n off : ℕ) → (Bytes → ℕ) → (ℕ → Bool) → Mem → Bytes → Option Bytes
lookup_alive n off home dead m key = elim (probe (filled_with m key) n (home key)) [
  | none ↦ none
  | some i ↦ if dead i then none else some (c_string (room n (key_at i + off)) m (key_at i + off))
]

module _ (n off : ℕ) (dead : ℕ → Bool) (m m' : Mem) (b : IsBuried n dead m m')
    (w : IsWellFormed n off m) (lo : key_size < off) where
  filled_with-buried :
      (q : Bytes)
      → IsKey q
      → (j : ℕ) → j < n
      → filled_with m' q j ≡ (filled_with m q j && not (dead j))
  unfolding filled_with
  filled_with-buried q kq j l =
      ground (arith, b.status j l, strcmp-AgreeButStatus j m m' q (b.kept j) kq.fits)

  filled_before : (j : ℕ) → j < n → m' (status_at j) ≡ filled → m (status_at j) ≡ filled
  filled_before j l f = ground (arith, b.status j l)

  pub bury-IsWellFormed : IsWellFormed n off m'
  bury-IsWellFormed = record {
    unique = λ q i j kq li lj fi fj.
        w.unique q i j kq li lj (ground (arith, filled_with-buried q kq i li))
          (ground (arith, filled_with-buried q kq j lj));
    ended = λ j l f.
        let (t, u, z) = w.ended j l (filled_before j l f) in
        let e : key_at j + off + t ≡ key_at j + (off + t) = omega arith in
        let byte : m' (key_at j + (off + t)) ≡ m (key_at j + (off + t)) =
          b.kept j (off + t) u (omega arith) in
        (t, u, ground arith);
  }

  value_kept :
      (q : Bytes) (j : ℕ)
      → j < n
      → filled_with m q j ≡ true
      → c_string (room n (key_at j + off)) m' (key_at j + off)
        ≡ c_string (room n (key_at j + off)) m (key_at j + off)
  unfolding filled_with
  value_kept q j l f =
      let (t, u, z) = w.ended j l (ground arith) in
      c_string-AgreeButStatus j m m' n off t (b.kept j) lo u l z

  -- Deleting records removes their keys and leaves every other key as it was.
  pub bury-lookup :
      (home : Bytes → ℕ)
      → ((q : Bytes) → home q < n)
      → (q : Bytes) → IsKey q
      → lookup n off home m' q ≡ lookup_alive n off home dead m q
  unfolding lookup lookup_alive
  bury-lookup home bound q kq = elim (Option-cases (probe (filled_with m q) n (home q))) [
    | inl o ↦
        let none' : probe (filled_with m' q) n (home q) ≡ none =
          probe-congr (filled_with m' q) (filled_with m q) n (home q) (bound q) (λ j l. ground (
            arith,
            filled_with-buried q kq j l,
            probe-none (filled_with m q) n (home q) (bound q) j o l,
          ))
          ∙ o in
        rw (lookup, lookup_alive, none', o)
    | inr (i, o) ↦
        let (f, l) = probe-some (filled_with m q) n (home q) (bound q) i o in
        elim (Bool-cases (dead i)) [
          | inl d ↦
              let none' : probe (filled_with m' q) n (home q) ≡ none =
                elim (Option-cases (probe (filled_with m' q) n (home q))) [
                  | inl e ↦ e
                  | inr (j, e) ↦
                      let (fj, lj) = probe-some (filled_with m' q) n (home q) (bound q) j e in
                      let same : j ≡ i =
                        w.unique q j i kq lj l (ground (arith, filled_with-buried q kq j lj)) f in
                      let live : dead j ≡ false = ground (arith, filled_with-buried q kq j lj) in
                      absurd (cc (ap dead same))
                ] in
              rw (lookup, lookup_alive, none', o, d)
          | inr d ↦
              let same : probe (filled_with m' q) n (home q) ≡ some i =
                probe_only (filled_with m' q) n (home q) i (bound q) l
                  (ground (arith, filled_with-buried q kq i l))
                  (λ j lj fj.
                    w.unique q j i kq lj l (ground (arith, filled_with-buried q kq j lj)) f) in
              rw (lookup, lookup_alive, same, o, d) (ap some (value_kept q i l f))
        ]
  ]
