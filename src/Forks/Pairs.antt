-- ===== src/Forks/Pairs.antt =====
-- A set of process numbers, and the descriptors that one `socketpair` and the `close` behind it give.
use rest_technosphere_cpp_se.Base.{
  ℕ, ◌≡◌, refl, ap, sym, ◌∙◌, true, false, ◌||◌, inl, inr, Bool-cases, ==_refl, none, some, List, ℤ,
  pos, negsuc, ◌==◌, arith,
}
use rest_technosphere_cpp_se.Forks.{File, first, second, Sockets, int_eq, contains, insert}

pub int_eq_refl : (p : ℤ) → int_eq p p ≡ true
int_eq_refl (pos n) = ==_refl n
int_eq_refl (negsuc n) = ==_refl n

int_eq→eq : (p q : ℤ) → int_eq p q ≡ true → p ≡ q
int_eq→eq (pos m) (pos n) e = let h : m ≡ n = ground arith in rw h
int_eq→eq (pos m) (negsuc n) e = ground arith
int_eq→eq (negsuc m) (pos n) e = ground arith
int_eq→eq (negsuc m) (negsuc n) e = let h : m ≡ n = ground arith in rw h

pub contains-insert :
    (pid q : ℤ) (ps : List ℤ) → contains q (insert pid ps) ≡ (int_eq pid q || contains q ps)
unfolding insert
contains-insert pid q ps = elim (Bool-cases (contains pid ps)) [
  | inl e ↦ elim (Bool-cases (int_eq pid q)) [
    | inl i ↦ let p = int_eq→eq pid q i in rw (e, i) (ap (λ r. contains r ps) (sym p) ∙ e)
    | inr i ↦ rw (e, i)
  ]
  | inr e ↦ rw e refl
]

module _ {Table : Type 0} (d : Sockets Table) where
  open_apart :
      (t : Table) (fd n : ℕ) (f : File) → d.at t fd ≡ none → d.at t n ≡ some f → (fd == n) ≡ false
  open_apart t fd n f c o = elim (Bool-cases (fd == n)) [
    | inl e ↦ let p : fd ≡ n = ground arith in absurd (ground (arith, sym c ∙ ap (d.at t) p ∙ o))
    | inr e ↦ e
  ]

  -- An open descriptor is none of those that `socketpair` gives, and goes on to refer to the same file, also
  -- behind the `close` of one of the two.
  pub socketpair-keeps :
      (k n : ℕ) (t : Table) (f : File)
      → d.at t n ≡ some f
      → (d.at (d.close (d.socketpair k t).2 (d.socketpair k t).0) n ≡ some f)
        × (d.at (d.close (d.socketpair k t).2 (d.socketpair k t).1) n ≡ some f)
  socketpair-keeps k n t f o =
      let (free0, free1, apart) = d.socketpair-free k t in
      let e0 = open_apart t (d.socketpair k t).0 n f free0 o in
      let e1 = open_apart t (d.socketpair k t).1 n f free1 o in
      (
        d.at-close _ _ n ∙ rw (e0, d.at-socketpair k t n, e0, e1) o,
        d.at-close _ _ n ∙ rw (e1, d.at-socketpair k t n, e0, e1) o,
      )

  -- what the new descriptors refer to, behind the `close` of the other
  pub socketpair-new :
      (k : ℕ) (t : Table)
      → (d.at (d.close (d.socketpair k t).2 (d.socketpair k t).1) (d.socketpair k t).0
          ≡ some (first k))
        × (d.at (d.close (d.socketpair k t).2 (d.socketpair k t).0) (d.socketpair k t).1
            ≡ some (second k))
        × (d.at (d.close (d.socketpair k t).2 (d.socketpair k t).0) (d.socketpair k t).0 ≡ none)
  socketpair-new k t =
      let a = (d.socketpair k t).0 in
      let b = (d.socketpair k t).1 in
      let apart = (d.socketpair-free k t).2 in
      let apart' : (b == a) ≡ false = ground arith in
      (
        d.at-close _ b a ∙ rw (apart', d.at-socketpair k t a, ==_refl a),
        d.at-close _ a b ∙ rw (apart, d.at-socketpair k t b, apart, ==_refl b),
        d.at-close _ a a ∙ rw (==_refl a),
      )
