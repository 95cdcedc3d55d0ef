-- ===== src/Qsort/Turns.antt =====
-- Tasks on ranges that do not meet: the order of their turns does not show.
use rest_technosphere_cpp_se.Base.{ℕ, ◌≤◌, ◌<◌, ◌≡◌, ◌≢◌, ◌⊎◌, inl, inr, refl, sym, ap, ◌∙◌, arith}
use mathlib.Core.Path.{fun_ext}
use rest_technosphere_cpp_se.Memory.{write}
use rest_technosphere_cpp_se.Qsort.{Ints}
use rest_technosphere_cpp_se.Qsort.Program.{
  Task, done, load, store, fork, Step, loads, stores, lefts, rights, joins, Run, here, turn,
}

-- a task that runs alone, and the first of two tasks before the second
unfoldable pub exec : Task → Ints → Ints
exec done a = a
exec (load i k) a = exec (k (a i)) a
exec (store i v k) a = exec k (write a i v)
exec (fork p q) a = exec q (exec p a)

-- All accesses are in a range, whatever is read, and two tasks at once have parts of it to themselves.
abbrev pub IsWithin : ℕ → ℕ → Task → Type 0
IsWithin low high done = Unit
IsWithin low high (load i k) = (low ≤ i) × (i < high) × ((v : ℕ) → IsWithin low high (k v))
IsWithin low high (store i v k) = (low ≤ i) × (i < high) × IsWithin low high k
IsWithin low high (fork p q) =
    (middle : ℕ) × (low ≤ middle) × (middle ≤ high) × IsWithin low middle p × IsWithin middle high q

pub IsWithin-wider :
    (t : Task) (low high low' high' : ℕ)
    → low' ≤ low
    → high ≤ high'
    → IsWithin low high t
    → IsWithin low' high' t
IsWithin-wider done low high low' high' l h w = tt
IsWithin-wider (load i k) low high low' high' l h (x, y, w) =
    (omega arith, omega arith, λ v. IsWithin-wider (k v) low high low' high' l h (w v))
IsWithin-wider (store i v k) low high low' high' l h (x, y, w) =
    (omega arith, omega arith, IsWithin-wider k low high low' high' l h w)
IsWithin-wider (fork p q) low high low' high' l h (m, x, y, wp, wq) = (
  m,
  omega arith,
  omega arith,
  IsWithin-wider p low m low' m l (omega arith) wp,
  IsWithin-wider q m high m high' (omega arith) h wq,
)

write_comm : (a : Ints) (i j v w : ℕ) → i ≢ j → write (write a i v) j w ≡ write (write a j w) i v
unfolding write
write_comm a i j v w ne = fun_ext (λ x. ground arith)

write_other : (a : Ints) (i j v : ℕ) → i ≢ j → write a i v j ≡ a j
unfolding write
write_other a i j v ne = ground arith

abbrev IsOutside : ℕ → ℕ → ℕ → Type 0
IsOutside low high x = (x < low) ⊎ (high ≤ x)

outside_ne : (low high x i : ℕ) → IsOutside low high x → low ≤ i → i < high → x ≢ i
outside_ne low high x i (inl below) l h = omega arith
outside_ne low high x i (inr above) l h = omega arith

IsOutside-part :
    (low high low' high' x : ℕ)
    → low ≤ low'
    → high' ≤ high
    → IsOutside low high x
    → IsOutside low' high' x
IsOutside-part low high low' high' x l h (inl below) = inl (omega arith)
IsOutside-part low high low' high' x l h (inr above) = inr (omega arith)

-- A task neither reads nor writes what is outside of its range.
exec-outside :
    (t : Task) (low high : ℕ) (a : Ints) (x : ℕ)
    → IsWithin low high t
    → IsOutside low high x
    → exec t a x ≡ a x
unfolding exec
exec-outside done low high a x w o = refl
exec-outside (load i k) low high a x (l, h, w) o = exec-outside (k (a i)) low high a x (w (a i)) o
exec-outside (store i v k) low high a x (l, h, w) o =
    exec-outside k low high (write a i v) x w o
    ∙ write_other a i x v (λ e. outside_ne low high x i o l h (sym e))
exec-outside (fork p q) low high a x (m, l, h, wp, wq) o =
    exec-outside q m high (exec p a) x wq (IsOutside-part low high m high x l (omega arith) o)
    ∙ exec-outside p low m a x wp (IsOutside-part low high low m x (omega arith) h o)

exec-write :
    (t : Task) (low high : ℕ) (a : Ints) (x y : ℕ)
    → IsWithin low high t
    → IsOutside low high x
    → exec t (write a x y) ≡ write (exec t a) x y
unfolding exec
exec-write done low high a x y w o = refl
exec-write (load i k) low high a x y (l, h, w) o =
    ap (λ v. exec (k v) (write a x y)) (write_other a x i y (outside_ne low high x i o l h))
    ∙ exec-write (k (a i)) low high a x y (w (a i)) o
exec-write (store i v k) low high a x y (l, h, w) o =
    ap (exec k) (write_comm a x i y v (outside_ne low high x i o l h))
    ∙ exec-write k low high (write a i v) x y w o
exec-write (fork p q) low high a x y (m, l, h, wp, wq) o =
    ap (exec q) (exec-write p low m a x y wp (IsOutside-part low high low m x (omega arith) h o))
    ∙ exec-write q m high (exec p a) x y wq (IsOutside-part low high m high x l (omega arith) o)

-- What others do to the array leaves a range alone, and does not depend on it.
record IsApart (low high : ℕ) (c : Ints → Ints) : Type 0 where
  keeps : (a : Ints) (i : ℕ) → low ≤ i → i < high → c a i ≡ a i
  moves : (a : Ints) (i v : ℕ) → low ≤ i → i < high → c (write a i v) ≡ write (c a) i v

IsApart-part :
    (low high low' high' : ℕ) (c : Ints → Ints)
    → low ≤ low'
    → high' ≤ high
    → IsApart low high c
    → IsApart low' high' c
IsApart-part low high low' high' c l h s = record {
  keeps = λ a i x y. s.keeps a i (omega arith) (omega arith);
  moves = λ a i v x y. s.moves a i v (omega arith) (omega arith);
}

-- a task on the range below
IsApart-exec :
    (p : Task) (low middle high : ℕ) (c : Ints → Ints)
    → IsWithin low middle p
    → IsApart middle high c
    → IsApart middle high (λ a. exec p (c a))
IsApart-exec p low middle high c w s = record {
  keeps = λ a i x y. exec-outside p low middle (c a) i w (inr x) ∙ s.keeps a i x y;
  moves =
      λ a i v x y. ap (exec p) (s.moves a i v x y) ∙ exec-write p low middle (c a) i v w (inr x);
}

-- A turn changes nothing of what the task comes to, also when others have been at work.
Step-exec :
    {t u : Task} {a b : Ints} (low high : ℕ) (c : Ints → Ints)
    → Step t a u b
    → IsWithin low high t
    → IsApart low high c
    → exec t (c a) ≡ exec u (c b)
unfolding exec
Step-exec low high c (loads i k a) (l, h, w) s = ap (λ v. exec (k v) (c a)) (s.keeps a i l h)
Step-exec low high c (stores i v k a) (l, h, w) s = ap (exec k) (sym (s.moves a i v l h))
Step-exec low high c (lefts q st) (m, l, h, wp, wq) s =
    ap (exec q) (Step-exec low m c st wp (IsApart-part low high low m c (omega arith) h s))
Step-exec low high c (rights p st) (m, l, h, wp, wq) s =
    Step-exec m high (λ a. exec p (c a)) st wq
      (IsApart-exec p low m high c wp (IsApart-part low high m high c l (omega arith) s))
Step-exec low high c (joins a) w s = refl

Step-IsWithin :
    {t u : Task} {a b : Ints} (low high : ℕ)
    → Step t a u b
    → IsWithin low high t
    → IsWithin low high u
Step-IsWithin low high (loads i k a) (l, h, w) = w (a i)
Step-IsWithin low high (stores i v k a) (l, h, w) = w
Step-IsWithin low high (lefts q st) (m, l, h, wp, wq) = (m, l, h, Step-IsWithin low m st wp, wq)
Step-IsWithin low high (rights p st) (m, l, h, wp, wq) = (m, l, h, wp, Step-IsWithin m high st wq)
Step-IsWithin low high (joins a) w = tt

pub Run-exec :
    {t u : Task} {a b : Ints} (low high : ℕ)
    → Run t a u b
    → IsWithin low high t
    → exec t a ≡ exec u b
Run-exec low high (here t a) w = refl
Run-exec low high (turn st r) w =
    Step-exec low high (λ a. a) st w (record { keeps = λ a i x y. refl; moves = λ a i v x y. refl })
    ∙ Run-exec low high r (Step-IsWithin low high st w)

-- whatever two tasks do while the other waits
lefts_all : (q : Task) {p p' : Task} {a b : Ints} → Run p a p' b → Run (fork p q) a (fork p' q) b
lefts_all q (here t a) = here (fork t q) a
lefts_all q (turn st r) = turn (lefts q st) (lefts_all q r)

rights_all : (p : Task) {q q' : Task} {a b : Ints} → Run q a q' b → Run (fork p q) a (fork p q') b
rights_all p (here t a) = here (fork p t) a
rights_all p (turn st r) = turn (rights p st) (rights_all p r)

Run-append : {t u w : Task} {a b c : Ints} → Run t a u b → Run u b w c → Run t a w c
Run-append (here t a) r = r
Run-append (turn st r) r' = turn st (Run-append r r')

-- every task can be brought to its end
pub Run-done : (t : Task) (a : Ints) → Run t a done (exec t a)
unfolding exec
Run-done done a = here done a
Run-done (load i k) a = turn (loads i k a) (Run-done (k (a i)) a)
Run-done (store i v k) a = turn (stores i v k a) (Run-done k (write a i v))
Run-done (fork p q) a = Run-append (lefts_all q (Run-done p a)) (
    Run-append (rights_all done (Run-done q (exec p a)))
      (turn (joins (exec q (exec p a))) (here done (exec q (exec p a)))))
