-- ===== src/Forks/Channels.antt =====
-- Which ends of which socket pairs the processes of server 2.0 hold.
use rest_technosphere_cpp_se.Base.{
  ℕ, zero, suc, ◌≡◌, ◌<◌, ◌+◌, ◌≤◌, refl, ◌∙◌, true, false, ◌&&◌, inl, inr, Bool-cases, ==_refl,
  none, some, ℤ, pos, negsuc, ◌==◌, if◌then◌else◌, arith,
}
use mathlib.Core.Path.{subst}
use rest_technosphere_cpp_se.SocketTricks.{is_negative}
use rest_technosphere_cpp_se.Semaphores.Family.{update}
use rest_technosphere_cpp_se.Forks.{
  first, second, Sockets, Forked, Master, is_positive, contains, fork_worker, fork_workers,
  fork_cleaner, main, signal_cb,
}
use rest_technosphere_cpp_se.Forks.Pairs.{
  int_eq_refl, contains-insert, socketpair-keeps, socketpair-new,
}

forked {ℓ} :
    {A : Type ℓ} (pid : ℤ) (child w : A)
    → (if is_negative pid then none else some child) ≡ some w
    → child ≡ w
forked (pos n) child w e = cc
forked (negsuc n) child w e = absurd (ground (arith, e))

module _ {Table : Type 0} (d : Sockets Table) where
  -- what holds of worker `k`, with the channels that the master keeps
  record IsWired (k : ℕ) (hub : ℕ → ℕ) (w : Forked Table) : Type 0 where
    own : d.at w.table w.endpoint ≡ some (second k)
    closed : d.at w.table (hub k) ≡ none
    inherited : (j : ℕ) → j < k → d.at w.table (hub j) ≡ some (first j)

  -- the channels of the first `n` workers
  record IsConnected (n : ℕ) (pids : ℕ → ℤ) (m : Master Table) : Type 0 where
    held : (k : ℕ) → k < n → d.at m.table (m.fd_channel_hub k) ≡ some (first k)
    wired : (k : ℕ) (w : Forked Table) → k < n → m.workers k ≡ some w → IsWired k m.fd_channel_hub w
    known : (k : ℕ) → k < n → contains (pids k) m.child_procs ≡ true

  -- a later round leaves the channels of a worker as they are
  IsWired-update :
      (k n fd : ℕ) (hub : ℕ → ℕ) (w : Forked Table)
      → k < n
      → IsWired k hub w
      → IsWired k (update hub n fd) w
  IsWired-update k n fd hub w l v =
      let apart : (n == k) ≡ false = ground arith in
      record {
        own = v.own;
        closed = rw apart v.closed;
        inherited =
            λ j h. let other : (n == j) ≡ false = ground arith in rw other (v.inherited j h);
      }

  -- the worker that a round forks
  fork_worker-IsWired :
      (k : ℕ) (hub : ℕ → ℕ) (t : Table) (w : Forked Table)
      → ((j : ℕ) → j < k → d.at t (hub j) ≡ some (first j))
      → record {
        endpoint = (d.socketpair k t).1;
        table = d.close (d.socketpair k t).2 (d.socketpair k t).0;
      }
        ≡ w
      → IsWired k (update hub k (d.socketpair k t).0) w
  fork_worker-IsWired k hub t w held e =
      let (mine, its, closed) = socketpair-new d k t in
      subst (IsWired k (update hub k (d.socketpair k t).0)) e (record {
        own = its;
        closed = rw (==_refl k) closed;
        inherited = λ j h.
            let other : (k == j) ≡ false = ground arith in
            rw other (socketpair-keeps d k (hub j) t (first j) (held j h)).0;
      })

  fork_worker-IsConnected :
      (k : ℕ) (pids : ℕ → ℤ) (m : Master Table)
      → IsConnected k pids m
      → IsConnected (suc k) pids (fork_worker d k (pids k) m)
  unfolding fork_worker
  fork_worker-IsConnected k pids m v = record {
    held = λ j l. elim (Bool-cases (k == j)) [
      | inl e ↦ let p : k ≡ j = ground arith in rw e (rw (← p) (socketpair-new d k m.table).0)
      | inr e ↦
          rw e
            (socketpair-keeps d k (m.fd_channel_hub j) m.table (first j)
              (v.held j (ground arith))).1
    ];
    wired = λ j w l o. elim (Bool-cases (k == j)) [
      | inl e ↦
          let p : k ≡ j = ground arith in
          subst (λ i. IsWired i (update m.fd_channel_hub k (d.socketpair k m.table).0) w) p
            (fork_worker-IsWired k m.fd_channel_hub m.table w v.held
              (forked (pids k) _ w (rw e at o)))
      | inr e ↦
          IsWired-update j k _ m.fd_channel_hub w (ground arith)
            (v.wired j w (ground arith) (rw e at o))
    ];
    known = λ j l. elim (Bool-cases (k == j)) [
      | inl e ↦
          let p : k ≡ j = ground arith in
          rw (← p) (contains-insert (pids k) (pids k) m.child_procs ∙ rw (int_eq_refl (pids k)))
      | inr e ↦
          contains-insert (pids k) (pids j) m.child_procs
          ∙ rw (v.known j (ground arith)) (ground arith)
    ];
  }

  fork_workers-IsConnected :
      (rounds k : ℕ) (pids : ℕ → ℤ) (m : Master Table)
      → IsConnected k pids m
      → IsConnected (k + rounds) pids (fork_workers d rounds k pids m)
  unfolding fork_workers
  fork_workers-IsConnected zero k pids m v = let e : k + 0 ≡ k = omega arith in rw e v
  fork_workers-IsConnected (suc rounds) k pids m v =
      let e : k + suc rounds ≡ suc k + rounds = omega arith in
      rw e (
        fork_workers-IsConnected rounds (suc k) pids (fork_worker d k (pids k) m)
          (fork_worker-IsConnected k pids m v))

  start-IsConnected : (pids : ℕ → ℤ) (m : Master Table) → IsConnected 0 pids m
  start-IsConnected pids m = record {
    held = λ k l. absurd (omega arith);
    wired = λ k w l o. absurd (omega arith);
    known = λ k l. absurd (omega arith);
  }

  fork_cleaner-IsConnected :
      (n : ℕ) (pids : ℕ → ℤ) (pid : ℤ) (m : Master Table)
      → IsConnected n pids m
      → IsConnected n pids (fork_cleaner pid m)
  unfolding fork_cleaner
  fork_cleaner-IsConnected n pids pid m v = elim (Bool-cases (is_positive pid)) [
    | inl e ↦
        rw (e, fork_cleaner)
          (record {
            held = v.held;
            wired = v.wired;
            known =
                λ k l. contains-insert pid (pids k) m.child_procs ∙ rw (v.known k l) (ground arith);
          })
    | inr e ↦ rw (e, fork_cleaner) (record { held = v.held; wired = v.wired; known = v.known })
  ]

  main-IsConnected : (pids : ℕ → ℤ) (start : Master Table) → IsConnected 4 pids (main d pids start)
  unfolding main
  main-IsConnected pids start =
      fork_cleaner-IsConnected 4 pids (pids 4) _
        (fork_workers-IsConnected 4 0 pids start (start-IsConnected pids start))

main-cleaner :
    {Table : Type 0} (d : Sockets Table) (pids : ℕ → ℤ) (start : Master Table)
    → (is_positive (pids 4) && contains (pids 4) (main d pids start).child_procs)
      ≡ is_positive (pids 4)
unfolding main fork_cleaner
main-cleaner d pids start = elim (Bool-cases (is_positive (pids 4))) [
  | inr e ↦ rw e refl
  | inl e ↦
      rw (e, main, fork_cleaner)
        (contains-insert (pids 4) (pids 4) _ ∙ rw (int_eq_refl (pids 4)) refl)
]

main-serves :
    {Table : Type 0} (d : Sockets Table) (pids : ℕ → ℤ) (start : Master Table)
    → (main d pids start).serves ≡ is_positive (pids 4)
unfolding main fork_cleaner
main-serves d pids start = elim (Bool-cases (is_positive (pids 4))) [
  | inl e ↦ rw (e, main, fork_cleaner) refl
  | inr e ↦ rw (e, main, fork_cleaner) refl
]

-- After `main`, whatever the calls of `fork` gave: the master holds its end of the channel of each of the four
-- workers under the descriptor of `fd_channel_hub`; what `fork` gave for each of them, -1 included, is among
-- what `signal_cb` sends SIGTERM to, and so is the garbage collector if its `fork` succeeded; and the master serves
-- exactly if that `fork` succeeded. A worker that
-- there is holds its own end under `fd_endpoint`, not the master's end of its channel, and the master's ends of
-- the channels of all workers before it.
pub main-at :
    {Table : Type 0} (d : Sockets Table) (pids : ℕ → ℤ) (start : Master Table) (i j k : ℕ)
    (w : Forked Table)
    → i < 4
    → j ≤ k
    → k < 4
    → (main d pids start).workers k ≡ some w
    → let m = main d pids start in
      (d.at m.table (m.fd_channel_hub i) ≡ some (first i))
      × (contains (pids i) (signal_cb m) ≡ true)
      × ((is_positive (pids 4) && contains (pids 4) (signal_cb m)) ≡ is_positive (pids 4))
      × (m.serves ≡ is_positive (pids 4))
      × (d.at w.table w.endpoint ≡ some (second k))
      × (d.at w.table (m.fd_channel_hub j) ≡ (if j == k then none else some (first j)))
unfolding signal_cb
main-at d pids start i j k w b l h o =
    let v = main-IsConnected d pids start in
    let wired = v.wired k w h o in
    (
      v.held i b,
      v.known i b,
      main-cleaner d pids start,
      main-serves d pids start,
      wired.own,
      elim (Bool-cases (j == k)) [
        | inl e ↦ let p : k ≡ j = ground arith in rw e (rw p at wired.closed)
        | inr e ↦ rw e (wired.inherited j (ground arith))
      ],
    )
