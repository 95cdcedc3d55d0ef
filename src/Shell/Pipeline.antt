-- ===== src/Shell/Pipeline.antt =====
-- What the commands of a pipeline are connected to, and which descriptors stay open.
use rest_technosphere_cpp_se.Base.{
  ℕ, suc, ◌^◌, ◌-◌, ◌<◌, ◌≡◌, ◌≢◌, refl, ap, sym, ◌∙◌, inl, inr, Bool, true, false, ◌&&◌, ◌||◌,
  Option, none, some, List, [], ◌∷◌, Bool-cases, ◌==◌, if◌then◌else◌, arith,
}
use rest_technosphere_cpp_se.Shell.{
  op_pipeline, Item, cmd, oper, run_from, run_sequence, stops, get_exit_code,
}
use rest_technosphere_cpp_se.Shell.Descriptors.{
  Descriptors, Redirections, no_redirections, redirect_stdin, redirect_stdout, emit, emit_oper,
  connect, child, parent, run_commands,
}
use rest_technosphere_cpp_se.Shell.Redirection.{
  IsApart, AreDistinct, IsReady, connected, source, child_last, child_writes, parent-at,
}

closed_either {ℓ} :
    {A : Type ℓ} (a r w e : Bool) (x : Option A)
    → (if r || e then none else if a || w then none else x)
      ≡ (if a || (r || w || e) then none else x)
closed_either false false w e x = ground arith
closed_either false true w e x = refl
closed_either true false w e x = ground arith
closed_either true true w e x = refl

-- the descriptor is an end of a pipe
unfoldable pub is_end : ℕ → List (ℕ × ℕ) → Bool
is_end n [] = false
is_end n ((reader, writer) ∷ fds) = reader == n || writer == n || is_end n fds

module _ {File Table : Type 0} (d : Descriptors File Table) where
  -- what the commands should read from and write to: each command's output is the input of the next
  unfoldable pub links : Table → Option File → List (ℕ × ℕ) → List (Option File × Option File)
  links t input [] = (input, d.at t 1) ∷ []
  links t input ((reader, writer) ∷ fds) = (input, d.at t writer) ∷ links t (d.at t reader) fds

  -- standard input and output of each child
  unfoldable pub standard_files : List Table → List (Option File × Option File)
  standard_files [] = []
  standard_files (u ∷ us) = (d.at u 0, d.at u 1) ∷ standard_files us

  -- two tables have the same at 1 and at the pipes
  Agree : Table → Table → List (ℕ × ℕ) → Type 0
  Agree t u [] = d.at t 1 ≡ d.at u 1
  Agree t u ((reader, writer) ∷ fds) =
      (d.at t reader ≡ d.at u reader) × (d.at t writer ≡ d.at u writer) × Agree t u fds

  links-congr :
      (fds : List (ℕ × ℕ)) (t u : Table) (input : Option File)
      → Agree t u fds
      → links t input fds ≡ links u input fds
  unfolding links Agree
  links-congr [] t u input h = rw h
  links-congr ((reader, writer) ∷ fds) t u input (r, w, h) =
      rw (r, w, links-congr fds t u (d.at u reader) h)

  parent-apart :
      (c : Redirections) (reader writer : ℕ) (t : Table) (n : ℕ)
      → (c.stdin_redirected ≡ true → c.stdin_fd ≢ n)
      → writer ≢ n
      → d.at (parent d (redirect_stdout c writer reader) t) n ≡ d.at t n
  parent-apart c reader writer t n h w =
      parent-at d c reader writer t n ∙ elim (Bool-cases c.stdin_redirected) [
        | inr e ↦ rw e (ground arith)
        | inl e ↦ let k = h e in rw e (ground arith)
      ]

  parent-Agree :
      (c : Redirections) (reader writer : ℕ) (t : Table) (fds : List (ℕ × ℕ))
      → (c.stdin_redirected ≡ true → (2 < c.stdin_fd) × IsApart c.stdin_fd fds)
      → 2 < writer
      → IsApart writer fds
      → Agree (parent d (redirect_stdout c writer reader) t) t fds
  unfolding Agree
  parent-Agree c reader writer t [] h w a =
      parent-apart c reader writer t 1 (λ e. let p = (h e).0 in omega arith) (omega arith)
  parent-Agree c reader writer t ((r, v) ∷ fds) h w (nr, nv, a) = (
    parent-apart c reader writer t r (λ e. (h e).1.0) nr,
    parent-apart c reader writer t v (λ e. (h e).1.1) nv,
    parent-Agree c reader writer t fds (λ e. ((h e).0, (h e).1.2)) w a,
  )

  next-IsReady :
      (reader writer : ℕ) (fds : List (ℕ × ℕ))
      → 2 < reader
      → 2 < writer
      → IsApart reader fds
      → IsReady (redirect_stdin no_redirections reader writer) fds
  unfolding redirect_stdin
  next-IsReady reader writer fds r w a = record {
    output = refl;
    input = λ e. (r, a);
    other = λ e. w;
  }

  source-redirect_stdin :
      (reader writer : ℕ) (t : Table)
      → source d (redirect_stdin no_redirections reader writer) t ≡ d.at t reader
  unfolding source redirect_stdin
  source-redirect_stdin reader writer t = refl

  -- a `wait` that returns
  run_commands-next :
      (ends : ℕ → Bool) (n : ℕ) (t : Table) (c : Redirections) (cs : List Redirections)
      → ends n ≡ true
      → run_commands d ends n t (c ∷ cs) ≡ (
        child d c t ∷ (run_commands d ends (suc n) (parent d c t) cs).0,
        (run_commands d ends (suc n) (parent d c t) cs).1,
      )
  unfolding run_commands
  run_commands-next ends n t c cs e = rw e refl

  standard_files-connected :
      (ends : ℕ → Bool) (k : ℕ)
      → ((i : ℕ) → ends i ≡ true)
      → (fds : List (ℕ × ℕ)) (c : Redirections) (t : Table) → IsReady c fds
      → AreDistinct fds
      → standard_files (run_commands d ends k t (connected c fds)).0 ≡ links t (source d c t) fds
  unfolding run_commands connected standard_files links
  standard_files-connected ends k all [] c t h a =
      let (i, o) = child_last d c t h in
      ap (λ r. standard_files r.0) (run_commands-next ends k t c [] (all k)) ∙ rw (i, o)
  standard_files-connected ends k all ((reader, writer) ∷ fds) c t h (r, w, ne, ar, aw, a) =
      let (i, o) = child_writes d c reader writer fds t h r w ne in
      let after = parent d (redirect_stdout c writer reader) t in
      let next = redirect_stdin no_redirections reader writer in
      let kept : d.at after reader ≡ d.at t reader =
        parent-apart c reader writer t reader (λ e. (h.input e).1.0) (λ e. ne (sym e)) in
      let rest : links after (d.at after reader) fds ≡ links t (d.at t reader) fds = rw kept (
        links-congr fds after t (d.at t reader)
          (parent-Agree c reader writer t fds (λ e. ((h.input e).0, (h.input e).1.2)) w aw)) in
      let ih =
        standard_files-connected ends (suc k) all fds next after
          (next-IsReady reader writer fds r w ar) a in
      let from = source-redirect_stdin reader writer after in
      ap (λ r. standard_files r.0)
        (run_commands-next ends k t (redirect_stdout c writer reader) (connected next fds) (all k))
      ∙ rw (i, o)
          (ap (λ l. (source d c t, d.at t writer) ∷ l)
            (ih ∙ ap (λ x. links after x fds) from ∙ rest))

  -- every end of a pipe is closed, and the input of the first command
  at-connected :
      (ends : ℕ → Bool) (k : ℕ)
      → ((i : ℕ) → ends i ≡ true)
      → (fds : List (ℕ × ℕ)) (c : Redirections) (t : Table) (n : ℕ) → c.stdout_redirected ≡ false
      → d.at (run_commands d ends k t (connected c fds)).1 n
        ≡ (if (c.stdin_redirected && c.stdin_fd == n) || is_end n fds then none else d.at t n)
  unfolding run_commands connected is_end redirect_stdin
  at-connected ends k all [] c t n h =
      ap (λ r. d.at r.1 n) (run_commands-next ends k t c [] (all k))
      ∙ unfold parent in
        (elim (Bool-cases c.stdin_redirected) [
          | inr e ↦ rw (e, h)
          | inl e ↦ rw (e, h) (d.at-close t c.stdin_fd n ∙ ground arith)
        ])
  at-connected ends k all ((reader, writer) ∷ fds) c t n h =
      let after = parent d (redirect_stdout c writer reader) t in
      let next = redirect_stdin no_redirections reader writer in
      let ih = at-connected ends (suc k) all fds next after n refl in
      let before = parent-at d c reader writer t n in
      ap (λ r. d.at r.1 n)
        (run_commands-next ends k t (redirect_stdout c writer reader) (connected next fds) (all k))
      ∙ ih
      ∙ ap (λ x. if (reader == n) || is_end n fds then none else x) before
      ∙ closed_either (c.stdin_redirected && c.stdin_fd == n) (reader == n) (writer == n)
          (is_end n fds) (d.at t n)

-- a pipeline of a command and of one more for each pipe, as it is before the pipes are set up
unfoldable pub piped : Redirections → List (ℕ × ℕ) → List (Item Redirections)
piped c [] = cmd c ∷ []
piped c (ends ∷ fds) = cmd c ∷ oper op_pipeline ∷ piped no_redirections fds

-- the same when they are
unfoldable pub piped_items : List Redirections → List (Item Redirections)
piped_items [] = []
piped_items (c ∷ []) = cmd c ∷ []
piped_items (c ∷ b ∷ cs) = cmd c ∷ oper op_pipeline ∷ piped_items (b ∷ cs)

emit-none : (x : Option (List (Item Redirections))) → emit none x ≡ x
unfolding emit
emit-none none = refl
emit-none (some items) = refl

connect-piped :
    (fds : List (ℕ × ℕ)) (c : Redirections)
    → connect none fds (piped c fds) ≡ some (piped_items (connected c fds))
unfolding connect piped piped_items connected emit emit_oper
connect-piped [] c = refl
connect-piped (ends ∷ []) c = refl
connect-piped ((reader, writer) ∷ more ∷ fds) c =
    let next = redirect_stdin no_redirections reader writer in
    let ih = connect-piped (more ∷ fds) next in
    let rest = connect (some next) (more ∷ fds) (oper op_pipeline ∷ piped no_redirections fds) in
    rw (sym (emit-none rest) ∙ ih)

run_from-piped_items :
    (status : ℕ → Redirections → ℕ) (n code : ℕ) (cs : List Redirections)
    → run_from status n code (piped_items cs) ≡ cs
unfolding run_from piped_items stops
run_from-piped_items status n code [] = refl
run_from-piped_items status n code (c ∷ []) = refl
run_from-piped_items status n code (c ∷ b ∷ cs) =
    ap (λ l. c ∷ l) (run_from-piped_items status (suc n) (get_exit_code (status n c)) (b ∷ cs))

-- A line of commands that pipes join, the first of which may read from a file and none of which has
-- another redirection of its own. If the shell's `wait` for each command returns, then whatever exit
-- codes they have all of them are run, each with the pipe from the one before as its input and the pipe
-- to the next as its output, the first and the last with the line's input and the shell's output; and
-- at the end the shell has closed the ends of all pipes and the first command's input file, and no
-- other descriptor.
pub run_sequence-piped :
    {File Table : Type 0} (d : Descriptors File Table) (status : ℕ → Redirections → ℕ)
    (ends : ℕ → Bool) (fds : List (ℕ × ℕ)) (c : Redirections) (t : Table)
    → ((n : ℕ) → ends n ≡ true)
    → IsReady c fds
    → AreDistinct fds
    → (items : List (Item Redirections)) × (connect none fds (piped c fds) ≡ some items)
      × (standard_files d (run_commands d ends 0 t (run_sequence status items)).0
          ≡ links d t (source d c t) fds)
      × ((n : ℕ)
          → d.at (run_commands d ends 0 t (run_sequence status items)).1 n
            ≡ (if (c.stdin_redirected && c.stdin_fd == n) || is_end n fds then none else d.at t n))
unfolding run_sequence
run_sequence-piped d status ends fds c t back h a =
    let items = piped_items (connected c fds) in
    let all : run_sequence status items ≡ connected c fds =
      run_from-piped_items status 0 (2 ^ 32 - 1) (connected c fds) in
    (
      items,
      connect-piped fds c,
      rw all (standard_files-connected d ends 0 back fds c t h a),
      λ n. rw all (at-connected d ends 0 back fds c t n h.output),
    )
