-- ===== src/Shell/Redirection.antt =====
-- What the redirections of one command do, in the child and in the shell.
use rest_technosphere_cpp_se.Base.{
  ℕ, ◌<◌, ◌≡◌, ◌≢◌, refl, ◌∙◌, inl, inr, true, false, ◌&&◌, ◌||◌, Option, none, some, List, [], ◌∷◌,
  Bool-cases, ==_refl, ◌==◌, if◌then◌else◌, arith,
}
use rest_technosphere_cpp_se.Shell.Descriptors.{
  Descriptors, Redirections, no_redirections, redirect_stdin, redirect_stdout, or_else, close_other,
  redirected, child, parent,
}

or_else-none {ℓ} : {A : Type ℓ} (x : Option A) → or_else x none ≡ x
or_else-none none = refl
or_else-none (some a) = refl

module _ {File Table : Type 0} (d : Descriptors File Table) where
  close-apart : (t : Table) (fd n : ℕ) → (fd == n) ≡ false → d.at (d.close t fd) n ≡ d.at t n
  close-apart t fd n e = d.at-close t fd n ∙ rw e

  close_other-apart :
      (other : ℕ) (t : Table) (n : ℕ)
      → ((other == 0) ≡ false → (other == n) ≡ false)
      → d.at (close_other d other t) n ≡ d.at t n
  unfolding close_other
  close_other-apart other t n h = elim (Bool-cases (other == 0)) [
    | inl e ↦ rw e
    | inr e ↦ rw e (close-apart t other n (h e))
  ]

  -- the redirected descriptor
  redirected_self :
      (fileno fd other : ℕ) (t : Table)
      → (fileno == fd) ≡ false
      → (fd == fileno) ≡ false
      → ((other == 0) ≡ false → (other == fileno) ≡ false)
      → d.at (redirected d fileno fd other t) fileno ≡ d.at t fd
  unfolding redirected
  redirected_self fileno fd other t e e' h =
      close_other-apart other (d.close (d.dup2 (d.close t fileno) fd fileno) fd) fileno h
      ∙ close-apart (d.dup2 (d.close t fileno) fd fileno) fd fileno e'
      ∙ d.at-dup2 (d.close t fileno) fd fileno fileno
      ∙ rw (==_refl fileno, d.at-close t fileno fileno, ==_refl fileno)
          (or_else-none (d.at (d.close t fileno) fd) ∙ close-apart t fileno fd e)

  -- any other descriptor
  redirected_other :
      (fileno fd other n : ℕ) (t : Table)
      → (fileno == n) ≡ false
      → (fd == n) ≡ false
      → ((other == 0) ≡ false → (other == n) ≡ false)
      → d.at (redirected d fileno fd other t) n ≡ d.at t n
  unfolding redirected
  redirected_other fileno fd other n t e e' h =
      close_other-apart other (d.close (d.dup2 (d.close t fileno) fd fileno) fd) n h
      ∙ close-apart (d.dup2 (d.close t fileno) fd fileno) fd n e'
      ∙ d.at-dup2 (d.close t fileno) fd fileno n
      ∙ rw e (close-apart t fileno n e)

  -- what a command reads from
  unfoldable pub source : Redirections → Table → Option File
  source c t = if c.stdin_redirected then d.at t c.stdin_fd else d.at t 0

-- the descriptor is no end of a pipe
abbrev pub IsApart : ℕ → List (ℕ × ℕ) → Type 0
IsApart n [] = Unit
IsApart n ((reader, writer) ∷ fds) = (n ≢ reader) × (n ≢ writer) × IsApart n fds

-- the ends of the pipes are different descriptors, and none is 0, 1 or 2
abbrev pub AreDistinct : List (ℕ × ℕ) → Type 0
AreDistinct [] = Unit
AreDistinct ((reader, writer) ∷ fds) =
    (2 < reader)
    × (2 < writer)
    × (reader ≢ writer)
    × IsApart reader fds
    × IsApart writer fds
    × AreDistinct fds

-- A command whose output is not redirected and whose input, if it is, comes from a descriptor of its own.
pub record IsReady (c : Redirections) (fds : List (ℕ × ℕ)) : Type 0 where
  pub output : c.stdout_redirected ≡ false
  pub input : c.stdin_redirected ≡ true → (2 < c.stdin_fd) × IsApart c.stdin_fd fds
  pub other : (c.other_side_of_pipe_fd == 0) ≡ false → 2 < c.other_side_of_pipe_fd

-- the commands of a pipeline as `connect` leaves them
unfoldable pub connected : Redirections → List (ℕ × ℕ) → List Redirections
unfolding redirect_stdin redirect_stdout
connected c [] = c ∷ []
connected c ((reader, writer) ∷ fds) =
    redirect_stdout c writer reader ∷ connected (redirect_stdin no_redirections reader writer) fds

module _ {File Table : Type 0} (d : Descriptors File Table) where
  -- the end of a pipeline
  pub child_last :
      (c : Redirections) (t : Table)
      → IsReady c []
      → (d.at (child d c t) 0 ≡ source d c t) × (d.at (child d c t) 1 ≡ d.at t 1)
  unfolding child source
  child_last c t h = elim (Bool-cases c.stdin_redirected) [
    | inr e ↦ rw (e, h.output) (refl, refl)
    | inl e ↦
        let far = (h.input e).0 in
        let fd = c.stdin_fd in
        let away : (o : (c.other_side_of_pipe_fd == 0) ≡ false)
            → (c.other_side_of_pipe_fd == 1) ≡ false =
          λ o. let p = h.other o in ground arith in
        rw (e, h.output)
          (
            redirected_self d 0 fd c.other_side_of_pipe_fd t (ground arith) (ground arith) (λ o. o),
            redirected_other d 0 fd c.other_side_of_pipe_fd 1 t refl (ground arith) away,
          )
  ]

  -- a command that writes to a pipe
  pub child_writes :
      (c : Redirections) (reader writer : ℕ) (fds : List (ℕ × ℕ)) (t : Table)
      → IsReady c ((reader, writer) ∷ fds)
      → 2 < reader
      → 2 < writer
      → reader ≢ writer
      → (d.at (child d (redirect_stdout c writer reader) t) 0 ≡ source d c t)
        × (d.at (child d (redirect_stdout c writer reader) t) 1 ≡ d.at t writer)
  unfolding child source redirect_stdout
  child_writes c reader writer fds t h r w ne = elim (Bool-cases c.stdin_redirected) [
    | inr e ↦ rw e (
      redirected_other d 1 writer reader 0 t refl (ground arith) (λ o. o),
      redirected_self d 1 writer reader t (ground arith) (ground arith) (λ o. ground arith),
    )
    | inl e ↦
        let (far, (not_reader, not_writer, later)) = h.input e in
        let fd = c.stdin_fd in
        rw e (
          redirected_other d 1 writer 0 0 (redirected d 0 fd reader t) refl (ground arith) (λ o. o)
              ∙ redirected_self d 0 fd reader t (ground arith) (ground arith) (λ o. o),
          redirected_self d 1 writer 0 (redirected d 0 fd reader t) (ground arith) (ground arith)
                (λ o. cc)
              ∙ redirected_other d 0 fd reader writer t (ground arith) (ground arith)
                  (λ o. ground arith),
        )
  ]

  pub parent-at :
      (c : Redirections) (reader writer : ℕ) (t : Table) (n : ℕ)
      → d.at (parent d (redirect_stdout c writer reader) t) n
        ≡ (if (c.stdin_redirected && c.stdin_fd == n) || writer == n then none else d.at t n)
  unfolding parent redirect_stdout
  parent-at c reader writer t n = elim (Bool-cases c.stdin_redirected) [
    | inr e ↦ rw e (d.at-close t writer n)
    | inl e ↦
        rw e (
          d.at-close (d.close t c.stdin_fd) writer n
          ∙ rw (d.at-close t c.stdin_fd n) (ground arith))
  ]
