-- ===== src/Worker/Signals.antt =====
-- The reaction of the servers' processes to SIGINT and SIGTERM: `signal_cb` of p6/src/WorkerProcess.cpp and
-- of p5/master/src/MasterProcess.cpp.
use rest_technosphere_cpp_se.Base.{
  ℕ, zero, suc, ◌+◌, ◌*◌, ◌<◌, ◌≤◌, ◌≡◌, refl, ◌∙◌, true, Option, none, some, List, [], ◌∷◌, length,
  get_elem?, ltb, if◌then◌else◌, Option-cases, inl, inr, ==_refl, arith,
}
use rest_technosphere_cpp_se.Worker.{ClientConnection, WorkerProcess, remove_connection}

-- The loop of `signal_cb` over the vector of connections, with `rounds` positions left up to the end that is
-- taken before the first round. A round closes the connection at position `current`, which erases it from the
-- same vector; a position behind the last element is read out of bounds, for which the result is `none`.
unfoldable pub close_all : ℕ → ℕ → List ClientConnection → Option (List ClientConnection)
unfolding remove_connection
close_all zero current conns = some conns
close_all (suc rounds) current conns = elim (get_elem? conns current) [
  | none ↦ none
  | some conn ↦ close_all rounds (suc current) (remove_connection conns conn.id)
]

unfoldable pub signal_cb : WorkerProcess → Option WorkerProcess
unfolding close_all
signal_cb w = elim (close_all (length w.conn_list) 0 w.conn_list) [
  | none ↦ none
  | some conns ↦ some (record w { conn_list = conns })
]

-- a connection that is on the list is erased
length-remove_connection :
    (conns : List ClientConnection) (i : ℕ) (conn : ClientConnection)
    → get_elem? conns i ≡ some conn
    → (suc (length (remove_connection conns conn.id)) ≡ length conns)
unfolding remove_connection
length-remove_connection [] i conn e = ground arith
length-remove_connection (c ∷ cs) zero conn e = ground arith
length-remove_connection (c ∷ cs) (suc i) conn e =
    let ih = length-remove_connection cs i conn e in ground arith

get_elem?-length :
    (conns : List ClientConnection) (i : ℕ) (conn : ClientConnection)
    → get_elem? conns i ≡ some conn
    → (i < length conns)
get_elem?-length [] i conn e = ground arith
get_elem?-length (c ∷ cs) zero conn e = omega arith
get_elem?-length (c ∷ cs) (suc i) conn e = omega (arith, get_elem?-length cs i conn e)

-- the vector gets shorter by one and the position higher by one, so they pass each other
close_all-overruns :
    (rounds current : ℕ) (conns : List ClientConnection)
    → length conns ≤ current + 2 * rounds
    → close_all (suc rounds) current conns ≡ none
unfolding close_all
close_all-overruns zero current conns h = elim (Option-cases (get_elem? conns current)) [
  | inl e ↦ rw (e, close_all) refl
  | inr (conn, e) ↦ absurd (omega (arith, get_elem?-length conns current conn e))
]
close_all-overruns (suc rounds) current conns h = elim (Option-cases (get_elem? conns current)) [
  | inl e ↦ rw (e, close_all) refl
  | inr (conn, e) ↦
      let shorter = length-remove_connection conns current conn e in
      rw (e, close_all)
        (close_all-overruns rounds (suc current) (remove_connection conns conn.id) (omega arith))
]

-- With two connections or more, the loop reads behind the end of the vector; with fewer it empties it.
pub close_all-length :
    (conns : List ClientConnection)
    → close_all (length conns) 0 conns ≡ (if ltb 1 (length conns) then none else some [])
unfolding close_all remove_connection
close_all-length [] = refl
close_all-length (c ∷ []) = rw (==_refl c.id) refl
close_all-length (c ∷ d ∷ cs) =
    close_all-overruns (suc (length cs)) 0 (c ∷ d ∷ cs) (omega arith)
    ∙ (let more : ltb 1 (suc (suc (length cs))) ≡ true = ground arith in rw more refl)
