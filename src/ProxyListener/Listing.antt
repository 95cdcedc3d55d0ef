-- ===== src/ProxyListener/Listing.antt =====
-- `conn_list` of a listener by ascending ids: what registering, closing and a change of state do to it.
use rest_technosphere_cpp_se.Base.{
  ℕ, suc, ◌<◌, ◌≡◌, refl, ap, false, none, some, List, [], ◌∷◌, ◌++◌, inl, inr, Bool-cases, ◌==◌,
  if◌then◌else◌, arith,
}
use rest_technosphere_cpp_se.Proxy.{Connection}
use rest_technosphere_cpp_se.ProxyListener.{Registered, remove_connection, state_of, set_state}

-- the ids ascend, from `low` on and below `high`
abbrev pub IsAscending : ℕ → List Registered → ℕ → Type 0
IsAscending low [] high = low < suc high
IsAscending low (r ∷ rs) high = (low < suc r.id) × IsAscending (suc r.id) rs high

IsAscending-lower :
    (low lower : ℕ) (rs : List Registered) (high : ℕ)
    → lower < suc low
    → IsAscending low rs high
    → IsAscending lower rs high
IsAscending-lower low lower [] high l h = omega arith
IsAscending-lower low lower (r ∷ rs) high l (b, h) = (omega arith, h)

IsAscending-range :
    (low : ℕ) (rs : List Registered) (high : ℕ) → IsAscending low rs high → low < suc high
IsAscending-range low [] high h = h
IsAscending-range low (r ∷ rs) high (b, h) =
    let l = IsAscending-range (suc r.id) rs high h in omega arith

pub remove_connection-IsAscending :
    (low : ℕ) (rs : List Registered) (high id : ℕ)
    → IsAscending low rs high
    → IsAscending low (remove_connection rs id) high
unfolding remove_connection
remove_connection-IsAscending low [] high id h = h
remove_connection-IsAscending low (r ∷ rs) high id (b, h) = elim (Bool-cases (r.id == id)) [
  | inl e ↦ rw e (IsAscending-lower (suc r.id) low rs high (omega arith) h)
  | inr e ↦ rw e (b, remove_connection-IsAscending (suc r.id) rs high id h)
]

pub set_state-IsAscending :
    (low : ℕ) (rs : List Registered) (high id : ℕ) (c : Connection)
    → IsAscending low rs high
    → IsAscending low (set_state rs id c) high
unfolding set_state
set_state-IsAscending low [] high id c h = h
set_state-IsAscending low (r ∷ rs) high id c (b, h) = elim (Bool-cases (r.id == id)) [
  | inl e ↦ rw e (b, h)
  | inr e ↦ rw e (b, set_state-IsAscending (suc r.id) rs high id c h)
]

pub append-IsAscending :
    (low : ℕ) (rs : List Registered) (high : ℕ) (r : Registered)
    → r.id ≡ high
    → IsAscending low rs high
    → IsAscending low (rs ++ (r ∷ [])) (suc high)
append-IsAscending low [] high r e h = (omega arith, omega arith)
append-IsAscending low (s ∷ rs) high r e (b, h) = (b, append-IsAscending (suc s.id) rs high r e h)

state_of-low :
    (low : ℕ) (rs : List Registered) (high id : ℕ)
    → IsAscending low rs high
    → id < low
    → state_of rs id ≡ none
unfolding state_of
state_of-low low [] high id h l = refl
state_of-low low (r ∷ rs) high id (b, h) l = elim (Bool-cases (r.id == id)) [
  | inl e ↦ absurd (grind arith)
  | inr e ↦ rw e (state_of-low (suc r.id) rs high id h (omega arith))
]

pub state_of-high :
    (low : ℕ) (rs : List Registered) (high id : ℕ)
    → IsAscending low rs high
    → high < suc id
    → state_of rs id ≡ none
unfolding state_of
state_of-high low [] high id h l = refl
state_of-high low (r ∷ rs) high id (b, h) l = elim (Bool-cases (r.id == id)) [
  | inl e ↦ let k = IsAscending-range (suc r.id) rs high h in absurd (grind arith)
  | inr e ↦ rw e (state_of-high (suc r.id) rs high id h l)
]

pub state_of-remove_connection :
    (low : ℕ) (rs : List Registered) (high id j : ℕ)
    → IsAscending low rs high
    → state_of (remove_connection rs id) j ≡ (if id == j then none else state_of rs j)
unfolding state_of remove_connection
state_of-remove_connection low [] high id j h = ground arith
state_of-remove_connection low (r ∷ rs) high id j (b, h) = elim (Bool-cases (r.id == id)) [
  | inl e ↦ let later = state_of-low (suc r.id) rs high id h in grind arith
  | inr e ↦ let ih = state_of-remove_connection (suc r.id) rs high id j h in grind arith
]

pub state_of-set_state :
    (rs : List Registered) (id j : ℕ) (c d : Connection)
    → state_of rs id ≡ some c
    → state_of (set_state rs id d) j ≡ (if id == j then some d else state_of rs j)
unfolding state_of set_state
state_of-set_state [] id j c d o = absurd (cc)
state_of-set_state (r ∷ rs) id j c d o = elim (Bool-cases (r.id == id)) [
  | inl e ↦ grind arith
  | inr e ↦ let ih = state_of-set_state rs id j c d in grind arith
]

pub state_of-append :
    (rs : List Registered) (r : Registered) (j : ℕ)
    → (r.id == j) ≡ false
    → state_of (rs ++ (r ∷ [])) j ≡ state_of rs j
unfolding state_of
state_of-append [] r j e = rw e
state_of-append (s ∷ rs) r j e =
    ap (λ t. if s.id == j then s.established else t) (state_of-append rs r j e)
