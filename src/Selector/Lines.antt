-- ===== src/Selector/Lines.antt =====
-- Reading one line of the configuration.
use rest_technosphere_cpp_se.Base.{
  ℕ, zero, suc, ◌+◌, ◌<◌, ◌≡◌, ◌≢◌, refl, sym, ◌∙◌, false, none, some, List, [], ◌∷◌, ◌++◌, Bytes,
  atoi, length, length-append, All, ◌==◌, inl, inr, ◌⊎◌, Option-cases, Bool-cases, arith,
}
use mathlib.Core.List.{append_assoc}
use rest_technosphere_cpp_se.Selector.{Route, cut, getline, to_ushort, read_servers, read_record}

some_inj {ℓ} : {A : Type ℓ} {a b : A} → some a ≡ some b → a ≡ b
some_inj h = cc

abbrev pub Lacks : ℕ → Bytes → Type 0
Lacks c s = All (λ b. b ≢ c) s

cut-append :
    (delim : ℕ) (s rest : Bytes) → Lacks delim s → cut delim (s ++ (delim ∷ rest)) ≡ (s, some rest)
unfolding cut
cut-append delim [] rest h = ground arith
cut-append delim (c ∷ s) rest h =
    let other : (c == delim) ≡ false = ground (arith, h.0) in
    rw (other, cut-append delim s rest h.1)

cut-end : (delim : ℕ) (s : Bytes) → Lacks delim s → cut delim s ≡ (s, none)
unfolding cut
cut-end delim [] h = refl
cut-end delim (c ∷ s) h =
    let other : (c == delim) ≡ false = ground (arith, h.0) in rw (other, cut-end delim s h.1)

-- what is behind a delimiter is shorter
cut-lt : (delim : ℕ) (s rest : Bytes) → (cut delim s).1 ≡ some rest → length rest < length s
unfolding cut
cut-lt delim [] rest h = cc
cut-lt delim (c ∷ s) rest h = elim (Bool-cases (c == delim)) [
  | inl e ↦ let same : s ≡ rest = some_inj (rw e at h) in rw (← same) (omega arith)
  | inr e ↦ let shorter = cut-lt delim s rest (rw e at h) in omega arith
]

read_servers-none :
    (fuel : ℕ) (str_ip str_port : Bytes) (rt : Route)
    → read_servers fuel none str_ip str_port rt ≡ rt
unfolding read_servers
read_servers-none zero str_ip str_port rt = refl
read_servers-none (suc fuel) str_ip str_port rt = refl

read_servers-some :
    (fuel : ℕ) (s str_ip str_port : Bytes) (rt : Route)
    → read_servers (suc fuel) (some s) str_ip str_port rt
      ≡ read_servers fuel
          (getline 44 str_port (cut 58 s).1).1
          (cut 58 s).0
          (getline 44 str_port (cut 58 s).1).0
          (rt ++ (((cut 58 s).0, atoi (getline 44 str_port (cut 58 s).1).0) ∷ []))
unfolding read_servers getline
read_servers-some fuel s str_ip str_port rt = refl

-- after a round nothing is left, or less than before
getline-shorter :
    (s str_port : Bytes)
    → ((getline 44 str_port (cut 58 s).1).1 ≡ none)
      ⊎ ((r : Bytes) × ((getline 44 str_port (cut 58 s).1).1 ≡ some r) × (length r < length s))
unfolding getline
getline-shorter s str_port = elim (Option-cases (cut 58 s).1) [
  | inl o ↦ inl (rw (o, getline))
  | inr (r, o) ↦ elim (Option-cases (cut 44 r).1) [
    | inl f ↦ inl (rw (o, getline) f)
    | inr (t, f) ↦ inr (t, rw (o, getline) f, omega (arith, cut-lt 58 s r o, cut-lt 44 r t f))
  ]
]

-- Fuel beyond the length of the text is never used.
read_servers-fuel :
    (fuel more : ℕ) (s str_ip str_port : Bytes) (rt : Route)
    → length s < fuel
    → read_servers (fuel + more) (some s) str_ip str_port rt
      ≡ read_servers fuel (some s) str_ip str_port rt
read_servers-fuel zero more s str_ip str_port rt h = absurd (omega arith)
read_servers-fuel (suc fuel) more s str_ip str_port rt h =
    let ip = (cut 58 s).0 in
    let port = getline 44 str_port (cut 58 s).1 in
    let rt' = rt ++ ((ip, atoi port.0) ∷ []) in
    let e : suc fuel + more ≡ suc (fuel + more) = omega arith in
    let step : read_servers (fuel + more) port.1 ip port.0 rt'
        ≡ read_servers fuel port.1 ip port.0 rt' =
      elim (getline-shorter s str_port) [
        | inl o ↦ rw o (
            read_servers-none (fuel + more) ip port.0 rt'
            ∙ sym (read_servers-none fuel ip port.0 rt'))
        | inr (r, o, l) ↦ rw o (read_servers-fuel fuel more r ip port.0 rt' (omega arith))
      ] in
    rw
      (
        e,
        read_servers-some (fuel + more) s str_ip str_port rt,
        read_servers-some fuel s str_ip str_port rt,
      )
      step

-- an address and a port, as they are written
abbrev pub ServerText : Type 0
ServerText = Bytes × Bytes

-- a server, a comma, the next one
abbrev pub servers_text : ServerText → List ServerText → Bytes
servers_text a [] = a.0 ++ (58 ∷ a.1)
servers_text a (b ∷ bs) = a.0 ++ (58 ∷ (a.1 ++ (44 ∷ servers_text b bs)))

abbrev pub route_text : List ServerText → Route
route_text [] = []
route_text (a ∷ bs) = (a.0, atoi a.1) ∷ route_text bs

abbrev pub IsServer : ServerText → Type 0
IsServer a = Lacks 58 a.0 × Lacks 44 a.1

read_servers_lem :
    (fuel : ℕ) (a : ServerText) (bs : List ServerText) (str_ip str_port : Bytes) (rt : Route)
    → length bs < fuel
    → All IsServer (a ∷ bs)
    → read_servers fuel (some (servers_text a bs)) str_ip str_port rt ≡ rt ++ route_text (a ∷ bs)
unfolding read_servers getline
read_servers_lem zero a bs str_ip str_port rt l h = absurd (omega arith)
read_servers_lem (suc fuel) a [] str_ip str_port rt l h =
    rw (cut-append 58 a.0 a.1 h.0.0, cut-end 44 a.1 h.0.1)
      (read_servers-none fuel a.0 a.1 (rt ++ ((a.0, atoi a.1) ∷ [])))
read_servers_lem (suc fuel) a (b ∷ bs) str_ip str_port rt l h =
    rw
      (
        cut-append 58 a.0 (a.1 ++ (44 ∷ servers_text b bs)) h.0.0,
        cut-append 44 a.1 (servers_text b bs) h.0.1,
      )
      (read_servers_lem fuel b bs a.0 a.1 (rt ++ ((a.0, atoi a.1) ∷ [])) (omega arith) h.1
        ∙ rw append_assoc)

length-servers_text :
    (a : ServerText) (bs : List ServerText) → length bs < length (servers_text a bs)
length-servers_text a [] = omega (arith, length-append a.0 (58 ∷ a.1))
length-servers_text a (b ∷ bs) = omega (
  arith,
  length-append a.0 (58 ∷ (a.1 ++ (44 ∷ servers_text b bs))),
  length-append a.1 (44 ∷ servers_text b bs),
  length-servers_text b bs,
)

-- the line of a port with its servers
abbrev pub line_text : Bytes → ServerText → List ServerText → Bytes
line_text port a bs = port ++ (44 ∷ servers_text a bs)

pub read_record-line_text :
    (port : Bytes) (a : ServerText) (bs : List ServerText)
    → Lacks 44 port
    → All IsServer (a ∷ bs)
    → read_record (line_text port a bs) ≡ (to_ushort (atoi port), route_text (a ∷ bs))
unfolding read_record getline
read_record-line_text port a bs hp h = rw (
  cut-append 44 port (servers_text a bs) hp,
  read_servers_lem (length (line_text port a bs) + 1) a bs [] port []
      (omega (arith, length-append port (44 ∷ servers_text a bs), length-servers_text a bs)) h,
)
