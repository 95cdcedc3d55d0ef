-- ===== src/Shell/Making.antt =====
-- The first loop of `build_command_sequence` (p4/src/CmdInterperter.cpp) with the construction of the
-- commands, which can fail.
use rest_technosphere_cpp_se.Base.{
  ◌≡◌, refl, sym, ◌∙◌, ap, inl, inr, true, false, Option, none, some, List, [], ◌∷◌, ◌++◌, Bytes,
  Bool-cases, Option-cases,
}
use mathlib.Core.List.{append_assoc}
use mathlib.Core.Path.{fun_ext}
use rest_technosphere_cpp_se.Shell.{
  OpType, Item, cmd, oper, is_operator, oper_of, push_command, push_oper, build_step, last_command,
  build_loop,
}
use rest_technosphere_cpp_se.Shell.Sequence.{group, operator-Reads}

abbrev pub bind {ℓ ℓ'} : {A : Type ℓ} {B : Type ℓ'} → Option A → (A → Option B) → Option B
bind none f = none
bind (some x) f = f x

abbrev pub both {ℓ} : {A : Type ℓ} → Option (List A) → Option (List A) → Option (List A)
both none y = none
both (some xs) none = none
both (some xs) (some ys) = some (xs ++ ys)

module _ {ℓ} {A : Type ℓ} (make : List Bytes → Option A) where
  -- every command of the sequence built, or none if one cannot be
  unfoldable pub make_all : List (Item (List Bytes)) → Option (List (Item A))
  make_all [] = some []
  make_all (oper o ∷ rest) = both (some (oper o ∷ [])) (make_all rest)
  make_all (cmd ts ∷ rest) =
      both (elim (make ts) [ none ↦ none | some c ↦ some (cmd c ∷ []) ]) (make_all rest)

  both_assoc : (x y z : Option (List (Item A))) → both (both x y) z ≡ both x (both y z)
  both_assoc none y z = refl
  both_assoc (some x) none z = refl
  both_assoc (some x) (some y) none = refl
  both_assoc (some x) (some y) (some z) = ap some (append_assoc x y z)

  both_nil : (x : Option (List (Item A))) → both (some []) x ≡ x
  both_nil none = refl
  both_nil (some x) = refl

  make_all-append :
      (g h : List (Item (List Bytes))) → make_all (g ++ h) ≡ both (make_all g) (make_all h)
  unfolding make_all
  make_all-append [] h = sym (both_nil (make_all h))
  make_all-append (oper o ∷ g) h =
      ap (both (some (oper o ∷ []))) (make_all-append g h)
      ∙ sym (both_assoc (some (oper o ∷ [])) (make_all g) (make_all h))
  make_all-append (cmd ts ∷ g) h =
      let one : Option (List (Item A)) = elim (make ts) [
        | none ↦ none
        | some c ↦ some (cmd c ∷ [])
      ] in
      ap (both one) (make_all-append g h) ∙ sym (both_assoc one (make_all g) (make_all h))

  -- an operator behind a command
  make_all-closed :
      (g : List (Item (List Bytes))) (current : List Bytes) (o : OpType)
      → make_all (g ++ (cmd current ∷ oper o ∷ []))
        ≡ bind
            (make_all g)
            (λ r. bind (push_command make r current) (λ q. push_oper make q (some o)))
  unfolding make_all push_command push_oper
  make_all-closed g current o =
      make_all-append g (cmd current ∷ oper o ∷ []) ∙ elim (Option-cases (make_all g)) [
        | inl e ↦ rw e refl
        | inr (r, e) ↦ elim (Option-cases (make current)) [
          | inl f ↦ rw (e, f, push_command) refl
          | inr (c, f) ↦
              rw (e, f, push_command) (ap some (sym (append_assoc r (cmd c ∷ []) (oper o ∷ []))))
        ]
      ]

  make_all-last :
      (g : List (Item (List Bytes))) (current : List Bytes)
      → bind (make_all g) (λ r. last_command make r current)
        ≡ bind (last_command group g current) make_all
  unfolding last_command push_command make_all
  make_all-last g [] = elim (Option-cases (make_all g)) [
    | inl e ↦ rw e refl
    | inr (r, e) ↦ rw e refl
  ]
  make_all-last g (t ∷ ts) = sym (
      make_all-append g (cmd (t ∷ ts) ∷ []) ∙ elim (Option-cases (make_all g)) [
        | inl e ↦ rw e refl
        | inr (r, e) ↦ elim (Option-cases (make (t ∷ ts))) [
          | inl f ↦ rw (e, f, push_command) refl
          | inr (c, f) ↦ rw (e, f, push_command) refl
        ]
      ])

  -- the loop on a token, for any construction of the commands
  build_loop-word :
      (r : List (Item A)) (current tokens : List Bytes) (token : Bytes)
      → is_operator token ≡ false
      → build_loop make r current (token ∷ tokens)
        ≡ build_loop make r (current ++ (token ∷ [])) tokens
  unfolding build_loop build_step
  build_loop-word r current tokens token e = rw (build_loop, build_step, e) refl

  build_loop-oper :
      (r : List (Item A)) (current tokens : List Bytes) (token : Bytes) (o : OpType)
      → is_operator token ≡ true
      → oper_of token ≡ some o
      → build_loop make r current (token ∷ tokens)
        ≡ bind
            (bind (push_command make r current) (λ q. push_oper make q (some o)))
            (λ q. build_loop make q [] tokens)
  unfolding build_loop build_step push_command push_oper
  build_loop-oper r current tokens token o e f = elim (Option-cases (make current)) [
    | inl h ↦ rw (build_loop, build_step, e, push_command, h) refl
    | inr (c, h) ↦ rw (build_loop, build_step, e, push_command, h, f) refl
  ]

bind_assoc {ℓ ℓ' ℓ''} :
    {A : Type ℓ} {B : Type ℓ'} {C : Type ℓ''} (x : Option A) (f : A → Option B) (h : B → Option C)
    → bind x (λ a. bind (f a) h) ≡ bind (bind x f) h
bind_assoc none f h = refl
bind_assoc (some a) f h = refl

grouped :
    (g : List (Item (List Bytes))) (current tokens : List Bytes) (token : Bytes) (o : OpType)
    → is_operator token ≡ true
    → oper_of token ≡ some o
    → build_loop group g current (token ∷ tokens)
      ≡ build_loop group (g ++ (cmd current ∷ oper o ∷ [])) [] tokens
unfolding push_command push_oper
grouped g current tokens token o e f =
    build_loop-oper group g current tokens token o e f
    ∙ ap (λ q. build_loop group q [] tokens) (append_assoc g (cmd current ∷ []) (oper o ∷ []))

module _ {ℓ} {A : Type ℓ} (make : List Bytes → Option A) where
  -- to group the tokens and then to build the commands is to build them on the way
  pub build_loop-make_all :
      (tokens : List Bytes) (g : List (Item (List Bytes))) (current : List Bytes)
      → bind (make_all make g) (λ r. build_loop make r current tokens)
        ≡ bind (build_loop group g current tokens) (make_all make)
  unfolding build_loop
  build_loop-make_all [] g current = make_all-last make g current
  build_loop-make_all (token ∷ tokens) g current = elim (Bool-cases (is_operator token)) [
    | inr e ↦
        let next = current ++ (token ∷ []) in
        ap (bind (make_all make g)) (fun_ext (λ r. build_loop-word make r current tokens token e))
        ∙ build_loop-make_all tokens g next
        ∙ ap (λ x. bind x (make_all make)) (sym (build_loop-word group g current tokens token e))
    | inl e ↦
        let (o, read) = operator-Reads token e in
        let next = g ++ (cmd current ∷ oper o ∷ []) in
        ap (bind (make_all make g))
          (fun_ext (λ r. build_loop-oper make r current tokens token o e read.reads))
        ∙ bind_assoc (make_all make g)
            (λ r. bind (push_command make r current) (λ q. push_oper make q (some o)))
            (λ q. build_loop make q [] tokens)
        ∙ ap (λ x. bind x (λ q. build_loop make q [] tokens))
            (sym (make_all-closed make g current o))
        ∙ build_loop-make_all tokens next []
        ∙ ap (λ x. bind x (make_all make)) (sym (grouped g current tokens token o e read.reads))
  ]
