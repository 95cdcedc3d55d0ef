-- ===== src/Command/Params.antt =====
-- What the parameter block of a command holds, and that it always fits the table's fields.
use rest_technosphere_cpp_se.Base.{
  ℕ, suc, ◌+◌, ◌≤◌, ◌<◌, ◌^◌, ◌≡◌, refl, ◌∙◌, inl, inr, List, [], ◌∷◌, Bytes, codes, text_eq, atoi,
  ℤ, pos, negsuc, length, take, length-take, All, All-take, IsText, arith, Bool-cases,
}
use rest_technosphere_cpp_se.Memory.{Mem, write, strcpy, c_string, int_lt}
use rest_technosphere_cpp_se.Memory.Laws.{c_string-strcpy, c_string_frame, strcpy_above, strcpy_end}
use rest_technosphere_cpp_se.Records.{record_size, IsKey, Fits}
use rest_technosphere_cpp_se.PosixTable.{value_size}
use rest_technosphere_cpp_se.Command.{
  Operation, cmd_get, cmd_set, cmd_del, cmd_none, UserCommand, new_command, strncpy, put_key,
  put_value, int_bits, minimum_ttl, interpret_set, interpret, get_key_param, get_value_param,
}

-- with room for the terminator `strncpy` is `strcpy`
pub strncpy-strcpy :
    (m : Mem) (dst : ℕ) (s : Bytes) → strncpy m dst s (length s + 1) ≡ strcpy m dst s
unfolding strncpy strcpy
strncpy-strcpy m dst [] = let e : 0 + 1 ≡ suc 0 = omega arith in refl
strncpy-strcpy m dst (c ∷ s) =
    let e : suc (length s) + 1 ≡ suc (length s + 1) = omega arith in
    rw e (strncpy-strcpy (write m dst c) (suc dst) s)

pub put_key_lem : (m : Mem) (key : Bytes) → put_key m key ≡ strcpy m 0 (take 62 key)
unfolding put_key
put_key_lem m key = strncpy-strcpy m 0 (take 62 key)

put_value_lem : (m : Mem) (value : Bytes) → put_value m value ≡ strcpy m 64 (take 955 value)
unfolding put_value
put_value_lem m value = strncpy-strcpy m 64 (take 955 value)

IsKey-cut : (key : Bytes) → IsText key → IsKey (take 62 key)
IsKey-cut key t = record {
  text = All-take (λ c. 0 < c) 62 key t;
  fits = omega (arith, length-take 62 key);
}

Fits-cut : (value : Bytes) → IsText value → Fits value_size (take 955 value)
Fits-cut value t = record {
  text = All-take (λ c. 0 < c) 955 value t;
  fits = omega (arith, length-take 955 value);
}

-- the key is read back from the block, with the value behind it or not
pub read_key :
    (m : Mem) (key : Bytes) → IsText key → c_string record_size (put_key m key) 0 ≡ take 62 key
read_key m key t = rw put_key_lem (
    c_string-strcpy record_size m 0 (take 62 key) (IsKey-cut key t).text
      (omega (arith, length-take 62 key)))

-- the key's bytes stay below the value's
read_value :
    (m : Mem) (key value : Bytes)
    → IsText value
    → c_string 960 (put_key (put_value m value) key) 64 ≡ take 955 value
read_value m key value t =
    rw (put_key_lem (put_value m value) key, put_value_lem m value)
      (c_string_frame 960 (strcpy m 64 (take 955 value))
          (strcpy (strcpy m 64 (take 955 value)) 0 (take 62 key)) 64 (length (take 955 value))
          (strcpy_end m 64 (take 955 value)) (omega (arith, length-take 955 value))
          (λ s l.
            strcpy_above (strcpy m 64 (take 955 value)) 0 (take 62 key) (64 + s)
              (omega (arith, length-take 62 key)))
        ∙ c_string-strcpy 960 m 64 (take 955 value) (Fits-cut value t).text
            (omega (arith, length-take 955 value)))

-- a block with no value reads as the empty value
read_no_value : (key : Bytes) → c_string 960 (put_key new_command.params key) 64 ≡ []
unfolding c_string new_command
read_no_value key =
    let z : put_key new_command.params key 64 ≡ 0 =
      rw (put_key_lem new_command.params key)
        (strcpy_above new_command.params 0 (take 62 key) 64 (omega (arith, length-take 62 key))) in
    c_string_frame 960 new_command.params (put_key new_command.params key) 64 0 refl (omega arith)
      (λ s l. let e : s ≡ 0 = omega arith in rw e z)
    ∙ refl

-- What a complete command line carries: the operation, the cut key and value, and the `int` of
-- the lifetime with ten in place of anything below it.
interpret_words :
    (arg key value : Bytes) (rest : List Bytes)
    → IsText arg
    → IsText key
    → IsText value
    → ((interpret (codes "get" ∷ arg ∷ rest)).operation ≡ cmd_get)
      × (get_key_param (interpret (codes "get" ∷ arg ∷ rest)) ≡ take 62 arg)
      × ((interpret (codes "del" ∷ arg ∷ rest)).operation ≡ cmd_del)
      × (get_key_param (interpret (codes "del" ∷ arg ∷ rest)) ≡ take 62 arg)
      × ((interpret (codes "set" ∷ arg ∷ key ∷ value ∷ rest)).operation ≡ cmd_set)
      × (get_key_param (interpret (codes "set" ∷ arg ∷ key ∷ value ∷ rest)) ≡ take 62 key)
      × (get_value_param (interpret (codes "set" ∷ arg ∷ key ∷ value ∷ rest)) ≡ take 955 value)
      × ((interpret (codes "set" ∷ arg ∷ key ∷ value ∷ rest)).ttl ≡ minimum_ttl (atoi arg))
unfolding interpret get_key_param get_value_param text_eq
interpret_words arg key value rest ta tk tv = (
  refl,
  read_key (new_command.params) arg ta,
  refl,
  read_key (new_command.params) arg ta,
  refl,
  read_key (put_value new_command.params value) key tk,
  read_value (new_command.params) key value tv,
  refl,
)

-- the parameters that `execute_query` hands to the table
pub record IsServable (c : UserCommand) : Type 0 where
  pub key : IsKey (get_key_param c)
  pub value : Fits value_size (get_value_param c)
  pub lifetime : c.operation ≡ cmd_set → (10 ≤ c.ttl) × (c.ttl < 2 ^ 31)

int_bits-lt : (z : ℤ) → int_bits z < 2 ^ 32
unfolding int_bits
int_bits-lt (pos n) = omega arith
int_bits-lt (negsuc n) = omega arith

-- an `int` that is not below ten is positive
minimum_ttl-le : (z : ℤ) → (10 ≤ minimum_ttl z) × (minimum_ttl z < 2 ^ 31)
unfolding minimum_ttl
minimum_ttl-le z =
    let l = int_bits-lt z in
    elim (Bool-cases (int_lt (int_bits z) 10)) [
      | inl e ↦ rw (minimum_ttl, e) (omega arith, omega arith)
      | inr e ↦ rw (minimum_ttl, e) (ground arith, ground arith)
    ]

empty-Fits : Fits value_size []
empty-Fits = record { text = tt; fits = omega arith }

-- a command with no value
key_only-IsServable :
    (op : Operation) (key : Bytes)
    → IsText key
    → (op ≡ cmd_set → ⊥)
    → IsServable (record { operation = op; ttl = 0; params = put_key new_command.params key })
unfolding get_key_param get_value_param
key_only-IsServable op key t other = record {
  key = rw (read_key new_command.params key t) (IsKey-cut key t);
  value = rw (read_no_value key) empty-Fits;
  lifetime = λ e. absurd (other e);
}

pub new_command-IsServable : IsServable new_command
unfolding new_command get_key_param get_value_param c_string
new_command-IsServable = record {
  key = record { text = tt; fits = omega arith };
  value = empty-Fits;
  lifetime = λ e. cc;
}

interpret_set-IsServable :
    (arg : Bytes) (tokens : List Bytes) → All IsText tokens → IsServable (interpret_set arg tokens)
unfolding interpret_set get_key_param get_value_param
interpret_set-IsServable arg (key ∷ value ∷ rest) (tk, (tv, _)) = record {
  key = rw (read_key (put_value new_command.params value) key tk) (IsKey-cut key tk);
  value = rw (read_value new_command.params key value tv) (Fits-cut value tv);
  lifetime = λ _. minimum_ttl-le (atoi arg);
}
interpret_set-IsServable arg [] t = new_command-IsServable
interpret_set-IsServable arg (key ∷ []) t = new_command-IsServable

-- Whatever the tokens are, the parameters fit the fields of a record.
pub interpret-IsServable : (tokens : List Bytes) → All IsText tokens → IsServable (interpret tokens)
unfolding interpret new_command
interpret-IsServable [] t = new_command-IsServable
interpret-IsServable (op ∷ []) t = new_command-IsServable
interpret-IsServable (op ∷ arg ∷ rest) (_, (ta, tr)) =
    elim (Bool-cases (text_eq op (codes "get"))) [
      | inl e ↦ rw (interpret, e) (key_only-IsServable cmd_get arg ta (λ h. cc))
      | inr e ↦ elim (Bool-cases (text_eq op (codes "set"))) [
        | inl f ↦ rw (interpret, e, f) (interpret_set-IsServable arg rest tr)
        | inr f ↦ elim (Bool-cases (text_eq op (codes "del"))) [
          | inl g ↦ rw (interpret, e, f, g) (key_only-IsServable cmd_del arg ta (λ h. cc))
          | inr g ↦ rw (interpret, e, f, g) (key_only-IsServable cmd_none [] tt (λ h. cc))
        ]
      ]
    ]
