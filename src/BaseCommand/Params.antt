-- ===== src/BaseCommand/Params.antt =====
-- What the parameter block of a command of server 1.0 holds.
use rest_technosphere_cpp_se.Base.{
  ◌+◌, ◌<◌, ◌≡◌, refl, ◌∙◌, List, ◌∷◌, Bytes, codes, text_eq, length, take, length-take, All-take,
  IsText, arith,
}
use rest_technosphere_cpp_se.Memory.{Mem, strcpy, c_string}
use rest_technosphere_cpp_se.Memory.Laws.{c_string-strcpy, c_string_frame, strcpy_above, strcpy_end}
use rest_technosphere_cpp_se.Records.{record_size}
use rest_technosphere_cpp_se.Command.{cmd_get, cmd_set, cmd_del, put_key}
use rest_technosphere_cpp_se.Command.Params.{strncpy-strcpy, put_key_lem, read_key}
use rest_technosphere_cpp_se.BaseCommand.{new_command, put_value, interpret_set, interpret}

put_value_lem : (m : Mem) (value : Bytes) → put_value m value ≡ strcpy m 64 (take 959 value)
unfolding put_value
put_value_lem m value = strncpy-strcpy m 64 (take 959 value)

-- the key's bytes stay below the value's
read_value :
    (m : Mem) (key value : Bytes)
    → IsText value
    → c_string 960 (put_key (put_value m value) key) 64 ≡ take 959 value
read_value m key value t =
    rw (put_key_lem (put_value m value) key, put_value_lem m value)
      (c_string_frame 960 (strcpy m 64 (take 959 value))
          (strcpy (strcpy m 64 (take 959 value)) 0 (take 62 key)) 64 (length (take 959 value))
          (strcpy_end m 64 (take 959 value)) (omega (arith, length-take 959 value))
          (λ s l.
            strcpy_above (strcpy m 64 (take 959 value)) 0 (take 62 key) (64 + s)
              (omega (arith, length-take 62 key)))
        ∙ c_string-strcpy 960 m 64 (take 959 value) (All-take (λ c. 0 < c) 959 value t)
            (omega (arith, length-take 959 value)))

-- The complete command lines of server 1.0 carry their operation, the key cut to 62 bytes and the
-- value cut to 959.
interpret_base_words :
    (key value : Bytes) (rest : List Bytes)
    → IsText key
    → IsText value
    → let get = interpret (codes "get" ∷ key ∷ rest) in
      let del = interpret (codes "del" ∷ key ∷ rest) in
      let set = interpret (codes "set" ∷ key ∷ value ∷ rest) in
      (get.operation ≡ cmd_get)
      × (c_string record_size get.params_data 0 ≡ take 62 key)
      × (del.operation ≡ cmd_del)
      × (c_string record_size del.params_data 0 ≡ take 62 key)
      × (set.operation ≡ cmd_set)
      × (c_string record_size set.params_data 0 ≡ take 62 key)
      × (c_string 960 set.params_data 64 ≡ take 959 value)
unfolding interpret interpret_set text_eq
interpret_base_words key value rest tk tv = (
  refl,
  read_key new_command.params_data key tk,
  refl,
  read_key new_command.params_data key tk,
  refl,
  read_key (put_value new_command.params_data value) key tk,
  read_value new_command.params_data key value tv,
)
