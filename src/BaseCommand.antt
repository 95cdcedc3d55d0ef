-- ===== src/BaseCommand.antt =====
-- The client's command of server 1.0, p5/master/src/UserCommand.{h,cpp} (p5/worker/src has the same
-- code over a shared pointer): `set key value` without a lifetime. The wait for a line, its tokens and
-- the copy of the key have the same code as in server 2.0 and are those of module Command.
pub mod Params
use rest_technosphere_cpp_se.Base.{
  ℕ, ◌+◌, ◌-◌, Bool, true, false, Option, none, some, List, [], ◌∷◌, Bytes, codes, text_eq, length,
  take, if◌then◌else◌,
}
use rest_technosphere_cpp_se.Memory.{Mem}
use rest_technosphere_cpp_se.Records.{key_size, record_size}
use rest_technosphere_cpp_se.Command.{
  Operation, cmd_get, cmd_set, cmd_del, cmd_none, parse, until_zero, wait_line, max_tries, strncpy,
  put_key,
}

-- The operation and the block of parameters.
pub record UserCommand : Type 0 where
  pub operation : Operation
  pub params_data : Mem

-- The constructor: the block is zeroed.
unfoldable pub new_command : UserCommand
new_command = record { operation = cmd_none; params_data = λ a. 0 }

-- the value, cut to RECORD_SIZE - KEY_SIZE - 2 bytes, behind the key
unfoldable pub put_value : Mem → Bytes → Mem
unfolding strncpy
put_value m value =
    let cut = take (record_size - key_size - 2) value in
    strncpy m (key_size + 1) cut (length cut + 1)

-- the branch of `set`, behind the command's word and the key
unfoldable pub interpret_set : Bytes → List Bytes → UserCommand
unfolding new_command put_key put_value
interpret_set key [] = new_command
interpret_set key (value ∷ rest) = record {
  operation = cmd_set;
  params_data = put_key (put_value new_command.params_data value) key;
}

-- what `read_from_buffer` does with the tokens of a line; the key is copied for an unknown word too
unfoldable pub interpret : List Bytes → UserCommand
unfolding interpret_set new_command put_key
interpret (op ∷ key ∷ rest) =
    let keyed = put_key new_command.params_data key in
    if text_eq op (codes "get")
    then record { operation = cmd_get; params_data = keyed }
    else if text_eq op (codes "set")
    then interpret_set key rest
    else if text_eq op (codes "del")
    then record { operation = cmd_del; params_data = keyed }
    else record { operation = cmd_none; params_data = keyed }
interpret _ = new_command

unfoldable pub read_from_buffer : (ℕ → Option Bytes) → UserCommand
unfolding wait_line interpret parse until_zero new_command
read_from_buffer readln = elim (wait_line readln max_tries 0) [
  | none ↦ new_command
  | some line ↦ interpret (parse (until_zero line))
]
