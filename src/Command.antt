-- ===== src/Command.antt =====
-- The client's command of server 2.0, p6/src/UserCommand.{h,cpp}. `evbuffer_readln` is libevent's: it
-- is the argument `readln`, the line that its n-th call gives, if any.
pub mod Tokens
pub mod Params
use rest_technosphere_cpp_se.Base.{
  ℕ, zero, suc, ◌+◌, ◌-◌, ◌<◌, ◌%◌, ◌^◌, Bool, true, false, ◌||◌, Option, none, some, List, [], ◌∷◌,
  ◌++◌, Bytes, codes, text_eq, isspace, atoi, ℤ, pos, negsuc, length, take, ltb, ◌==◌,
  if◌then◌else◌,
}
use rest_technosphere_cpp_se.Memory.{Mem, write, c_string, int_lt}
use rest_technosphere_cpp_se.Records.{key_size, record_size}

pub data Operation : Type 0 where
  cmd_get cmd_set cmd_del cmd_none cmd_term : Operation

-- `params_data` is a block of RECORD_SIZE bytes; `tokens` is empty again once a command is read, and
-- is no field.
pub record UserCommand : Type 0 where
  pub operation : Operation
  pub ttl : ℕ
  pub params : Mem

-- The constructor: the block is zeroed.
unfoldable pub new_command : UserCommand
new_command = record { operation = cmd_none; ttl = 0; params = λ a. 0 }

-- The local variables of `parse`, and the tokens so far.
pub record Lexer : Type 0 where
  pub std_buffer : Bytes
  pub quoted_arg_buffer : Bytes
  pub quotes_on : Bool
  pub tokens : List Bytes

-- `collect_token_from_buffer`; the caller clears the buffer
unfoldable pub collect_token : List Bytes → Bytes → List Bytes
collect_token tokens [] = tokens
collect_token tokens (c ∷ s) = tokens ++ ((c ∷ s) ∷ [])

abbrev pub is_quote : ℕ → Bool
is_quote c = c == 39 || c == 34

-- one round of the loop over the characters
unfoldable pub lex_step : Lexer → ℕ → Lexer
unfolding collect_token isspace
lex_step l c =
    if l.quotes_on
    then (if is_quote c
        then record l {
          tokens = collect_token l.tokens l.quoted_arg_buffer;
          quoted_arg_buffer = [];
          quotes_on = false;
        }
        else record l { quoted_arg_buffer = l.quoted_arg_buffer ++ (c ∷ []) })
    else if isspace c
    then record l { tokens = collect_token l.tokens l.std_buffer; std_buffer = [] }
    else if is_quote c
    then record l {
      tokens = collect_token l.tokens l.std_buffer;
      std_buffer = [];
      quotes_on = true;
    }
    else record l { std_buffer = l.std_buffer ++ (c ∷ []) }

unfoldable pub lex : Lexer → Bytes → Lexer
unfolding lex_step
lex l [] = l
lex l (c ∷ cs) = lex (lex_step l c) cs

abbrev pub fresh : Lexer
fresh = record { std_buffer = []; quoted_arg_buffer = []; quotes_on = false; tokens = [] }

unfoldable pub parse : Bytes → List Bytes
unfolding lex collect_token
parse line = let l = lex fresh line in collect_token l.tokens l.std_buffer

-- `strncpy(dst, s, n)`
unfoldable pub strncpy : Mem → ℕ → Bytes → ℕ → Mem
strncpy m dst s zero = m
strncpy m dst [] (suc n) = strncpy (write m dst 0) (suc dst) [] n
strncpy m dst (c ∷ s) (suc n) = strncpy (write m dst c) (suc dst) s n

-- the key, cut to its field, at the start of the block
unfoldable pub put_key : Mem → Bytes → Mem
unfolding strncpy
put_key m key = let cut = take (key_size - 1) key in strncpy m 0 cut (length cut + 1)

-- the value, cut to RECORD_SIZE - KEY_SIZE - 6 bytes, behind the key
unfoldable pub put_value : Mem → Bytes → Mem
unfolding strncpy
put_value m value =
    let cut = take (record_size - key_size - 6) value in
    strncpy m (key_size + 1) cut (length cut + 1)

-- the bit pattern of an `int`, of which only 32 bits are kept
unfoldable pub int_bits : ℤ → ℕ
int_bits (pos n) = n % 2 ^ 32
int_bits (negsuc n) = 2 ^ 32 - 1 - n % 2 ^ 32

-- an `int` below ten becomes ten
unfoldable pub minimum_ttl : ℤ → ℕ
unfolding int_bits
minimum_ttl z = let ttl = int_bits z in if int_lt ttl 10 then 10 else ttl

-- the branch of `set`, behind the command's word and the lifetime
unfoldable pub interpret_set : Bytes → List Bytes → UserCommand
unfolding new_command put_key put_value minimum_ttl
interpret_set ttl_str (key ∷ value ∷ rest) = record {
  operation = cmd_set;
  ttl = minimum_ttl (atoi ttl_str);
  params = put_key (put_value new_command.params value) key;
}
interpret_set ttl_str _ = new_command

-- what `read_from_buffer` does with the tokens of a line
unfoldable pub interpret : List Bytes → UserCommand
unfolding interpret_set new_command put_key
interpret (op ∷ arg ∷ rest) =
    if text_eq op (codes "get")
    then record new_command { operation = cmd_get; params = put_key new_command.params arg }
    else if text_eq op (codes "set")
    then interpret_set arg rest
    else if text_eq op (codes "del")
    then record new_command { operation = cmd_del; params = put_key new_command.params arg }
    else record new_command { params = put_key new_command.params [] }
interpret _ = new_command

-- the C string in a line that may hold a zero byte
unfoldable pub until_zero : Bytes → Bytes
until_zero [] = []
until_zero (c ∷ s) = let rest = until_zero s in if c == 0 then [] else c ∷ rest

-- the loop that waits for a line, with `tries` tries left
unfoldable pub wait_line : (ℕ → Option Bytes) → ℕ → ℕ → Option Bytes
wait_line readln zero n = none
wait_line readln (suc tries) n = elim (readln n) [
  | some line ↦ some line
  | none ↦ wait_line readln tries (suc n)
]

abbrev pub max_tries : ℕ
max_tries = 1000

unfoldable pub read_from_buffer : (ℕ → Option Bytes) → UserCommand
unfolding wait_line interpret parse until_zero new_command
read_from_buffer readln = elim (wait_line readln max_tries 0) [
  | none ↦ new_command
  | some line ↦ interpret (parse (until_zero line))
]

-- `params_data` and `params_data + KEY_SIZE + 1`, read as C strings of the block
unfoldable pub get_key_param : UserCommand → Bytes
get_key_param cmd = c_string record_size cmd.params 0

unfoldable pub get_value_param : UserCommand → Bytes
get_value_param cmd = c_string (record_size - (key_size + 1)) cmd.params (key_size + 1)
