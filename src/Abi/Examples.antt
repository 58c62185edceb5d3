-- ===== src/Abi/Examples.antt =====
-- Runs and instances for the models of src/target/std-evm-abi.
use rustevm.Base.{
  ◌+◌, ◌^◌, ◌<◌, ◌≡◌, refl, true, List, [], ◌∷◌, ◌++◌, if◌then◌else◌, leb, ◌-◌, ◌&&◌, length, ok,
  err, arith,
}
use rustevm.Base.Bytes.{be_value, to_be_bytes}
use rustevm.Base.Utf8.{is_utf8}
use rustevm.Isa.{Str, bytes}
use rustevm.Abi.Word.{Word, negsuc, word_from_u128, word_from_i128, i128_bits}
use rustevm.Abi.Codec.{
  truncated, word_from_usize, padding, encode_bytes, read_word, decode_bytes, read_usize,
}
use rustevm.Abi.Codec.Accepts.{decode_bytes-ok}
use rustevm.Abi.Codec.Stands.{Stands}
use rustevm.Abi.Tuple.{head_length, head_size, encode_from, encode_tuple}
use rustevm.Abi.Value.{
  AbiType, uint, int, bool, string, Values, w8, w16, bool_to_u128, to_component, components, decode,
  decode_args,
}
use rustevm.Abi.Value.RoundTrip.{decode_args-encode_tuple}
use rustevm.Abi.Names.{split, nonempty, capitalised, char_size, join, camel_case}

abbrev types : List AbiType
types = uint w16 ∷ string ∷ int w8 ∷ bool ∷ []

abbrev values : Values types
values = (300, (bytes "hi", (negsuc 4, (true, tt))))

types_short : length (encode_tuple (components types values) ++ []) < 256 ^ 4
unfolding encode_tuple components to_component head_size head_length encode_from word_from_usize
    word_from_u128 word_from_i128 i128_bits bool_to_u128 to_be_bytes encode_bytes padding
types_short = omega arith

valid_text : is_utf8 (bytes "hi") ≡ true
unfolding is_utf8
valid_text = refl

decode_args-encode_tuple_example :
    decode_args 4 types (encode_tuple (components types values) ++ []) ≡ ok values
decode_args-encode_tuple_example =
    decode_args-encode_tuple 4 types values [] (omega arith)
      (omega arith, (valid_text, (omega arith, (tt, tt)))) types_short

-- The head slot of the string of `types`.
string_found : decode_bytes 4 (encode_tuple (components types values)) 32 ≡ ok (bytes "hi")
unfolding encode_tuple components to_component head_size head_length encode_from word_from_usize
    word_from_u128 word_from_i128 i128_bits bool_to_u128 to_be_bytes encode_bytes padding
    decode_bytes read_usize read_word be_value
string_found = refl

decode_bytes-ok_example :
    (slot : Word) × (count : Word) × Stands (encode_tuple (components types values)) 32 slot
    × (length slot ≡ 32)
    × Stands (encode_tuple (components types values)) (be_value slot) count
    × (length count ≡ 32)
    × (be_value count ≡ length (bytes "hi"))
    × Stands (encode_tuple (components types values)) (be_value slot + 32) (bytes "hi")
decode_bytes-ok_example = decode_bytes-ok 4 (encode_tuple (components types values)) 32 string_found

-- Truncated calldata is refused.
short_calldata : decode_args 4 types (bytes "abc") ≡ err truncated
unfolding decode_args decode read_word
short_calldata = refl

-- `char::to_uppercase` on ASCII.
abbrev ascii_upper : Str → Str
ascii_upper [] = []
ascii_upper (c ∷ cs) = (if leb b'a' c && leb c b'z' then c - 32 else c) ∷ cs

balance_of : camel_case ascii_upper (bytes "_balance__of") ≡ bytes "balanceOf"
unfolding camel_case join nonempty capitalised char_size split
balance_of = refl
