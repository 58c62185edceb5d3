-- ===== src/Abi/Value.antt =====
-- The types that have an encoding: the implementations of `AbiEncode`, `AbiDecode`, `AbiDecodeArgs`
-- and `AbiEncodeOutput` in src/target/std-evm-abi/src/codec.rs, and those of `Address` in
-- src/target/std-evm/src/address.rs.
pub mod Ints
pub mod RoundTrip
pub mod Bounds
use rustevm.Base.{
  ℕ, ◌+◌, ◌-◌, ◌*◌, ◌/◌, ◌^◌, ◌<◌, ◌≡◌, Bool, true, false, not, List, [], ◌∷◌, ◌++◌, ltb, ◌==◌,
  if◌then◌else◌, length, drop, replicate, any, ok, err,
}
use rustevm.Base.Utf8.{is_utf8}
use rustevm.Abi.Word.{
  Word, U256, IsArray, ℤ, pos, negsuc, word_from_u128, word_from_i128, uint_from_be_bytes,
  int_from_be_bytes,
}
use rustevm.Base.Results.{◌>>=◌}
use rustevm.Abi.Codec.{Decoded, invalid_utf8, read_word, decode_bytes, encode_bytes}
use rustevm.Abi.Tuple.{Component, static, dynamic, encode_tuple}

-- The widths of the integer types: `u8` to `u128`, `i8` to `i128`.
pub data IntWidth : Type 0 where
  w8 w16 w32 w64 w128 : IntWidth

-- `core::mem::size_of`
abbrev pub byte_count : IntWidth → ℕ
byte_count w8 = 1
byte_count w16 = 2
byte_count w32 = 4
byte_count w64 = 8
byte_count w128 = 16

pub data AbiType : Type 0 where
  uint : IntWidth → AbiType
  int : IntWidth → AbiType
  bool word u256 address bytes string : AbiType

-- The values of a type; a string is its bytes.
abbrev pub Value : AbiType → Type 0
Value (uint w) = ℕ
Value (int w) = ℤ
Value bool = Bool
Value word = Word
Value u256 = U256
Value address = List ℕ
Value bytes = List ℕ
Value string = List ℕ

-- `*self as u128`
unfoldable pub bool_to_u128 : Bool → ℕ
bool_to_u128 true = 1
bool_to_u128 false = 0

-- `to_component` and `decode` of `Address`.
unfoldable pub address_component : List ℕ → Component
address_component v = static (replicate 12 0 ++ v)

unfoldable pub decode_address : ℕ → List ℕ → ℕ → Decoded (List ℕ)
decode_address n input offset = do found ← read_word n input offset; ok (drop 12 found)

unfoldable pub to_component : (t : AbiType) → Value t → Component
unfolding bool_to_u128 address_component
to_component (uint w) v = static (word_from_u128 v)
to_component (int w) v = static (word_from_i128 v)
to_component bool v = static (word_from_u128 (bool_to_u128 v))
to_component word v = static v
to_component u256 v = static v
to_component address v = address_component v
to_component bytes v = dynamic (encode_bytes v)
to_component string v = dynamic (encode_bytes v)

-- `String::from_utf8(bytes).map_err(|_| DecodeError::InvalidUtf8)`
unfoldable pub from_utf8 : List ℕ → Decoded (List ℕ)
from_utf8 bs = if is_utf8 bs then ok bs else err invalid_utf8

unfoldable pub decode : ℕ → (t : AbiType) → List ℕ → ℕ → Decoded (Value t)
unfolding from_utf8 decode_address
decode n (uint w) input offset = do
  found ← read_word n input offset
  ok (uint_from_be_bytes (drop (32 - byte_count w) found))
decode n (int w) input offset = do
  found ← read_word n input offset
  ok (int_from_be_bytes (byte_count w) (drop (32 - byte_count w) found))
decode n bool input offset = do found ← read_word n input offset; ok (any (λ b. not (b == 0)) found)
decode n word input offset = read_word n input offset
decode n u256 input offset = read_word n input offset
decode n address input offset = decode_address n input offset
decode n bytes input offset = decode_bytes n input offset
decode n string input offset = do found ← decode_bytes n input offset; from_utf8 found

-- A tuple of values, and the components that the macros build from it.
abbrev pub Values : List AbiType → Type 0
Values [] = Unit {0}
Values (t ∷ ts) = Value t × Values ts

unfoldable pub components : (ts : List AbiType) → Values ts → List Component
components [] vs = []
components (t ∷ ts) (v, vs) = to_component t v ∷ components ts vs

-- `decode_args`, from the argument `index` on.
unfoldable pub decode_args_from : ℕ → ℕ → (ts : List AbiType) → List ℕ → Decoded (Values ts)
decode_args_from n index [] calldata = ok tt
decode_args_from n index (t ∷ ts) calldata = do
  v ← decode n t calldata (32 * index)
  vs ← decode_args_from n (index + 1) ts calldata
  ok (v, vs)

unfoldable pub decode_args : ℕ → (ts : List AbiType) → List ℕ → Decoded (Values ts)
unfolding decode_args_from
decode_args n ts calldata = decode_args_from n 0 ts calldata

-- What a method returns: `()`, or a value.
pub data Output : Type 0 where
  no_value : Output
  value : (t : AbiType) → Value t → Output

unfoldable pub encode_output : Output → List ℕ
encode_output no_value = []
encode_output (value t v) = encode_tuple (to_component t v ∷ [])

-- A value that its Rust type holds.
abbrev pub Fits : (t : AbiType) → Value t → Type 0
Fits (uint w) v = v < 256 ^ byte_count w
Fits (int w) (pos k) = k < 256 ^ byte_count w / 2
Fits (int w) (negsuc k) = k < 256 ^ byte_count w / 2
Fits bool v = Unit {0}
Fits word v = IsArray 32 v
Fits u256 v = IsArray 32 v
Fits address v = IsArray 20 v
Fits bytes v = Unit {0}
Fits string v = is_utf8 v ≡ true

abbrev pub AllFit : (ts : List AbiType) → Values ts → Type 0
AllFit [] vs = Unit {0}
AllFit (t ∷ ts) (v, vs) = Fits t v × AllFit ts vs
