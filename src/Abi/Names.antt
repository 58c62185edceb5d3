-- ===== src/Abi/Names.antt =====
-- Solidity's names of types and methods: src/target/std-evm-abi/src/types.rs, and the selector of a
-- signature, src/target/std-evm-abi/src/selector.rs.
pub mod Camel
use rustevm.Base.{
  ℕ, zero, suc, ◌+◌, ◌≡◌, refl, Bool, true, false, not, List, [], ◌∷◌, ◌++◌, ◌==◌, if◌then◌else◌,
  take, drop, ltb, all, Option, none, some, arith, Bool-cases, inl, inr,
}
use mathlib.Core.List.{append-nil}
use rustevm.Isa.{Str, bytes, str_eq}

-- `solidity_type_name`
unfoldable pub solidity_type_name : Str → Str
solidity_type_name ident =
    if str_eq ident (bytes "u8")
    then bytes "uint8"
    else if str_eq ident (bytes "u16")
    then bytes "uint16"
    else if str_eq ident (bytes "u32")
    then bytes "uint32"
    else if str_eq ident (bytes "u64")
    then bytes "uint64"
    else if str_eq ident (bytes "u128")
    then bytes "uint128"
    else if str_eq ident (bytes "i8")
    then bytes "int8"
    else if str_eq ident (bytes "i16")
    then bytes "int16"
    else if str_eq ident (bytes "i32")
    then bytes "int32"
    else if str_eq ident (bytes "i64")
    then bytes "int64"
    else if str_eq ident (bytes "i128")
    then bytes "int128"
    else if str_eq ident (bytes "bool")
    then bytes "bool"
    else if str_eq ident (bytes "U256")
    then bytes "uint256"
    else if str_eq ident (bytes "Address")
    then bytes "address"
    else if str_eq ident (bytes "Bytes32")
    then bytes "bytes32"
    else bytes "bytes32"

abbrev pub underscore : ℕ
underscore = b'_'

-- `ident.split('_')`: a text without the separator is one segment, as is the empty text.
cons_to_first : ℕ → List Str → List Str
cons_to_first c [] = (c ∷ []) ∷ []
cons_to_first c (segment ∷ segments) = (c ∷ segment) ∷ segments

unfoldable pub split : ℕ → Str → List Str
unfolding cons_to_first
split separator [] = [] ∷ []
split separator (c ∷ cs) =
    let rest = split separator cs in if c == separator then [] ∷ rest else cons_to_first c rest

-- `.filter(|s| !s.is_empty())`
unfoldable pub nonempty : List Str → List Str
nonempty [] = []
nonempty ([] ∷ segments) = nonempty segments
nonempty ((c ∷ cs) ∷ segments) = (c ∷ cs) ∷ nonempty segments

-- The number of bytes of a `char` in UTF-8, by the first of them.
unfoldable pub char_size : ℕ → ℕ
char_size b = if ltb b 0x80 then 1 else if ltb b 0xe0 then 2 else if ltb b 0xf0 then 3 else 4

-- `upper` is `char::to_uppercase`, on the bytes of a `char`.
module _ (upper : Str → Str) where
  unfoldable pub capitalised : Str → Str
  unfolding char_size
  capitalised [] = []
  capitalised (b ∷ bs) = upper (take (char_size b) (b ∷ bs)) ++ drop (char_size b) (b ∷ bs)

  pub capitalised_all : List Str → Str
  capitalised_all [] = []
  capitalised_all (segment ∷ segments) = capitalised segment ++ capitalised_all segments

  unfoldable pub join : List Str → Str
  unfolding capitalised_all
  join [] = []
  join (segment ∷ segments) = segment ++ capitalised_all segments

  unfoldable pub camel_case : Str → Str
  camel_case ident = join (nonempty (split underscore ident))

-- `keccak256` is the hash of the crate `tiny_keccak`.
unfoldable pub selector : (List ℕ → List ℕ) → Str → List ℕ
selector keccak256 sig = take 4 (keccak256 sig)

-- A text without an underscore.
abbrev pub Plain : Str → Type 0
Plain cs = all (λ c. not (c == underscore)) cs ≡ true
