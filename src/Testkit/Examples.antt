-- ===== src/Testkit/Examples.antt =====
-- Runs and instances for the models of src/tooling/evm-testkit.
use rustevm.Base.{
  ℕ, ◌-◌, ◌^◌, ◌≤◌, ◌<◌, ◌≡◌, refl, true, List, [], ◌∷◌, ◌++◌, some, ok, length, replicate, arith,
}
use rustevm.Base.Bytes.{be_value, to_be_bytes}
use rustevm.Base.Utf8.{is_utf8}
use rustevm.Isa.{bytes, shanghai}
use rustevm.Abi.Word.{word_from_u128}
use rustevm.Abi.Codec.{word_from_usize, encode_bytes, padding}
use rustevm.Abi.Tuple.{encode_tuple, encode_from, head_size, head_length}
use rustevm.Abi.Value.{to_component}
use rustevm.Abi.Revert.{encode_error}
use rustevm.Testkit.Outcome.{panic, present, error_string, revert_reason}
use rustevm.Testkit.Outcome.Reason.{revert_reason-encode_error, revert_reason-panic}
use rustevm.Testkit.Link.{assemble_prologue, deployer}
use rustevm.Testkit.Link.Converges.{deployer-assemble_prologue}

abbrev reason : List ℕ
reason = bytes "reentrant call"

reason_valid : is_utf8 reason ≡ true
unfolding is_utf8
reason_valid = refl

reason_short : length (encode_error reason) < 2 ^ 64
unfolding encode_error encode_tuple encode_from head_size head_length to_component word_from_usize
    word_from_u128 to_be_bytes encode_bytes padding
reason_short = omega arith

revert_reason-encode_error_example : revert_reason (encode_error reason) ≡ present reason
revert_reason-encode_error_example = revert_reason-encode_error reason reason_valid reason_short

-- The offset word 2^64 - 1.
abbrev far : List ℕ
far = replicate 24 0 ++ replicate 8 255

far_large : 2 ^ 64 - 32 ≤ be_value far
unfolding be_value
far_large = omega arith

far_small : be_value far < 2 ^ 64
unfolding be_value
far_small = omega arith

revert_reason-panic_example : revert_reason (error_string ++ (far ++ [])) ≡ panic
revert_reason-panic_example = revert_reason-panic far [] refl far_large far_small

abbrev runtime : List ℕ
runtime = 0x60 ∷ 0 ∷ 0xf3 ∷ []

deployer-assemble_prologue_example :
    (prologue : List ℕ) × (deployer 3 runtime shanghai ≡ some (ok (prologue ++ runtime)))
    × (assemble_prologue (length runtime) (length prologue) shanghai ≡ some (ok prologue))
deployer-assemble_prologue_example = deployer-assemble_prologue 0 runtime shanghai
