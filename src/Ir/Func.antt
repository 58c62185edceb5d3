-- ===== src/Ir/Func.antt =====
-- A function's three arenas: src/backend/evm-codegen/src/ir/func.rs, with the handles of entity.rs.
-- Where the source indexes a `Vec`, the result is an `Option`, and `none` is the panic.
pub mod Kept
pub mod Grows
pub mod Params
pub mod Fresh
use rustevm.Base.{
  ℕ, zero, suc, ◌+◌, ◌%◌, ◌^◌, Bool, Option, none, some, List, [], ◌∷◌, ◌++◌, ◌>>=◌, ltb, length,
  get_elem?, set,
}
use rustevm.Ir.Inst.{Value, Inst, Block, InstData, Terminator}
use rustevm.Ir.Types.{Ty, Signature}
use rustevm.Isa.{Str}

-- `Name::new(index)`: the position becomes a `u32`.
unfoldable pub handle : ℕ → ℕ
handle index = index % 2 ^ 32

-- `index as u16`
unfoldable pub narrow_index : ℕ → ℕ
narrow_index index = index % 2 ^ 16

pub data ValueDef : Type 0 where
  result : (inst : Inst) (index : ℕ) → ValueDef
  param : (block : Block) (index : ℕ) → ValueDef

pub record ValueData : Type 0 where
  pub ty : Ty
  pub def : ValueDef

pub data BlockKind : Type 0 where
  normal panic : BlockKind

pub record BlockData : Type 0 where
  pub params : List Value
  pub insts : List Inst
  pub term : Option Terminator
  pub kind : BlockKind

abbrev pub default_block : BlockData
default_block = record { params = []; insts = []; term = none; kind = BlockKind.normal }

pub record Function : Type 0 where
  pub name : Str
  pub sig : Signature
  pub entry : Block
  pub insts : List InstData
  pub values : List ValueData
  pub blocks : List BlockData

unfoldable pub create_block : Function → Function × Block
unfolding handle
create_block f = (record f { blocks = f.blocks ++ (default_block ∷ []) }, handle (length f.blocks))

unfoldable pub push_value : Function → ValueData → Function × Value
unfolding handle
push_value f d = (record f { values = f.values ++ (d ∷ []) }, handle (length f.values))

-- `&mut self.blocks[block.index()]`
unfoldable pub update_block : Function → Block → (BlockData → BlockData) → Option Function
update_block f block change = do
  old ← get_elem? f.blocks block
  some (record f { blocks = set f.blocks block (change old) })

-- A write through `inst_mut`.
unfoldable pub update_inst : Function → Inst → (InstData → InstData) → Option Function
update_inst f inst change = do
  old ← get_elem? f.insts inst
  some (record f { insts = set f.insts inst (change old) })

unfoldable pub add_param : Value → BlockData → BlockData
add_param value b = record b { params = b.params ++ (value ∷ []) }

unfoldable pub add_inst : Inst → BlockData → BlockData
add_inst inst b = record b { insts = b.insts ++ (inst ∷ []) }

unfoldable pub add_result : Value → InstData → InstData
add_result value d = record d { results = d.results ++ (value ∷ []) }

unfoldable pub append_param : Function → Block → Ty → Option (Function × Value)
unfolding push_value update_block add_param narrow_index handle
append_param f block ty = do
  old ← get_elem? f.blocks block
  let (f', value) =
      push_value f
        (record { ty = ty; def = ValueDef.param block (narrow_index (length old.params)) })
  f'' ← update_block f' block (add_param value)
  some (f'', value)

-- The loop over `result_types.iter().enumerate()`.
unfoldable pub push_results : Function → Inst → ℕ → List Ty → Option Function
unfolding push_value update_inst add_result narrow_index handle
push_results f inst index [] = some f
push_results f inst index (ty ∷ tys) = do
  let (f', value) =
      push_value f (record { ty = ty; def = ValueDef.result inst (narrow_index index) })
  f'' ← update_inst f' inst (add_result value)
  push_results f'' inst (index + 1) tys

unfoldable pub append_inst : Function → Block → InstData → List Ty → Option (Function × Inst)
unfolding push_results update_block add_inst handle
append_inst f block d result_types = do
  let inst = handle (length f.insts)
  f' ←
      push_results (record f { insts = f.insts ++ (record d { results = [] } ∷ []) }) inst 0
        result_types
  f'' ← update_block f' block (add_inst inst)
  some (f'', inst)

unfoldable pub end_with : Terminator → BlockData → BlockData
end_with term b = record b { term = some term }

unfoldable pub with_kind : BlockKind → BlockData → BlockData
with_kind kind b = record b { kind = kind }

unfoldable pub with_note : Str → InstData → InstData
with_note note d = record d { note = some note }

unfoldable pub set_terminator : Function → Block → Terminator → Option Function
unfolding update_block end_with
set_terminator f block term = update_block f block (end_with term)

unfoldable pub set_block_kind : Function → Block → BlockKind → Option Function
unfolding update_block with_kind
set_block_kind f block kind = update_block f block (with_kind kind)

unfoldable pub set_note : Function → Inst → Str → Option Function
unfolding update_inst with_note
set_note f inst note = update_inst f inst (with_note note)

-- The loop over the signature's parameters.
unfoldable pub append_params : Function → Block → List Ty → Option Function
unfolding append_param
append_params f block [] = some f
append_params f block (ty ∷ tys) = do
  (f', value) ← append_param f block ty
  append_params f' block tys

unfoldable pub new : Str → Signature → Option Function
unfolding append_params create_block
new name sig =
    let (f, entry) =
      create_block
        (record { name = name; sig = sig; entry = 0; insts = []; values = []; blocks = [] }) in
    append_params f entry sig.params

unfoldable pub inst : Function → Inst → Option InstData
inst f i = get_elem? f.insts i

unfoldable pub results : Function → Inst → Option (List Value)
results f inst = do d ← get_elem? f.insts inst; some d.results

unfoldable pub args : Function → Inst → Option (List Value)
args f inst = do d ← get_elem? f.insts inst; some d.args

unfoldable pub value : Function → Value → Option ValueData
value f v = get_elem? f.values v

unfoldable pub value_type : Function → Value → Option Ty
value_type f value = do d ← get_elem? f.values value; some d.ty

unfoldable pub value_def : Function → Value → Option ValueDef
value_def f value = do d ← get_elem? f.values value; some d.def

unfoldable pub block : Function → Block → Option BlockData
block f b = get_elem? f.blocks b

unfoldable pub block_params : Function → Block → Option (List Value)
block_params f block = do b ← get_elem? f.blocks block; some b.params

unfoldable pub terminator : Function → Block → Option (Option Terminator)
terminator f block = do b ← get_elem? f.blocks block; some b.term

unfoldable pub num_values : Function → ℕ
num_values f = length f.values

unfoldable pub num_blocks : Function → ℕ
num_blocks f = length f.blocks

unfoldable pub num_insts : Function → ℕ
num_insts f = length f.insts

-- `(start..start + count).map(Block::new)`, which the handles of a module share.
unfoldable pub handles_from : ℕ → ℕ → List ℕ
unfolding handle
handles_from start zero = []
handles_from start (suc count) = handle start ∷ handles_from (start + 1) count

unfoldable pub blocks : Function → List Block
unfolding handles_from
blocks f = handles_from 0 (length f.blocks)

unfoldable pub has_value : Function → Value → Bool
has_value f value = ltb value (length f.values)

unfoldable pub has_block : Function → Block → Bool
has_block f block = ltb block (length f.blocks)
