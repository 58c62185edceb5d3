-- ===== src/Ir/Text/Flags.antt =====
-- A reader of the effects that effect.rs writes.
use rustevm.Base.{
  ℕ, ◌<◌, ◌≡◌, refl, Bool, true, List, [], ◌∷◌, ◌==◌, ==_iff, if◌then◌else◌, arith, holds_from,
  holds_from_sound,
}
use rustevm.Isa.{Str, bytes, str_eq}
use rustevm.Asm.Text.Words.{words}
use rustevm.Ir.Effect.{Effects, union, contains, is_pure}
use rustevm.Ir.Text.{effects_text, named_effects}

-- The effect of a name, and none of another word.
flag : Str → List (Effects × Str) → Effects
flag w [] = 0
flag w ((effect, name) ∷ rest) = let later = flag w rest in if str_eq w name then effect else later

-- What each name stands for, by the bit of the flag.
abbrev legend : List (Effects × Str)
legend =
    (0x1, bytes "rmem")
    ∷ (0x2, bytes "wmem")
    ∷ (0x4, bytes "rsto")
    ∷ (0x8, bytes "wsto")
    ∷ (0x10, bytes "rtra")
    ∷ (0x20, bytes "wtra")
    ∷ (0x40, bytes "rctx")
    ∷ (0x80, bytes "log")
    ∷ (0x100, bytes "extern")
    ∷ []

flags : List Str → Effects
unfolding flag union
flags [] = 0
flags (w ∷ ws) = union (flag w legend) (flags ws)

-- The effects that a text with bars names.
pub read_effects : Str → Effects
unfolding flags
read_effects text = flags (words b'|' text)

reads_back : ℕ → Bool
reads_back e = read_effects (effects_text e) == e

all-reads_back : holds_from 0 reads_back 512 ≡ true
unfolding holds_from reads_back read_effects flags effects_text named_effects contains is_pure union
    flag words str_eq
all-reads_back = refl

-- The text of effects names exactly these: any of the sets that the nine flags make, the empty one
-- among them, is read back from its text, by a reader that has its own list of what each name stands
-- for.
pub read_effects-effects_text : (e : Effects) → e < 512 → read_effects (effects_text e) ≡ e
unfolding reads_back
read_effects-effects_text e h =
    (==_iff (read_effects (effects_text e)) e).0
      (holds_from_sound 0 reads_back 512 e all-reads_back (omega arith) (omega arith))
