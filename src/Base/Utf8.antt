-- ===== src/Base/Utf8.antt =====
-- The check of a byte string that Rust's `String::from_utf8` makes.
use Prim.Native.Nat.{ℕ, zero, suc}
use mathlib.Core.Bool.{Bool, false, ◌&&◌}
use mathlib.Core.Option.{Option, none, some}
use mathlib.Core.List.{List, [], ◌∷◌}
use rustevm.Base.Tests.{leb, ltb, ◌==◌, if◌then◌else◌}

-- The continuation bytes that are still to come, and the bounds of the first of them.
pub record Pending : Type 0 where
  pub count : ℕ
  pub low : ℕ
  pub high : ℕ

abbrev pub pending : ℕ → ℕ → ℕ → Pending
pending count low high = record { count = count; low = low; high = high }

abbrev pub no_pending : Pending
no_pending = pending 0 0x80 0xbf

-- What the first byte of a code point asks for; overlong forms, surrogates and numbers above
-- 0x10ffff are refused here.
after_lead : ℕ → Option Pending
after_lead b =
    if ltb b 0x80
    then some no_pending
    else if ltb b 0xc2
    then none
    else if ltb b 0xe0
    then some (pending 1 0x80 0xbf)
    else if b == 0xe0
    then some (pending 2 0xa0 0xbf)
    else if b == 0xed
    then some (pending 2 0x80 0x9f)
    else if ltb b 0xf0
    then some (pending 2 0x80 0xbf)
    else if b == 0xf0
    then some (pending 3 0x90 0xbf)
    else if ltb b 0xf4
    then some (pending 3 0x80 0xbf)
    else if b == 0xf4
    then some (pending 3 0x80 0x8f)
    else none

after_continuation : ℕ → Pending → ℕ → Option Pending
after_continuation rest p b =
    if leb p.low b && leb b p.high then some (pending rest 0x80 0xbf) else none

after_byte : Pending → ℕ → ℕ → Option Pending
unfolding after_lead after_continuation
after_byte p zero b = after_lead b
after_byte p (suc rest) b = after_continuation rest p b

utf8_from : Option Pending → List ℕ → Bool
utf8_from none bs = false
utf8_from (some p) [] = p.count == 0
utf8_from (some p) (b ∷ bs) = utf8_from (after_byte p p.count b) bs

unfoldable pub is_utf8 : List ℕ → Bool
unfolding utf8_from after_byte
is_utf8 bs = utf8_from (some no_pending) bs
