-- ===== src/Base/Glyphs.antt =====
-- The characters that stand for digits in texts, as a table.
use Prim.Native.Nat.{ℕ, ◌+◌, ◌<◌, ◌≤◌}
use mathlib.Core.Path.{◌≡◌}
use mathlib.Core.Logic.{◌≢◌}
use native.Mathlib.Omega.{arith}
use kernelite.Base.Tests.{◌==◌, if◌then◌else◌}

-- '0' to '9', and 'a' to 'f'
abbrev pub glyph : ℕ → ℕ
glyph d =
    if d == 0
    then 0x30
    else if d == 1
    then 0x31
    else if d == 2
    then 0x32
    else if d == 3
    then 0x33
    else if d == 4
    then 0x34
    else if d == 5
    then 0x35
    else if d == 6
    then 0x36
    else if d == 7
    then 0x37
    else if d == 8
    then 0x38
    else if d == 9
    then 0x39
    else if d == 10
    then 0x61
    else if d == 11
    then 0x62
    else if d == 12
    then 0x63
    else if d == 13
    then 0x64
    else if d == 14
    then 0x65
    else 0x66

-- The same with 'A' to 'F'
abbrev pub capital : ℕ → ℕ
capital d =
    if d == 10
    then 0x41
    else if d == 11
    then 0x42
    else if d == 12
    then 0x43
    else if d == 13
    then 0x44
    else if d == 14
    then 0x45
    else if d == 15
    then 0x46
    else glyph d

pub glyph_low : (d : ℕ) → d < 10 → glyph d ≡ d + 48
glyph_low d l = ground arith

pub glyph_high : (d : ℕ) → 10 ≤ d → d < 16 → glyph d ≡ d + 87
glyph_high d h l = ground arith

pub capital_low : (d : ℕ) → d < 10 → capital d ≡ d + 48
capital_low d l = ground arith

pub capital_high : (d : ℕ) → 10 ≤ d → d < 16 → capital d ≡ d + 55
capital_high d h l = ground arith

pub glyph-ne : (d : ℕ) → glyph d ≢ 0
glyph-ne d e = ground arith
