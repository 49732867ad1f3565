-- ===== src/Arch64/Pat.antt =====
-- The memory types that src/arch64/arch64.cpp asks for.
use kmd.Base.{
  ℕ, suc, zero, ◌*◌, ◌/◌, ◌%◌, ◌^◌, ◌<◌, ◌≡◌, ◌∙◌, sym, ap, arith, bit_and, bit_or, ◌>>>◌, List,
  ◌∷◌, u32, refl,
}
use kmd.Base.Bits.{bit_and_low, bit_or-div, bit_or-zero}
use kmd.Base.Remainders.{bit_or-mod}
use kmd.Hardware.{Board, Device, Sent, wrmsr, msr_high, msr_low, rdmsr, wrmsr_to}
use kmd.Arch64.{pa, pat_of, uncacheable, write_combining, write_through, write_back, uncached}

-- The byte of an entry.
abbrev pub byte_of : ℕ → ℕ → ℕ
byte_of j x = x / 2 ^ (8 * j) % 2 ^ 8

-- The types that `init` asks for; entries 5 to 7 are asked for nothing.
abbrev pub asked_type : ℕ → ℕ
asked_type zero = write_back
asked_type (suc zero) = write_through
asked_type (suc (suc zero)) = uncached
asked_type (suc (suc (suc zero))) = uncacheable
asked_type (suc (suc (suc (suc zero)))) = write_combining
asked_type _ = 0

byte_of-bit_or : (j a b : ℕ) → byte_of j (bit_or a b) ≡ bit_or (byte_of j a) (byte_of j b)
byte_of-bit_or j a b =
    rw (bit_or-div (8 * j) a b) (bit_or-mod 8 (a / 2 ^ (8 * j)) (b / 2 ^ (8 * j)))

byte_of-pat_of :
    (j x : ℕ)
    → byte_of j (pat_of x)
      ≡ bit_or
          (bit_or
            (bit_or
              (bit_or
                (bit_or (byte_of j x) (byte_of j (pa 0 write_back)))
                (byte_of j (pa 1 write_through)))
              (byte_of j (pa 2 uncached)))
            (byte_of j (pa 3 uncacheable)))
          (byte_of j (pa 4 write_combining))
unfolding pat_of
byte_of-pat_of j x = simp byte_of-bit_or refl

-- Ors of zeros on the right.
zeros : (y : ℕ) → bit_or (bit_or (bit_or y 0) 0) 0 ≡ y
zeros y = bit_or-zero _ ∙ bit_or-zero _ ∙ bit_or-zero y

-- Entry `j` of the register that `init` writes is the entry that was there, with the bits of the
-- type that is asked for set in it.
pub pat_of-types : (x j : ℕ) → j < 8 → byte_of j (pat_of x) ≡ bit_or (byte_of j x) (asked_type j)
pat_of-types x zero h =
    let y = byte_of 0 x in byte_of-pat_of 0 x ∙ bit_or-zero _ ∙ zeros (bit_or y 6)
pat_of-types x (suc zero) h =
    let y = byte_of 1 x in
    byte_of-pat_of 1 x ∙ zeros (bit_or (bit_or y 0) 4) ∙ ap (λ z. bit_or z 4) (bit_or-zero y)
pat_of-types x (suc (suc zero)) h =
    let y = byte_of 2 x in
    byte_of-pat_of 2 x
    ∙ bit_or-zero _
    ∙ bit_or-zero _
    ∙ ap (λ z. bit_or z 7) (bit_or-zero _ ∙ bit_or-zero y)
pat_of-types x (suc (suc (suc zero))) h =
    let y = byte_of 3 x in byte_of-pat_of 3 x ∙ bit_or-zero _ ∙ zeros (bit_or y 0)
pat_of-types x (suc (suc (suc (suc zero)))) h =
    let y = byte_of 4 x in byte_of-pat_of 4 x ∙ ap (λ z. bit_or z 1) (bit_or-zero _ ∙ zeros y)
pat_of-types x (suc (suc (suc (suc (suc zero))))) h =
    let y = byte_of 5 x in byte_of-pat_of 5 x ∙ bit_or-zero _ ∙ zeros (bit_or y 0)
pat_of-types x (suc (suc (suc (suc (suc (suc zero)))))) h =
    let y = byte_of 6 x in byte_of-pat_of 6 x ∙ bit_or-zero _ ∙ zeros (bit_or y 0)
pat_of-types x (suc (suc (suc (suc (suc (suc (suc zero))))))) h =
    let y = byte_of 7 x in byte_of-pat_of 7 x ∙ bit_or-zero _ ∙ zeros (bit_or y 0)
pat_of-types x (suc (suc (suc (suc (suc (suc (suc (suc j)))))))) h = absurd (omega arith)

-- When the register answers the halves that were written to it, a number that was written in two
-- halves is read back.
pub rdmsr-wrmsr_to :
    (device : Device) (msr val : ℕ) (b b' : Board) (high low : ℕ)
    → val < 2 ^ 64
    → (wrmsr_to msr val b).sent ≡ wrmsr msr high low ∷ b.sent
    → device b'.asked (msr_high msr) ≡ high
    → device b'.asked (msr_low msr) ≡ low
    → (rdmsr device msr b').0 ≡ val
unfolding wrmsr_to rdmsr
rdmsr-wrmsr_to device msr val b b' high low h s e f =
    let same_high : u32 (val >>> 32) ≡ high = ap high_of s in
    let same_low : u32 (bit_and val 0xFFFFFFFF) ≡ low = ap low_of s in
    rw (e, f, sym same_high, sym same_low) (omega (arith, bit_and_low 32 val))
  where
    high_of : List Sent → ℕ
    high_of (wrmsr _ hi _ ∷ _) = hi
    high_of _ = 0

    low_of : List Sent → ℕ
    low_of (wrmsr _ _ lo ∷ _) = lo
    low_of _ = 0
