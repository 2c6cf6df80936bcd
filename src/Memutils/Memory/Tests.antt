-- ===== src/Memutils/Memory/Tests.antt =====
-- The theorems on memory at the string `ab`, at address 10.
use aeolos.Base.{ℕ, refl, ◌==◌, if◌then◌else◌, arith}
use aeolos.Memutils.Memory.Strings.{HasLength}

abbrev memory : ℕ → ℕ
memory a = if a == 10 then b'a' else if a == 11 then b'b' else if a == 12 then 0 else b'x'

memory-HasLength : HasLength memory 10 2
memory-HasLength = (λ k lt. ground arith, refl)
