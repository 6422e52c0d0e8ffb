-- ===== src/Libc/Strings/Writes.antt =====
-- What strcpy and strncpy of libraries/libc/src/string write.
use stardustos.Prelude.{
  List, [], arith, if◌then◌else◌, length, some, suc, zero, ℕ, ◌+◌, ◌-◌, ◌<◌, ◌∷◌, ◌≡◌, ◌⊎◌,
}
use stardustos.Libc.Memory.{poke}
use stardustos.Libc.Memory.Moves.{within}
use stardustos.Libc.Strings.{strcpy}
use stardustos.Libc.Strings.Reads.{IsString}

-- A byte written outside of a string leaves it.
pub IsString-poke :
    (m : ℕ → ℕ) (b v str : ℕ) (cs : List ℕ)
    → (b < str) ⊎ (str + length cs < b)
    → IsString m str cs
    → IsString (poke m b v) str cs
unfolding poke
IsString-poke m b v str [] apart h = ground arith
IsString-poke m b v str (c ∷ cs) apart h =
    (ground (arith, h.0), h.1, IsString-poke m b v (str + 1) cs (ground arith) h.2)

-- `strcpy` to a place apart from the string copies its bytes and its NUL, and changes nothing else;
-- fuel for one more than the bytes is enough.
pub strcpy_lem :
    (m : ℕ → ℕ) (fuel dst src : ℕ) (cs : List ℕ)
    → IsString m src cs
    → (dst + length cs < src) ⊎ (src + length cs < dst)
    → length cs < fuel
    → (m' : ℕ → ℕ) × (strcpy m fuel dst src ≡ some m')
      × ((a : ℕ) → m' a ≡ (if within dst (length cs + 1) a then m (src + (a - dst)) else m a))
unfolding strcpy poke
strcpy_lem m zero dst src cs h apart enough = absurd (omega arith)
strcpy_lem m (suc fuel) dst src [] h apart enough =
    (poke m dst (m src), ground arith, λ a. ground arith)
strcpy_lem m (suc fuel) dst src (c ∷ cs) h apart enough =
    let kept = IsString-poke m dst (m src) (src + 1) cs (ground arith) h.2 in
    let (m', more, holds) =
      strcpy_lem (poke m dst (m src)) fuel (dst + 1) (src + 1) cs kept (ground arith)
        (omega arith) in
    (m', ground (arith, more, h.0, h.1), λ a. ground (arith, holds a))
