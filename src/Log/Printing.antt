-- ===== src/Log/Printing.antt =====
-- print of newland/src/log.c: what it writes into the log's buffer, and behind it.
use stardustos.Prelude.{
  Bool-cases, List, [], ap, arith, codes, false, if◌then◌else◌, inl, inr, length, ltb, refl, some,
  suc, true, zero, ℕ, ◌%◌, ◌*◌, ◌++◌, ◌+◌, ◌-◌, ◌/◌, ◌<◌, ◌==◌, ◌^◌, ◌∙◌, ◌∷◌, ◌≡◌, ◌⊎◌,
}
use stardustos.Libc.Strings.Writes.{strcpy_lem}
use stardustos.Tty.{Tty, Ttys}
use stardustos.Libc.Memory.{memset, poke}
use stardustos.Libc.Memory.Moves.{memset_lem, within}
use stardustos.Libc.Strings.Reads.{IsString}
use stardustos.Libc.Formats.{int, int_arg}
use stardustos.Libc.Formats.Render.{decimal, piece, render}
use stardustos.Libc.Formats.Print.{vsnprintf-render}
use stardustos.Log.{Printed, print, put_time, tell}

length-append_one : (xs : List ℕ) (x : ℕ) → length (xs ++ (x ∷ [])) ≡ length xs + 1
length-append_one [] x = refl
length-append_one (y ∷ xs) x = omega (arith, length-append_one xs x)

length-append_nil : (xs : List ℕ) → length (xs ++ []) ≡ length xs
length-append_nil [] = refl
length-append_nil (x ∷ xs) = ap suc (length-append_nil xs)

-- Powers of ten.
abbrev tens : ℕ → ℕ
tens zero = 1
tens (suc k) = 10 * tens k

-- A number has at most one digit more than the powers of ten up to it.
length-decimal : (fuel k n : ℕ) → n < 10 * tens k → length (decimal fuel n) < k + 2
unfolding decimal
length-decimal zero k n small = omega arith
length-decimal (suc fuel) zero n small =
    let last : (n / 10 == 0) ≡ true = ground arith in rw last (omega arith)
length-decimal (suc fuel) (suc k) n small = elim (Bool-cases (n / 10 == 0)) [
  | inl last ↦ rw last (omega arith)
  | inr more ↦
      rw (more, length-append_one (decimal fuel (n / 10)) (48 + n % 10))
        (omega (arith, length-decimal fuel k (n / 10) (omega arith)))
]

IsString-same :
    (m m' : ℕ → ℕ) (str : ℕ) (cs : List ℕ)
    → ((a : ℕ) → str < a + 1 → a < str + length cs + 1 → m' a ≡ m a)
    → IsString m str cs
    → IsString m' str cs
IsString-same m m' str [] same h = same str (omega arith) (omega arith) ∙ h
IsString-same m m' str (c ∷ cs) same h = (
  same str (omega arith) (omega arith) ∙ h.0,
  h.1,
  IsString-same m m' (str + 1) cs (λ a lo hi. same a (omega arith) (omega arith)) h.2,
)

module _ {D : Type 0} (ftoa : D → List ℕ) where
  render_time :
      (t : ℕ)
      → ltb t (2 ^ 31) ≡ true
      → render {D = D} (codes "%d") (int t ∷ []) ≡ some (decimal 33 t ++ [])
  unfolding render piece int_arg
  render_time t positive = rw positive refl

  -- The time takes the 15 bytes in front of the text, and nothing else is written.
  put_time-within :
      (m : ℕ → ℕ) (buff t : ℕ)
      → t < 2 ^ 31
      → (m' : ℕ → ℕ) × (put_time ftoa m buff t ≡ some m')
        × ((a : ℕ) → within buff 15 a ≡ false → m' a ≡ m a)
  unfolding put_time poke
  put_time-within m buff t small =
      let blank = memset (poke m buff b'[') (buff + 1) 32 12 in
      let text = decimal 33 t ++ [] in
      let positive : ltb t (2 ^ 31) ≡ true = ground arith in
      let short : length text < 11 =
        rw (length-append_nil (decimal 33 t)) (length-decimal 33 9 t (omega arith)) in
      let shown : render {D = D} (codes "%d") (int t ∷ []) ≡ some text = render_time t positive in
      let (m', prints, holds) =
        vsnprintf-render ftoa blank (buff + 1) 12 (codes "%d") (int t ∷ []) {bytes = text}
          (omega arith) (omega arith, tt) shown (omega arith) in
      (
        poke (poke m' (buff + 1 + 12) b']') (buff + 1 + 12 + 1) 32,
        rw prints refl,
        λ a out. ground (arith, holds a, memset_lem (poke m buff b'[') (buff + 1) 32 12 a, short),
      )

-- The memory after the text and the NUL, by that after the time, `m1`, and that after `strcpy`, `m2`.
module _ (m m1 m2 : ℕ → ℕ) (klog size pos str : ℕ) (cs : List ℕ)
    (frame : (a : ℕ) → within (klog + pos) 15 a ≡ false → m1 a ≡ m a)
    (holds : (a : ℕ)
      → m2 a ≡ (
          if within (klog + pos + 1 + 12 + 2) (length cs + 1) a
          then m1 (str + (a - (klog + pos + 1 + 12 + 2)))
          else m1 a))
    (word : size < 2 ^ 31) (room : pos + (length cs + 12 + 3) < size + 1)
    (apart : (str + length cs < klog) ⊎ (klog + size < str)) where
  abbrev written : ℕ → ℕ
  written = poke m2 (klog + pos + 1 + 12 + 2 + (length cs + 12 + 3)) 0

  abbrev end : ℕ
  end = (pos + (length cs + 12 + 3)) % 2 ^ 32

  written-text : (i : ℕ) → i < length cs → written (klog + (end - length cs) + i) ≡ m (str + i)
  unfolding poke
  written-text i below =
      let a = klog + pos + 1 + 12 + 2 + i in
      let here : klog + (end - length cs) + i ≡ a = omega arith in
      let source : a - (klog + pos + 1 + 12 + 2) ≡ i = omega arith in
      rw here (ground (arith, holds a, source, frame (str + i)))

  written-nul : written (klog + end + 15) ≡ 0
  unfolding poke
  written-nul = ground arith

  written-frame :
      (a : ℕ)
      → (a < klog) ⊎ (klog + size < a)
      → written a ≡ (if a == klog + end + 15 then 0 else m a)
  unfolding poke
  written-frame a out = ground (arith, holds a, frame a, out)

module _ {D W B O : Type 0} (ftoa : D → List ℕ) (write : Tty B → W → List ℕ → W)
    (klog size : ℕ) where
  -- A message without a level that stands apart from the buffer and fits into it with its time is
  -- put behind its time, at the front of the buffer if there is no room behind the last one, and the
  -- end of both is the new `klog_pos`; but the last NUL goes 15 bytes behind that end, which may be
  -- behind the buffer. No other byte outside of the buffer is written, up to the one right behind it.
  -- The time is not negative, and the buffer is smaller than 2 ^ 31.
  pub print_overruns :
      (fuel : ℕ) (ttys : Ttys B O) (t : ℕ) (m : ℕ → ℕ) (klog_pos : ℕ) (w : W) (str : ℕ)
      (cs : List ℕ)
      → t < 2 ^ 31
      → size < 2 ^ 31
      → klog_pos < size + 1
      → IsString m str cs
      → (m str == 1) ≡ false
      → (str + length cs < klog) ⊎ (klog + size < str)
      → length cs + 15 < size + 1
      → length cs < fuel
      → (r : Printed W) × (print ftoa write klog size fuel ttys t m klog_pos w str (length cs) false
          ≡ some r)
        × (r.wrote ≡ length cs + 15)
        × (r.klog_pos < size + 1)
        × ((i : ℕ) → i < length cs → r.mem (klog + (r.klog_pos - length cs) + i) ≡ m (str + i))
        × (r.mem (klog + r.klog_pos + 15) ≡ 0)
        × ((a : ℕ)
            → (a < klog) ⊎ (klog + size < a)
            → r.mem a ≡ (if a == klog + r.klog_pos + 15 then 0 else m a))
  unfolding print poke
  print_overruns fuel ttys t m klog_pos w str cs now word before string plain apart fits enough =
      let len = length cs + 12 + 3 in
      let whole : (length cs + 12 + 3) % 2 ^ 32 ≡ len = omega arith in
      let pos = if ltb ((size + 2 ^ 32 - klog_pos) % 2 ^ 32) len then 0 else klog_pos in
      let room : pos + len < size + 1 = ground arith in
      let (m1, head, frame) = put_time-within ftoa m (klog + pos) t now in
      let string1 = IsString-same m m1 str cs (λ a lo hi. frame a (ground arith)) string in
      let buff = klog + pos + 1 + 12 + 2 in
      let (m2, copied, holds) = strcpy_lem m1 fuel buff str cs string1 (ground arith) enough in
      let m3 = poke m2 (buff + len) 0 in
      (
        record {
          wrote = len;
          mem = m3;
          klog_pos = (pos + len) % 2 ^ 32;
          world = tell write ttys m3 (klog + pos) len w;
        },
        rw (plain, whole, head, copied) refl,
        omega arith,
        omega arith,
        written-text m m1 m2 klog size pos str cs frame holds word room apart,
        written-nul m m1 m2 klog size pos str cs frame holds word room apart,
        written-frame m m1 m2 klog size pos str cs frame holds word room apart,
      )
