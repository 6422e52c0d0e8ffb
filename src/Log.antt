-- ===== src/Log.antt =====
-- newland/src/log.c: the kernel's log, in the memory of the kernel. `D` is `double`, and `write`
-- is the handler of a terminal, which acts on `W`. `klog` is the address of `klog_buffer`, and
-- `size` is NEWLAND_KLOG_SIZE, an option of the build.
use stardustos.Prelude.{
  Bool, List, Option, [], codes, false, if◌then◌else◌, leb, ltb, none, some, suc, zero, ℕ, ◌%◌, ◌+◌,
  ◌-◌, ◌==◌, ◌>>=◌, ◌^◌, ◌∷◌,
}
use stardustos.Libc.Memory.{memset, poke}
use stardustos.Libc.Strings.{strcpy, strlen}
use stardustos.Libc.Formats.{Arg, int, vsnprintf}
use stardustos.Tty.{Tty, Ttys, tty_count, tty_get}
pub mod Printing
pub mod Examples

-- `TIME_STRLEN`
abbrev pub time_strlen : ℕ
time_strlen = 12

-- What a call leaves: its number, the memory, `klog_pos`, and the terminals' state.
pub record Printed (W : Type 0) : Type 0 where
  pub wrote : ℕ
  pub mem : ℕ → ℕ
  pub klog_pos : ℕ
  pub world : W

-- The `n` bytes from an address on.
unfoldable pub bytes_at : (ℕ → ℕ) → ℕ → ℕ → List ℕ
bytes_at m a zero = []
bytes_at m a (suc n) = m a ∷ bytes_at m (a + 1) n

module _ {D : Type 0} (ftoa : D → List ℕ) where
  -- The brackets with the time `t` since the start.
  unfoldable pub put_time : (ℕ → ℕ) → ℕ → ℕ → Option (ℕ → ℕ)
  put_time m buff t =
      let blank = memset (poke m buff b'[') (buff + 1) 32 time_strlen in
      vsnprintf ftoa (buff + 1) time_strlen blank (codes "%d") (int t ∷ []) >>= λ r.
      some (poke (poke r.1 (buff + 1 + time_strlen) b']') (buff + 1 + time_strlen + 1) 32)

module _ {W B O : Type 0} (write : Tty B → W → List ℕ → W) where
  -- The last part of `print`, on the terminal with the last index.
  unfoldable pub tell : Ttys B O → (ℕ → ℕ) → ℕ → ℕ → W → W
  unfolding bytes_at
  tell ttys m buff len w = elim (tty_get ttys ((tty_count ttys + 2 ^ 32 - 1) % 2 ^ 32)) [
    | none ↦ w
    | some tty ↦
        let w' = write tty w (bytes_at m buff len) in
        if m (buff + len - 1) == 10 then write tty w' (13 ∷ []) else w'
  ]

module _ {D W B O : Type 0} (ftoa : D → List ℕ) (write : Tty B → W → List ℕ → W)
    (klog size : ℕ) where
  -- `fuel` is for the loop of `strcpy`.
  unfoldable pub print : ℕ → Ttys B O → ℕ → (ℕ → ℕ) → ℕ → W → ℕ → ℕ → Bool → Option (Printed W)
  unfolding put_time tell
  print fuel ttys t m klog_pos w str0 len0 inmsg =
      let str = if m str0 == 1 then str0 + 2 else str0 in
      let len1 = if m str0 == 1 then (len0 + 2 ^ 32 - 2) % 2 ^ 32 else len0 in
      let len = if inmsg then len1 else (len1 + time_strlen + 3) % 2 ^ 32 in
      let freesize = (size + 2 ^ 32 - klog_pos) % 2 ^ 32 in
      let pos = if ltb freesize len then 0 else klog_pos in
      let head = put_time ftoa m (klog + pos) t in
      let buff = if inmsg then klog + pos + 1 else klog + pos + 1 + time_strlen + 2 in
      (if inmsg then some m else head) >>= λ m1. strcpy m1 fuel buff str >>= λ m2.
      let m3 = poke m2 (buff + len) 0 in
      some (record {
        wrote = len;
        mem = m3;
        klog_pos = (pos + len) % 2 ^ 32;
        world = tell write ttys m3 (klog + pos) len w;
      })

  -- `buff` is the address of the buffer of 512 bytes on the stack.
  unfoldable pub printk :
      ℕ → Ttys B O → ℕ → (ℕ → ℕ) → ℕ → W → ℕ → List ℕ → List (Arg D) → Option (Printed W)
  unfolding print
  printk fuel ttys t m klog_pos w buff fmt args = vsnprintf ftoa buff 512 m fmt args >>= λ r.
      if leb (2 ^ 31) r.0
      then some (record { wrote = r.0; mem = r.1; klog_pos = klog_pos; world = w })
      else strlen r.1 fuel buff >>= λ len. print fuel ttys t r.1 klog_pos w buff len false
