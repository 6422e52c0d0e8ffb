-- ===== src/Pci/Names.antt =====
-- The name of a device in newland/arch/x86/modules/bus/pci.c, function found_dev.
use stardustos.Prelude.{
  List, Option, arith, codes, if◌then◌else◌, refl, suc, zero, ℕ, ◌*◌, ◌<◌, ◌==◌, ◌>>=◌, ◌≡◌,
}
use stardustos.Pci.{PciDev}
use stardustos.Libc.Itoa.{itoa}
use stardustos.Libc.Memory.{poke}
use stardustos.Libc.Formats.{write_bytes}
use stardustos.Libc.Formats.Streams.{read_bytes}
use stardustos.Fs.Files.{c_string}

-- `if (name[i] == 0) name[i] = '0';`
abbrev pub fill : ℕ → (ℕ → ℕ) → ℕ → ℕ
fill i m a = if m i == 0 then (if i == a then b'0' else m a) else m a

-- `char name[9]` at the address 0.
unfoldable pub dev_name : PciDev → Option (List ℕ)
unfolding itoa poke write_bytes read_bytes c_string
dev_name d = do
  bus ← itoa (write_bytes (λ a. 0) 0 (codes "000.00.0")) 0 10 d.bus
  slot ← itoa (poke (fill 2 (fill 1 bus.1)) 3 b'.') 4 10 d.slot
  func ← itoa (poke (fill 5 slot.1) 6 b'.') 7 10 d.func
  c_string (read_bytes func.1 0 9)

below_8 : (P : ℕ → Type 0) → P 0 × P 1 × P 2 × P 3 × P 4 × P 5 × P 6 × P 7 → (f : ℕ) → f < 8 → P f
below_8 P (p0, p1, p2, p3, p4, p5, p6, p7) zero h = p0
below_8 P (p0, p1, p2, p3, p4, p5, p6, p7) (suc zero) h = p1
below_8 P (p0, p1, p2, p3, p4, p5, p6, p7) (suc (suc zero)) h = p2
below_8 P (p0, p1, p2, p3, p4, p5, p6, p7) (suc (suc (suc zero))) h = p3
below_8 P (p0, p1, p2, p3, p4, p5, p6, p7) (suc (suc (suc (suc zero)))) h = p4
below_8 P (p0, p1, p2, p3, p4, p5, p6, p7) (suc (suc (suc (suc (suc zero))))) h = p5
below_8 P (p0, p1, p2, p3, p4, p5, p6, p7) (suc (suc (suc (suc (suc (suc zero)))))) h = p6
below_8 P (p0, p1, p2, p3, p4, p5, p6, p7) (suc (suc (suc (suc (suc (suc (suc zero))))))) h = p7
below_8 P ps (suc (suc (suc (suc (suc (suc (suc (suc f)))))))) h = absurd (omega arith)

abbrev pub pci_at : ℕ → ℕ → ℕ → PciDev
pci_at b s f = record { bus = b; slot = s; func = f }

-- A slot of one digit, from 1 to 3, has the name of the slot ten times as far, on every bus.
pub dev_name_collides :
    (b s f : ℕ) → 0 < s → s < 4 → f < 8 → dev_name (pci_at b s f) ≡ dev_name (pci_at b (10 * s) f)
unfolding dev_name
dev_name_collides b zero f some_slot few small = absurd (omega arith)
dev_name_collides b (suc zero) f some_slot few small =
    below_8 (λ g. dev_name (pci_at b 1 g) ≡ dev_name (pci_at b 10 g))
      (refl, refl, refl, refl, refl, refl, refl, refl) f small
dev_name_collides b (suc (suc zero)) f some_slot few small =
    below_8 (λ g. dev_name (pci_at b 2 g) ≡ dev_name (pci_at b 20 g))
      (refl, refl, refl, refl, refl, refl, refl, refl) f small
dev_name_collides b (suc (suc (suc zero))) f some_slot few small =
    below_8 (λ g. dev_name (pci_at b 3 g) ≡ dev_name (pci_at b 30 g))
      (refl, refl, refl, refl, refl, refl, refl, refl) f small
dev_name_collides b (suc (suc (suc (suc s)))) f some_slot few small = absurd (omega arith)
