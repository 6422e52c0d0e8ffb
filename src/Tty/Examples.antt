-- ===== src/Tty/Examples.antt =====
-- Terminals of newland/src/dev/tty.c on small tables.
use stardustos.Prelude.{
  List, [], arith, codes, refl, some, str_eq, strcpy_into, true, value, ℕ, ◌∷◌, ◌≡◌,
}
use stardustos.Slist.{find}
use stardustos.Tty.{Tty, Ttys, register_tty, tty_fromname}
use stardustos.Tty.Numbers.{IsConsistent, register_tty-IsConsistent}
use stardustos.Dev.{device_fromdev, device_fromname, mkdev, register_device}

abbrev tty0 : List ℕ
tty0 = codes "tty0"

abbrev tty1 : List ℕ
tty1 = codes "tty1"

abbrev first_tty : Tty ℕ
first_tty = record { name = tty0; opts = 3 }

abbrev second_tty : Tty ℕ
second_tty = record { name = tty1; opts = 4 }

abbrev no_tty : Ttys ℕ ℕ
no_tty = record { devs = record { devices = []; dev_count = 0 }; ttys = []; tty_cnt = 0 }

abbrev one_tty : Ttys ℕ ℕ
one_tty = record {
  devs = record {
    devices = record { dev = 512; size = 0; name = tty0; opts = 5 } ∷ [];
    dev_count = 1;
  };
  ttys = first_tty ∷ [];
  tty_cnt = 1;
}

abbrev two_ttys : Ttys ℕ ℕ
two_ttys = record {
  devs = record {
    devices =
        record { dev = 513; size = 0; name = tty1; opts = 5 }
        ∷ record { dev = 512; size = 0; name = tty0; opts = 5 }
        ∷ [];
    dev_count = 2;
  };
  ttys = second_tty ∷ first_tty ∷ [];
  tty_cnt = 2;
}

first_registered : register_tty 5 no_tty true true tty0 3 ≡ some (value 0, one_tty)
unfolding register_tty tty_fromname device_fromname device_fromdev register_device strcpy_into find
    str_eq mkdev
first_registered = refl

second_registered : register_tty 5 one_tty true true tty1 4 ≡ some (value 0, two_ttys)
unfolding register_tty tty_fromname device_fromname device_fromdev register_device strcpy_into find
    str_eq mkdev
second_registered = refl

no_tty-IsConsistent : IsConsistent no_tty
no_tty-IsConsistent = record {
  table = record { numbers = _; names = _; counted = refl };
  distinct = _;
  counted = refl;
  numbered = _;
}

one_tty-IsConsistent : IsConsistent one_tty
one_tty-IsConsistent =
    register_tty-IsConsistent 5 no_tty true true tty0 3 0 no_tty-IsConsistent (omega arith)
      first_registered

two_ttys-IsConsistent : IsConsistent two_ttys
two_ttys-IsConsistent =
    register_tty-IsConsistent 5 one_tty true true tty1 4 0 one_tty-IsConsistent (omega arith)
      second_registered
