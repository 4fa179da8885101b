-- ===== src/Gdt/Examples.antt =====
-- Runs of the set-up of the descriptor table, and its theorems at concrete tables.
use aura_os.Base.{◌≡◌, refl, get_or, replicate}
use aura_os.Gdt.{Gdt, GdtEntry, init}

abbrev no_entry : GdtEntry
no_entry = record {
  limit_low = 0;
  base_low = 0;
  base_middle = 0;
  access = 0;
  granularity = 0;
  base_high = 0;
}

abbrev cleared : Gdt
cleared = record {
  entries = replicate 5 no_entry;
  tss = record {
    length = 0;
    base_low = 0;
    base_mid = 0;
    flags1 = 0;
    flags2 = 0;
    base_high = 0;
    base_upper32 = 0;
    reserved = 0;
  };
  iomap_base = 0;
  pointer_limit = 0;
  pointer_base = 0;
}

user_code_access : (get_or (init cleared 0x10_5000 0x10_6000).entries 3 no_entry).access ≡ 0xfa
unfolding init
user_code_access = refl
