-- ===== src/ModelCatalog/Tests.antt =====
-- Levels of concrete files, and the theorem at a concrete input.
use llamarig.Common.{◌+◌, ◌*◌, ◌/◌, ◌^◌, ◌≡◌, refl, [], false, arith, leb}
use llamarig.Common.Text.{Text, codes}
use llamarig.Common.Int.{ℤ, pos, add64}
use llamarig.ModelCatalog.{
  MachineProfile, FittedFile, capacity_of, estimate_fit, estimate_file_fit, passes_min_fit,
}
use llamarig.ModelCatalog.Fit.{estimate_file_fit-passes}

-- 0.90 of a number of bytes, rounded down.
abbrev nine_tenths : ℤ → ℤ
nine_tenths (pos n) = pos (n * 9 / 10)
nine_tenths c = c

abbrev bytes : ℤ → Text
bytes n = codes "1.0"

abbrev machine : MachineProfile
machine = record { available_ram_bytes = pos 1073741824; vram_bytes = pos 0; has_gpu = false }

abbrev file : FittedFile
file = record {
  size_bytes = pos 536870912;
  estimated_ram_bytes = pos 0;
  estimated_vram_bytes = pos 0;
  fit_level = [];
  fit_reason = [];
}

-- All of the memory, and no less.
is_marginal : (estimate_file_fit nine_tenths bytes file machine).fit_level ≡ codes "marginal"
unfolding estimate_file_fit estimate_fit add64
is_marginal = refl

estimate_file_fit-passes_example :
    passes_min_fit (estimate_file_fit nine_tenths bytes file machine).fit_level (codes "marginal")
    ≡ leb (536870912 + 2 ^ 29) 1073741824
unfolding capacity_of
estimate_file_fit-passes_example =
    estimate_file_fit-passes nine_tenths bytes file machine 536870912 1073741824 refl (omega arith)
      refl (omega arith) refl
