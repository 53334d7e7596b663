-- ===== src/ModelCatalog.antt =====
-- core/modelcatalog/fit.go: whether a model file fits into the memory of the machine. The part of
-- int64(float64(capacity) * 0.90), and a number of bytes as fmt prints it in GiB, are parameters.
pub mod Fit
mod Tests
use llamarig.Common.{ℕ, ◌*◌, Bool, true, false, not, ◌&&◌, ◌||◌, ◌++◌, if◌then◌else◌}
use llamarig.Common.Text.{Text, codes, ◌=ₜ◌}
use llamarig.Common.Int.{ℤ, pos, ltb_ℤ, add64}

-- `fitOverheadBytes`
abbrev pub fit_overhead_bytes : ℤ
fit_overhead_bytes = pos (512 * 1024 * 1024)

-- `MachineProfile`, as far as a fit turns on it.
pub record MachineProfile : Type 0 where
  pub available_ram_bytes : ℤ
  pub vram_bytes : ℤ
  pub has_gpu : Bool

pub record MachineFit : Type 0 where
  pub level : Text
  pub reason : Text
  pub required_ram_bytes : ℤ
  pub available_ram_bytes : ℤ
  pub required_vram_bytes : ℤ
  pub available_vram_bytes : ℤ

-- `File`, by the fields that a fit reads or writes.
pub record FittedFile : Type 0 where
  pub size_bytes : ℤ
  pub estimated_ram_bytes : ℤ
  pub estimated_vram_bytes : ℤ
  pub fit_level : Text
  pub fit_reason : Text

abbrev pub leb_ℤ : ℤ → ℤ → Bool
leb_ℤ a b = not (ltb_ℤ b a)

-- The memory that counts.
unfoldable pub capacity_of : MachineProfile → ℤ
capacity_of machine = if machine.has_gpu then machine.vram_bytes else machine.available_ram_bytes

-- The returns of `estimateFit`: the level and the reason, by the tests in their order.
unfoldable pub verdict : Bool → Bool → Bool → Text
verdict unknown within_most within_all =
    if unknown
    then codes "unknown"
    else if within_most
    then codes "fits"
    else if within_all
    then codes "marginal"
    else codes "too_large"

unfoldable pub verdict_reason : Bool → Bool → Bool → Text → Text
verdict_reason unknown within_most within_all needed =
    if unknown
    then codes "memory capacity is unknown"
    else if within_most
    then needed ++ codes " is within 90% of capacity"
    else if within_all
    then needed ++ codes " is close to capacity"
    else needed ++ codes " exceeds capacity"

module _ (most : ℤ → ℤ) (gib : ℤ → Text) where
  -- `estimateFit`
  unfoldable pub estimate_fit : ℤ → MachineProfile → MachineFit
  unfolding verdict verdict_reason capacity_of
  estimate_fit required machine =
      let capacity = capacity_of machine in
      let resource = if machine.has_gpu then codes "VRAM" else codes "RAM" in
      let unknown = leb_ℤ required (pos 0) || leb_ℤ capacity (pos 0) in
      let within_most = leb_ℤ required (most capacity) in
      let within_all = leb_ℤ required capacity in
      let needed = codes "estimated " ++ resource ++ codes " " ++ gib required ++ codes " GiB" in
      record {
        level = verdict unknown within_most within_all;
        reason = verdict_reason unknown within_most within_all needed;
        required_ram_bytes = required;
        available_ram_bytes = machine.available_ram_bytes;
        required_vram_bytes = if machine.has_gpu then required else pos 0;
        available_vram_bytes = if machine.has_gpu then capacity else pos 0;
      }

  -- `estimateFileFit`
  unfoldable pub estimate_file_fit : FittedFile → MachineProfile → FittedFile
  estimate_file_fit file machine =
      let required = add64 file.size_bytes fit_overhead_bytes in
      let fit = estimate_fit required machine in
      record {
        size_bytes = file.size_bytes;
        estimated_ram_bytes = required;
        estimated_vram_bytes = if machine.has_gpu then required else file.estimated_vram_bytes;
        fit_level = fit.level;
        fit_reason = fit.reason;
      }

-- `passesMinFit`
unfoldable pub passes_min_fit : Text → Text → Bool
unfolding ◌=ₜ◌
passes_min_fit level min_fit =
    if min_fit =ₜ codes "fits"
    then level =ₜ codes "fits"
    else if min_fit =ₜ codes "marginal"
    then (level =ₜ codes "fits") || (level =ₜ codes "marginal")
    else true

-- `fitRank`
unfoldable pub fit_rank : Text → ℕ
unfolding ◌=ₜ◌
fit_rank level =
    if level =ₜ codes "fits"
    then 4
    else if level =ₜ codes "marginal"
    then 3
    else if level =ₜ codes "unknown"
    then 2
    else if level =ₜ codes "too_large"
    then 1
    else 0
