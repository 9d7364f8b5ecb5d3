-- ===== src/Models/Quantization/Choice.antt =====
-- What `SuggestQuantization` chooses.
use sovereignstack.Prelude.{◌≡◌, refl, ap, ◌∙◌, true, false, Option, none, some, arith}
use sovereignstack.Text.{Text, text_eq}
use sovereignstack.Int64.{ℤ, pos, ◌+ℤ◌, wrap64, add64, leb_ℤ}
use sovereignstack.Models.{
  ModelMetadata, quantization_none, quantization_awq, quantization_gptq, quantization_int8,
}
use sovereignstack.Models.Quantization.{
  times64, calculate_vram, get_quantization_profiles, vram_for_quantization, fitting, can_fit,
  first_choice, suggest_quantization,
}

-- What a suggestion says: the suggested type fits; and where there is none, none of the four fits.
abbrev pub Suits : (ℤ → ℤ) → ℤ → ℤ → Option Text → Type 0
Suits overhead available n (some q) = can_fit overhead available n q ≡ true
Suits overhead available n none =
    (can_fit overhead available n quantization_none ≡ false)
    × (can_fit overhead available n quantization_awq ≡ false)
    × (can_fit overhead available n quantization_gptq ≡ false)
    × (can_fit overhead available n quantization_int8 ≡ false)

-- The suggested quantization fits into the memory, by the same measure as CanFit, and an error means
-- that none of the four does.
pub suggest_quantization-Suits :
    (overhead : ℤ → ℤ) (available : ℤ) (metadata : ModelMetadata)
    → Suits overhead available metadata.parameter_count
        (suggest_quantization overhead available metadata)
unfolding suggest_quantization fitting get_quantization_profiles can_fit vram_for_quantization
    first_choice text_eq
suggest_quantization-Suits overhead available metadata = ground arith

calculate_vram-int4 :
    (overhead : ℤ → ℤ) (n : ℤ) → overhead (pos 0) ≡ pos 0 → calculate_vram overhead n 4 ≡ pos 0
unfolding calculate_vram times64 add64 wrap64 ◌+ℤ◌
calculate_vram-int4 overhead n free = rw free refl

-- Where nothing takes no overhead, a 4-bit quantization counts as needing no memory at all, so that
-- AWQ is suggested for every model on every machine, however small its memory.
pub suggest_quantization-awq :
    (overhead : ℤ → ℤ) (available : ℤ) (metadata : ModelMetadata)
    → overhead (pos 0) ≡ pos 0
    → leb_ℤ (pos 0) available ≡ true
    → suggest_quantization overhead available metadata ≡ some quantization_awq
unfolding suggest_quantization fitting get_quantization_profiles first_choice text_eq
suggest_quantization-awq overhead available metadata free some_memory =
    let n = metadata.parameter_count in
    let fits : leb_ℤ (calculate_vram overhead n 4) available ≡ true =
      ap (λ v. leb_ℤ v available) (calculate_vram-int4 overhead n free) ∙ some_memory in
    ground arith
