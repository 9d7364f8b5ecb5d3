-- ===== src/Models/Examples.antt =====
-- The theorems of the models at concrete inputs.
use sovereignstack.Prelude.{◌+◌, ◌≡◌, ◌≤◌, ◌↔◌, refl, true, [], ◌∷◌, some, ok}
use sovereignstack.Text.{codes}
use sovereignstack.Int64.{ℤ, pos}
use sovereignstack.Models.{ModelMetadata, quantization_awq}
use sovereignstack.Models.Quantization.{suggest_quantization}
use sovereignstack.Models.Quantization.Choice.{
  Suits, suggest_quantization-Suits, suggest_quantization-awq,
}
use sovereignstack.Models.Safetensors.{
  ModelFile, header_size, max_header, validate_safetensors_file, validate_safetensors_file_iff,
}

-- seven billion parameters
abbrev llama : ModelMetadata
llama = record {
  name = codes "llama";
  parameter_count = pos 7000000000;
  context_length = 4096;
  hardware_target = codes "gpu";
  minimum_system_ram = pos 0;
}

abbrev no_overhead : ℤ → ℤ
no_overhead size = pos 0

suggest_quantization-Suits_example :
    Suits no_overhead (pos 1) (pos 7000000000) (suggest_quantization no_overhead (pos 1) llama)
suggest_quantization-Suits_example = suggest_quantization-Suits no_overhead (pos 1) llama

suggest_quantization-awq_example :
    suggest_quantization no_overhead (pos 1) llama ≡ some quantization_awq
suggest_quantization-awq_example = suggest_quantization-awq no_overhead (pos 1) llama refl refl

-- a header of two bytes, "{}"
abbrev small_file : ModelFile
small_file = record {
  opens = true;
  stats = true;
  size = 10;
  contents = 2 ∷ 0 ∷ 0 ∷ 0 ∷ 0 ∷ 0 ∷ 0 ∷ 0 ∷ 123 ∷ 125 ∷ [];
}

validate_safetensors_file_iff_example : (validate_safetensors_file small_file ≡ ok tt) ↔ (
    (1 ≤ header_size small_file)
    × (header_size small_file ≤ max_header)
    × (8 + header_size small_file ≤ 10))
validate_safetensors_file_iff_example = validate_safetensors_file_iff small_file refl refl refl
