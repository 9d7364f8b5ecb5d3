-- ===== src/Models.antt =====
-- core/types.go and core/model: the models' metadata, how much memory a quantization needs, and which
-- models are cached and complete. `Cache` keeps the metadata of the cached models.
pub mod Quantization
pub mod Safetensors
pub mod Manager
pub mod Cache
mod Examples
use sovereignstack.Prelude.{ℕ}
use sovereignstack.Text.{Text, codes}
use sovereignstack.Int64.{ℤ}
use sovereignstack.Dict.{Dict}

-- QuantizationType is a string.
abbrev pub quantization_none : Text
quantization_none = codes "none"

abbrev pub quantization_awq : Text
quantization_awq = codes "awq"

abbrev pub quantization_gptq : Text
quantization_gptq = codes "gptq"

abbrev pub quantization_int8 : Text
quantization_int8 = codes "int8"

-- ModelMetadata, without its texts and the tables of its configuration
pub record ModelMetadata : Type 0 where
  pub name : Text
  pub parameter_count : ℤ
  pub context_length : ℕ
  pub hardware_target : Text
  pub minimum_system_ram : ℤ
