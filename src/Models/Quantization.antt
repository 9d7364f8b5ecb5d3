-- ===== src/Models/Quantization.antt =====
-- core/model/quantization.go. `int64(float64(x) * 0.15)` is the parameter `overhead`.
pub mod Choice
use sovereignstack.Prelude.{
  ℕ, zero, suc, ◌/◌, Bool, true, false, List, [], ◌∷◌, Option, none, some, any, keep, map, is_empty,
  if◌then◌else◌,
}
use sovereignstack.Text.{Text, codes, text_eq}
use sovereignstack.Int64.{ℤ, pos, add64, leb_ℤ}
use sovereignstack.Dict.{Dict}
use sovereignstack.Models.{
  ModelMetadata, quantization_none, quantization_awq, quantization_gptq, quantization_int8,
}

-- a * n on int64, which wraps around as the repeated sum does
unfoldable pub times64 : ℤ → ℕ → ℤ
times64 a zero = pos 0
times64 a (suc n) = add64 (times64 a n) a

pub record QuantizationProfile : Type 0 where
  pub kind : Text
  pub vram_required : ℤ
  pub data_type : Text
  pub speed : Text
  pub quality : Text

module _ (overhead : ℤ → ℤ) where
  unfoldable pub calculate_vram : ℤ → ℕ → ℤ
  unfolding times64
  calculate_vram param_count bits =
      let model_size = times64 param_count (bits / 8) in add64 model_size (overhead model_size)

  unfoldable pub get_quantization_profiles : ℤ → List QuantizationProfile
  get_quantization_profiles n =
      record {
        kind = quantization_none;
        vram_required = calculate_vram n 16;
        data_type = codes "fp16";
        speed = codes "fast";
        quality = codes "high";
      }
      ∷ record {
        kind = quantization_awq;
        vram_required = calculate_vram n 4;
        data_type = codes "int4";
        speed = codes "medium";
        quality = codes "high";
      }
      ∷ record {
        kind = quantization_gptq;
        vram_required = calculate_vram n 4;
        data_type = codes "int4";
        speed = codes "medium";
        quality = codes "medium";
      }
      ∷ record {
        kind = quantization_int8;
        vram_required = calculate_vram n 8;
        data_type = codes "int8";
        speed = codes "slow";
        quality = codes "medium";
      }
      ∷ []

  unfoldable pub vram_for_quantization : ℤ → Text → ℤ
  vram_for_quantization n q =
      if text_eq q quantization_none
      then calculate_vram n 16
      else if text_eq q quantization_awq
      then calculate_vram n 4
      else if text_eq q quantization_gptq
      then calculate_vram n 4
      else if text_eq q quantization_int8
      then calculate_vram n 8
      else calculate_vram n 16

  -- the profiles that fit into the memory
  unfoldable pub fitting : ℤ → ℤ → List QuantizationProfile
  unfolding get_quantization_profiles
  fitting available n = keep (λ p. leb_ℤ p.vram_required available) (get_quantization_profiles n)

  unfoldable pub can_fit : ℤ → ℤ → Text → Bool
  unfolding vram_for_quantization
  can_fit available n q = leb_ℤ (vram_for_quantization n q) available

abbrev pub priority_order : List Text
priority_order = quantization_awq ∷ quantization_none ∷ quantization_gptq ∷ quantization_int8 ∷ []

-- the two loops over the priorities and the fitting profiles, of which there is a first
unfoldable pub first_choice : List Text → QuantizationProfile → List QuantizationProfile → Text
first_choice [] p ps = p.kind
first_choice (q ∷ priorities) p ps =
    let later = first_choice priorities p ps in
    if any (λ r. text_eq r.kind q) (p ∷ ps) then q else later

abbrev pub choose : List QuantizationProfile → Option Text
choose [] = none
choose (p ∷ ps) = some (first_choice priority_order p ps)

unfoldable pub suggest_quantization : (ℤ → ℤ) → ℤ → ModelMetadata → Option Text
unfolding fitting
suggest_quantization overhead available metadata =
    choose (fitting overhead available metadata.parameter_count)

-- ModelFitAnalysis, without its note
pub record ModelFitAnalysis : Type 0 where
  pub model_name : Text
  pub available_vram : ℤ
  pub fitting_quantizations : List Text
  pub recommended_quant : Text
  pub required_vram : Dict ℤ

abbrev pub text_or_empty : Option Text → Text
text_or_empty none = []
text_or_empty (some t) = t

unfoldable pub analyze_model_fit : (ℤ → ℤ) → ℤ → ModelMetadata → ModelFitAnalysis
unfolding suggest_quantization
analyze_model_fit overhead available metadata = record {
  model_name = metadata.name;
  available_vram = available;
  fitting_quantizations = map (λ p. p.kind) (fitting overhead available metadata.parameter_count);
  recommended_quant = text_or_empty (suggest_quantization overhead available metadata);
  required_vram =
      map (λ p. (p.kind, p.vram_required))
        (get_quantization_profiles overhead metadata.parameter_count);
}
