-- ===== src/Engine/Persistence.antt =====
-- What a process finds in running_models.json of the one before it.
use sovereignstack.Prelude.{
  ◌≡◌, refl, ap, sym, ◌∙◌, true, false, List, [], ◌∷◌, Option, none, some, arith, All,
  if◌then◌else◌, ok, Bool-cases, inl, inr, is_empty, Option-cases,
}
use sovereignstack.Text.{Text, text_eq, text_eq_iff}
use sovereignstack.Dict.{Dict, get, put, get-put, get-remove_self}
use sovereignstack.Int64.{ℤ, pos}
use sovereignstack.Models.Manager.{Manager}
use sovereignstack.Engine.{
  ModelInstance, RunningModelRecord, Json, record_of, instance_of, records_of, save_running_models,
  add_records, models_of, load_running_models, EngineRoom, Outside, stop_model, container_of,
  complete, new_engine_room,
}

-- Decoding undoes encoding.
pub record JsonLaws (j : Json) : Type 0 where
  pub unmarshal-marshal :
      (records : List RunningModelRecord) (content : Text)
      → j.marshal records ≡ some content
      → j.unmarshal content ≡ some records

-- an instance as the engine makes one: under its name, with its container's id for its own, on the
-- first GPU, and with its memory not measured
pub record IsRecorded (en : Text × ModelInstance) : Type 0 where
  pub named : en.1.model_name ≡ en.0
  pub identified : en.1.id ≡ en.1.container_id
  pub first_gpu : en.1.gpu_index ≡ 0
  pub unmeasured : en.1.vram_used ≡ pos 0

instance_of-record_of :
    (en : Text × ModelInstance) → IsRecorded en → instance_of (record_of en.1) ≡ en.1
instance_of-record_of (name, m) r =
    ap (λ i. record m { id = i; gpu_index = 0; vram_used = pos 0 }) (sym r.identified)
    ∙ ap (λ g. record m { gpu_index = g; vram_used = pos 0 }) (sym r.first_gpu)
    ∙ ap (λ v. record m { vram_used = v }) (sym r.unmeasured)

-- no two entries of a map have one key
abbrev pub IsMap {ℓ} : {V : Type ℓ} → Dict V → Type ℓ
IsMap [] = Unit
IsMap ((k, v) ∷ d) = (get d k ≡ none) × IsMap d

-- the instance of a model, or what was there before
abbrev or_else : Option ModelInstance → Option ModelInstance → Option ModelInstance
or_else none before = before
or_else (some model) before = some model

get-add_records :
    (models seen : Dict ModelInstance) (name : Text)
    → All IsRecorded models
    → IsMap models
    → get (add_records (records_of models) seen) name ≡ or_else (get models name) (get seen name)
unfolding get
get-add_records [] seen name recorded distinct = refl
get-add_records ((k, model) ∷ models) seen name recorded distinct =
    let restored = instance_of-record_of (k, model) recorded.0 in
    let named = recorded.0.named in
    let others = recorded.1 in
    let later =
      get-add_records models (put seen model.model_name (instance_of (record_of model))) name others
        distinct.1 in
    let added = get-put seen model.model_name (instance_of (record_of model)) name in
    let next = put seen model.model_name (instance_of (record_of model)) in
    elim (Bool-cases (text_eq k name)) [
      | inl equal ↦
          let same : k ≡ name = ground (arith, text_eq_iff k name) in
          let alone : get models name ≡ none = ap (get models) (sym same) ∙ distinct.0 in
          let here : text_eq model.model_name name ≡ true =
            ap (λ t. text_eq t name) named ∙ equal in
          let stored : get next name ≡ some model =
            added
            ∙ ap (λ b. if b then some (instance_of (record_of model)) else get seen name) here
            ∙ ap some restored in
          rw equal (later ∙ ap (λ o. or_else o (get next name)) alone ∙ stored)
      | inr other ↦
          let there : text_eq model.model_name name ≡ false =
            ap (λ t. text_eq t name) named ∙ other in
          let kept : get next name ≡ get seen name =
            added
            ∙ ap (λ b. if b then some (instance_of (record_of model)) else get seen name) there in
          rw other (later ∙ ap (or_else (get models name)) kept)
    ]

-- With a JSON that decodes what it encodes, the models that one process saved are those that the next
-- one starts with, where the file could be written and each instance is as the engine makes it: under
-- its name, once, with its container's id for its own, on the first GPU, its memory not measured.
pub load_running_models-save :
    (j : Json) (laws : JsonLaws j) (models : Dict ModelInstance) (before : Option Text)
    (name : Text)
    → All IsRecorded models
    → IsMap models
    → (save_running_models j complete models before).0 ≡ true
    → get (load_running_models j (save_running_models j complete models before).1) name
      ≡ get models name
unfolding save_running_models load_running_models get
load_running_models-save j laws models before name recorded distinct saved =
    elim (Option-cases (j.marshal (records_of models))) [
      | inl failed ↦ absurd (ground arith)
      | inr (content, encoded) ↦
          let file : (save_running_models j complete models before).1 ≡ some content =
            rw (save_running_models, encoded) refl in
          let decoded : models_of (j.unmarshal content) ≡ add_records (records_of models) [] =
            ap models_of (laws.unmarshal-marshal (records_of models) content encoded) in
          ap (λ f. get (load_running_models j f) name) file
          ∙ ap (λ d. get d name) decoded
          ∙ get-add_records models [] name recorded distinct
          ∙ or_else-none (get models name)
    ]
  where
    or_else-none : (o : Option ModelInstance) → or_else o none ≡ o
    or_else-none none = refl
    or_else-none (some model) = refl

stop_model-saved :
    (out : Outside) (name : Text) (er : EngineRoom)
    → (stop_model out name er).0 ≡ ok tt
    → (get (stop_model out name er).1.running_models name ≡ none)
      × ((stop_model out name er).1.saved ≡ er.saved)
unfolding stop_model
stop_model-saved out name er stopped = elim (Option-cases out.listed) [
  | inl unknown ↦ absurd (ground arith)
  | inr (listed, found) ↦ elim (Bool-cases (is_empty (container_of name listed))) [
    | inl absent ↦ absurd (ground arith)
    | inr present ↦ elim (Bool-cases out.stops) [
      | inr failed ↦ absurd (ground arith)
      | inl stops ↦ rw (found, present, stops) (get-remove_self er.running_models name, refl)
    ]
  ]
]

-- Where running_models.json is what the engine wrote for the models it runs, a model that is stopped
-- comes back: it is gone from the memory of this process, and the next process starts with the
-- instance of it that ran before the stop.
pub stop_model-reloads :
    (j : Json) (laws : JsonLaws j) (out : Outside) (name : Text) (er : EngineRoom)
    (before : Option Text) (manager : Manager) (available : ℤ)
    → All IsRecorded er.running_models
    → IsMap er.running_models
    → (save_running_models j complete er.running_models before).0 ≡ true
    → er.saved ≡ (save_running_models j complete er.running_models before).1
    → (stop_model out name er).0 ≡ ok tt
    → (get (stop_model out name er).1.running_models name ≡ none)
      × (get
            (new_engine_room j manager available (stop_model out name er).1.saved).running_models
            name
          ≡ get er.running_models name)
unfolding new_engine_room
stop_model-reloads j laws out name er before manager available recorded distinct saved kept
      stopped =
    let (gone, same) = stop_model-saved out name er stopped in
    (
      gone,
      ap (λ f. get (load_running_models j f) name) (same ∙ kept)
          ∙ load_running_models-save j laws er.running_models before name recorded distinct saved,
    )
