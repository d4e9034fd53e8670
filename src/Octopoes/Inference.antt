-- ===== src/Octopoes/Inference.antt =====
-- octopoes/octopoes/core/service.py: _run_inference. Each of its branches ends in save_origin.
use nl_kat_coordination.Prelude.{
  ℕ, String, List, [], ◌∷◌, any_of, keep, none, some, Bool, ◌||◌, ◌&&◌, not, ltb, str_eq,
  if◌then◌else◌,
}
use nl_kat_coordination.Octopoes.Recalculation.{profile_of}
use nl_kat_coordination.Octopoes.Origins.{Ooi, Origin, OriginId, OriginParameter, id, member}
use nl_kat_coordination.Octopoes.Session.{Store, unchanged, Outcome, failed, Failure}
use nl_kat_coordination.Octopoes.Repositories.{get_object, list_by_origin}
use nl_kat_coordination.Octopoes.Service.{save_origin}
use nl_kat_coordination.Octopoes.Bits.{BitDefinition, Config, Environment, bit_with}

-- What a run of a bit is to save, or what is raised
pub data Inferred : Type 0 where
  inferred : List Ooi → Inferred
  raised : Failure → Inferred

module _ (env : Environment) where
  unfoldable pub is_disabled : BitDefinition → Bool
  is_disabled b =
      member b.id env.bits_disabled || (not b.default_enabled && not (member b.id env.bits_enabled))

  abbrev pub level_or_zero : Store → OriginId → ℕ
  level_or_zero s (t, m, n, source) = elim (profile_of source s.profiles) [
    | none ↦ 0
    | some p ↦ p.level
  ]

  -- `configs[-1].config`, or `{}`
  unfoldable pub last_config : List Config → Config
  last_config [] = []
  last_config (c ∷ cs) = elim cs [ [] ↦ c | _ ∷ _ ↦ last_config cs ]

  unfoldable pub config_for : Store → Ooi → BitDefinition → Config
  unfolding last_config
  config_for s source b = elim b.config_ooi_relation_path [
    | none ↦ []
    | some path ↦ last_config (env.get_bit_configs s source b)
  ]

  -- load_bulk_as_list of the references of the origin's parameters
  unfoldable pub load_parameters : Store → OriginId → List Ooi
  load_parameters s k =
      keep
        (λ (o : Ooi).
          any_of (λ (p : OriginParameter). str_eq p.reference o.reference)
            (list_by_origin k s.parameters))
        s.objects

  run : Store → OriginId → BitDefinition → Ooi → Inferred
  unfolding config_for load_parameters
  run s k b source = elim (env.run_bit b source (load_parameters s k) (config_for s source b)) [
    | none ↦ raised Failure.bit_failed
    | some oois ↦ inferred oois
  ]

  abbrev pub source_of : OriginId → String
  source_of (t, m, n, source) = source

  abbrev pub method_of : OriginId → String
  method_of (t, m, n, source) = m

  abbrev pub is_below : Store → OriginId → BitDefinition → Bool
  is_below s k b = ltb (level_or_zero s k) b.min_scan_level

  unfoldable pub run_on_source : Store → OriginId → BitDefinition → Inferred
  unfolding run get_object
  run_on_source s k b = elim (get_object (source_of k) s.objects) [
    | none ↦ raised Failure.object_not_found
    | some source ↦ run s k b source
  ]

  unfoldable pub run_bit_at : Store → OriginId → BitDefinition → Inferred
  unfolding is_disabled run_on_source
  run_bit_at s k b =
      if is_disabled b
      then inferred []
      else if is_below s k b
      then inferred []
      else run_on_source s k b

  unfoldable pub infer : Store → OriginId → Inferred
  unfolding run_bit_at bit_with
  infer s k = elim (bit_with (method_of k) env.bit_definitions) [
    | none ↦ inferred []
    | some b ↦ run_bit_at s k b
  ]

  unfoldable pub save_inferred : Store → Origin → Inferred → Outcome
  unfolding save_origin
  save_inferred s o (raised f) = failed f unchanged
  save_inferred s o (inferred oois) = save_origin s o oois

  unfoldable pub run_inference : Store → Origin → Outcome
  unfolding infer save_inferred
  run_inference s o = save_inferred s o (infer s (id o))
