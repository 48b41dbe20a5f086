-- ===== src/Agent/Report/Severities.antt =====
-- The greatest severity of a list of incidents.
use mathlib.Core.Path.{subst}
use jim_tf.Base.{
  sym, true, false, ◌≤◌, ◌≡◌, refl, ◌⊎◌, inl, inr, String, List, [], ◌∷◌, map, All, get_or, ltb,
  Bool-cases, arith, contains, string_key,
}
use jim_tf.Agent.Report.{Incident, rank, max_severity_from}

-- The severity that an incident counts with.
abbrev pub severity_of : Incident → String
severity_of inc = get_or inc.severity "INFO"

takes_more :
    (best : String) (inc : Incident) (incidents : List Incident)
    → ltb (rank best) (rank (severity_of inc)) ≡ true
    → max_severity_from best (inc ∷ incidents) ≡ max_severity_from (severity_of inc) incidents
unfolding max_severity_from
takes_more best inc incidents more = rw more

keeps_best :
    (best : String) (inc : Incident) (incidents : List Incident)
    → ltb (rank best) (rank (severity_of inc)) ≡ false
    → max_severity_from best (inc ∷ incidents) ≡ max_severity_from best incidents
unfolding max_severity_from
keeps_best best inc incidents less = rw less

-- `m` has a rank at least that of `best` and of each incident.
abbrev Tops : String → List Incident → String → Type 0
Tops best incidents m =
    (rank best ≤ rank m) × All (λ inc. rank (severity_of inc) ≤ rank m) incidents

above :
    (best : String) (incidents : List Incident)
    → Tops best incidents (max_severity_from best incidents)
above best [] = (unfold max_severity_from in omega arith, tt)
above best (inc ∷ incidents) = elim (Bool-cases (ltb (rank best) (rank (severity_of inc)))) [
  | inl more ↦
      let h = above (severity_of inc) incidents in
      subst (Tops best (inc ∷ incidents)) (sym (takes_more best inc incidents more))
        ((ground (arith, h.0)), (h.0, h.1))
  | inr less ↦
      let h = above best incidents in
      subst (Tops best (inc ∷ incidents)) (sym (keeps_best best inc incidents less))
        (h.0, ((ground (arith, h.0)), h.1))
]

attained :
    (best : String) (incidents : List Incident)
    → (max_severity_from best incidents ≡ best)
      ⊎ (contains (map severity_of incidents) (max_severity_from best incidents) ≡ true)
unfolding max_severity_from
attained best [] = inl refl
attained best (inc ∷ incidents) = elim (Bool-cases (ltb (rank best) (rank (severity_of inc)))) [
  | inl more ↦ rw more (elim (attained (severity_of inc) incidents) [
    | inl e ↦ inr (
        ground (
          arith,
          string_key.equal_iff (max_severity_from (severity_of inc) incidents) (severity_of inc),
          e,
        ))
    | inr e ↦ inr (ground arith)
  ])
  | inr less ↦
      rw less (elim (attained best incidents) [ inl e ↦ inl e | inr e ↦ inr (ground arith) ])
]

-- The severity of a report has a rank that no incident's severity exceeds, and is "INFO" or the
-- severity of an incident.
pub max_severity-IsHighest :
    (incidents : List Incident)
    → All (λ inc. rank (severity_of inc) ≤ rank (max_severity_from "INFO" incidents)) incidents
      × ((max_severity_from "INFO" incidents ≡ "INFO")
          ⊎ (contains (map severity_of incidents) (max_severity_from "INFO" incidents) ≡ true))
max_severity-IsHighest incidents = ((above "INFO" incidents).1, attained "INFO" incidents)
