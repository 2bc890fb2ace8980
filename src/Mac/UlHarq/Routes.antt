-- ===== src/Mac/UlHarq/Routes.antt =====
-- ue/src/mac/ul_harq.cc: the entity, which routes grants and feedback to its processes.
use srs_ue.Prelude.{
  ℕ, ◌+◌, ◌-◌, ◌%◌, Bool, ◌&&◌, ◌||◌, List, [], map, Option, none, some, ltb, leb, ◌==◌,
  if◌then◌else◌, get_elem?, set, u32,
}
use srs_ue.Mac.UlHarq.Defs.{
  Codes, Grant, Process, Transmission, Effect, Env, reset, reset_ndi, set_harq_feedback, run_tti,
  get_current_tbs,
}

-- The eight processes; the average of the retransmissions is not kept.
abbrev pub Entity : Type 0
Entity = List Process

unfoldable pub pidof : ℕ → ℕ
pidof tti = tti % 8

unfoldable pub reset_all : Entity → Entity
reset_all ps = map reset ps

unfoldable pub reset_ndi_all : Entity → Entity
reset_ndi_all ps = map reset_ndi ps

-- The TTI four before, around the end of the 10240 TTIs.
abbrev pub tti_harq : ℕ → ℕ
tti_harq tti = if ltb tti 4 then tti + 10240 - 4 else tti - 4

unfoldable pub current_tbs : ℕ → Entity → Option ℕ
unfolding pidof
current_tbs tti ps = elim (get_elem? ps (pidof (tti_harq tti))) [
  | none ↦ none
  | some p ↦ some (get_current_tbs p)
]

-- Feedback for a process with a grant that was not sent after that TTI.
abbrev pub feedback : ℕ → Bool → Process → Process
feedback sent_at ack p =
    if p.is_grant_configured && leb p.tti_last_tx sent_at then set_harq_feedback ack p else p

unfoldable pub set_ack : ℕ → Bool → Entity → Entity
unfolding pidof
set_ack tti ack ps = elim (get_elem? ps (pidof (tti_harq tti))) [
  | none ↦ ps
  | some p ↦ set ps (pidof (tti_harq tti)) (feedback (tti_harq tti) ack p)
]

abbrev pub Step : Type 0
Step = Entity × Option Transmission × List Effect

unfoldable pub run_entity : Codes → Env → ℕ → Option Grant → Entity → Step
unfolding pidof
run_entity codes e tti grant ps =
    let tti_tx = u32 (tti + 4) % 10240 in
    elim (get_elem? ps (pidof tti_tx)) [
      | none ↦ (ps, none, [])
      | some p ↦
          let (p', tx, effects) = run_tti codes e tti_tx grant p in
          (set ps (pidof tti_tx) p', tx, effects)
    ]

unfoldable pub harq_recv : Codes → Env → ℕ → Bool → Entity → Step
unfolding set_ack run_entity
harq_recv codes e tti ack ps = run_entity codes e tti none (set_ack tti ack ps)

abbrev pub with_ndi : Bool → Grant → Grant
with_ndi b g = record g { ndi = b }

-- No process is a semi-persistent one: `is_sps` is false.
unfoldable pub new_grant_ul : Codes → Env → Grant → Entity → Step
unfolding pidof run_entity
new_grant_ul codes e g ps =
    if (g.rnti_type == codes.user) || (g.rnti_type == codes.temp) || (g.rnti_type == codes.rar)
    then run_entity codes e g.tti (some g) ps
    else if (g.rnti_type == codes.sps) && g.ndi
    then elim (get_elem? ps (pidof g.tti)) [
      | none ↦ (ps, none, [])
      | some p ↦ run_entity codes e g.tti (some (with_ndi p.ndi g)) ps
    ]
    else (ps, none, [])

unfoldable pub new_grant_ul_ack : Codes → Env → Grant → Bool → Entity → Step
unfolding set_ack new_grant_ul
new_grant_ul_ack codes e g ack ps = new_grant_ul codes e g (set_ack g.tti ack ps)
