-- ===== src/Mac/Sr.antt =====
-- ue/src/mac/proc_sr.cc: the scheduling request procedure. What the PHY answers and what RRC has
-- configured are the argument `Env` of each step; the calls to them are the actions returned.
pub mod Limit
use srs_ue.Prelude.{
  ℕ, ◌+◌, ◌-◌, Bool, true, false, not, ◌&&◌, ◌||◌, List, [], ◌∷◌, ltb, ◌==◌, if◌then◌else◌, u32,
  sub_u32,
}
use srs_ue.Prelude.Int.{ℤ, pos, negsuc}

pub record Sr : Type 0 where
  pub initiated : Bool
  pub is_pending_sr : Bool
  pub do_ra : Bool
  pub sr_counter : ℕ
  pub dsr_transmax : ℕ

-- `phy_h->sr_last_tx_tti()`, -1 for none, and `mac_cfg->sr.setup_present`.
pub record Env : Type 0 where
  pub tti : ℕ
  pub last_tx_tti : ℤ
  pub setup_present : Bool

pub data Action : Type 0 where
  sr_send release_pucch_srs : Action

unfoldable pub init : Sr → Sr
init s = record s { initiated = true; do_ra = false }

unfoldable pub reset : Sr → Sr
reset s = record s { is_pending_sr = false }

-- `tti` and the last one count modulo 10240.
unfoldable pub need_tx : ℕ → ℤ → Bool
need_tx tti (negsuc n) = false
need_tx tti (pos last) =
    if ltb last tti then ltb 8 (tti - last) else ltb 8 (u32 (sub_u32 10240 last + tti)) && ltb tti 8

unfoldable pub step : Env → Sr → Sr × List Action
unfolding need_tx reset
step e s =
    if s.initiated && s.is_pending_sr
    then if e.setup_present
      then if ltb s.sr_counter s.dsr_transmax
        then if (s.sr_counter == 0) || need_tx e.tti e.last_tx_tti
          then (record s { sr_counter = u32 (s.sr_counter + 1) }, sr_send ∷ [])
          else (s, [])
        else if need_tx e.tti e.last_tx_tti
        then (record s { do_ra = true; is_pending_sr = false }, release_pucch_srs ∷ [])
        else (s, [])
      else (reset (record s { do_ra = true }), [])
    else (s, [])

unfoldable pub need_random_access : Sr → Sr × Bool
need_random_access s =
    if s.initiated && s.do_ra then (record s { do_ra = false }, true) else (s, false)

-- `cfg_transmax` is the number of the configured `dsr_trans_max`.
unfoldable pub start : ℕ → Sr → Sr
start cfg_transmax s =
    if s.initiated
    then if s.is_pending_sr
      then record s { dsr_transmax = cfg_transmax }
      else record s { sr_counter = 0; is_pending_sr = true; dsr_transmax = cfg_transmax }
    else s
