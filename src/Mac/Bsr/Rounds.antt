-- ===== src/Mac/Bsr/Rounds.antt =====
-- ue/src/mac/proc_bsr.cc: the report, and what the MAC calls every TTI and on every grant.
use srs_ue.Prelude.{
  ℕ, zero, suc, ◌+◌, ◌%◌, Bool, true, false, not, ◌&&◌, ◌||◌, List, [], ◌∷◌, Option, none, some,
  ltb, leb, ◌==◌, if◌then◌else◌, get_or, set, replicate, u32, sub_u32,
}
use srs_ue.Prelude.Int.{ℤ, pos, negsuc}
use srs_ue.Common.Timers
use srs_ue.Common.Timers.{Timer}
use srs_ue.Mac.Bsr.Defs.{
  Trigger, idle, regular, padding, periodic, Format, long_bsr, short_bsr, trunc_bsr, Report, Bsr,
  unset, is_set, find_max_priority_lcid, check_highest_channel, check_single_channel,
  update_pending_data,
}

-- `bsr->buff_size[lcg[i]] += n`.
abbrev pub add_at : ℤ → ℕ → List ℕ → List ℕ
add_at (pos k) n sizes = set sizes k (u32 (get_or sizes k 0 + n))
add_at (negsuc k) n sizes = sizes

-- `buff_size[i] = 0` for every group but `keep`.
abbrev pub clear_others : ℤ → ℕ → List ℕ → List ℕ
clear_others keep i [] = []
clear_others (pos k) i (s ∷ ss) = (if k == i then s else 0) ∷ clear_others (pos k) (i + 1) ss
clear_others (negsuc k) i (s ∷ ss) = 0 ∷ clear_others (negsuc k) (i + 1) ss

-- `QUEUE_STATUS_PERIOD_MS`.
abbrev pub queue_status_period_ms : ℕ
queue_status_period_ms = 500

-- `sch_pdu::size_header_sdu`.
unfoldable pub size_header_sdu : ℕ → ℕ
size_header_sdu nbytes = if ltb nbytes 128 then 2 else 3

-- One timer of `step`: configured anew when RRC changed its value.
unfoldable pub configure_timer : ℕ → ℤ → Timer → Timer
configure_timer me (pos value) t =
    if not (value == t.timeout) && ltb 0 value then Timers.run (Timers.configure me value t) else t
configure_timer me (negsuc n) t = t

module _ (rlc : ℕ → ℕ) where
  -- The group totals, and the number of channels with data.
  unfoldable pub report_rounds : List ℤ → ℕ → List ℕ × ℕ → List ℕ × ℕ
  report_rounds [] i found = found
  report_rounds (l ∷ ls) i (sizes, nof_lcg) =
      report_rounds ls (i + 1)
        (add_at l (rlc i) sizes, if is_set l && ltb 0 (rlc i) then nof_lcg + 1 else nof_lcg)

  -- The flag is the return value: some channel has data.
  unfoldable pub generate_bsr : Bsr → ℕ → Report × Bool
  unfolding report_rounds find_max_priority_lcid
  generate_bsr b nof_padding_bytes =
      let (sizes, nof_lcg) = report_rounds b.lcg 0 (replicate 4 0, 0) in
      let truncated : List ℕ =
        clear_others (get_or b.lcg (find_max_priority_lcid b) unset) 0 sizes in
      let plain : Report = record {
        format = if ltb 1 nof_lcg then long_bsr else short_bsr;
        buff_size = sizes;
      } in
      let report : Report = elim b.triggered [
        | padding ↦
            if ltb nof_padding_bytes 4
            then if ltb 1 nof_lcg
              then record { format = trunc_bsr; buff_size = truncated }
              else record { format = short_bsr; buff_size = sizes }
            else record { format = long_bsr; buff_size = sizes }
        | _ ↦ plain
      ] in
      (report, ltb 0 nof_lcg)

  -- `me` names this object among the callbacks.
  unfoldable pub step : ℕ → ℤ → ℤ → ℕ → Bsr → Bsr
  unfolding configure_timer
  step me cfg_periodic cfg_retx tti b =
      if not b.initiated
      then b
      else let configured : Bsr = record b {
        timer_periodic = configure_timer me cfg_periodic b.timer_periodic;
        timer_retx = configure_timer me cfg_retx b.timer_retx;
      } in
        let single : Bsr = elim b.triggered [
          | idle ↦ (check_single_channel rlc configured).0
          | _ ↦ configured
        ] in
        let updated = update_pending_data rlc (check_highest_channel rlc single).0 in
        if ltb queue_status_period_ms (sub_u32 tti b.last_print % 10240)
        then record updated { last_print = tti }
        else updated

  -- The bytes that the channels want, with their headers, as far as the loop goes.
  unfoldable pub wanted_rounds : ℕ → ℕ → ℕ → ℕ → ℕ
  unfolding size_header_sdu
  wanted_rounds grant zero i total = total
  wanted_rounds grant (suc n) i total =
      if ltb total grant
      then wanted_rounds grant n (i + 1) (u32 (total + u32 (size_header_sdu (rlc i) + rlc i)))
      else total

  abbrev pub is_long : Format → Bool
  is_long long_bsr = true
  is_long _ = false

  abbrev pub is_trunc : Format → Bool
  is_trunc trunc_bsr = true
  is_trunc _ = false

  -- The restart of the periodic timer, unless the report is truncated.
  unfoldable pub restart_periodic : Report → Bsr → Bsr
  restart_periodic report b =
      if not (b.timer_periodic.timeout == 0) && not (is_trunc report.format)
      then record b { timer_periodic = Timers.run (Timers.reset b.timer_periodic) }
      else b

  -- The part for a pending Periodic or Regular BSR: `total_data` is an `int` that is compared with
  -- unsigned numbers, so it is kept as its bits.
  unfoldable pub grant_report : ℕ → Bsr → Bsr × Bool × Option Report
  unfolding wanted_rounds generate_bsr restart_periodic
  grant_report grant b =
      let total = sub_u32 (wanted_rounds grant 6 0 0) 1 in
      let report = (generate_bsr b 0).0 in
      let bsr_sz = if is_long report.format then 3 else 1 in
      (
        restart_periodic report b,
        not (leb total grant && ltb grant (u32 (total + 1 + bsr_sz))),
        some report,
      )

  -- The report is `none` where the caller's structure is not written.
  unfoldable pub need_to_send_bsr_on_ul_grant : ℕ → Bsr → Bsr × Bool × Option Report
  unfolding grant_report
  need_to_send_bsr_on_ul_grant grant b =
      let (b', ret, report) = elim b.triggered as (λ _. Bsr × Bool × Option Report) [
        | periodic ↦ grant_report grant b
        | regular ↦ grant_report grant b
        | _ ↦ (b, false, none)
      ] in
      let cancelled = record b' { triggered = idle; reset_sr = true } in
      (
        if not (b'.timer_retx.timeout == 0)
            then record cancelled { timer_retx = Timers.run (Timers.reset b'.timer_retx) }
            else cancelled,
        ret,
        report,
      )

  abbrev pub is_idle : Trigger → Bool
  is_idle idle = true
  is_idle _ = false

  unfoldable pub pad_report : ℕ → Bsr → Bsr × Option Report
  unfolding generate_bsr restart_periodic
  pad_report nof_padding_bytes b =
      let report = (generate_bsr b nof_padding_bytes).0 in (restart_periodic report b, some report)

  unfoldable pub generate_padding_bsr : ℕ → Bsr → Bsr × Option Report
  unfolding pad_report
  generate_padding_bsr nof_padding_bytes b =
      if not (is_idle b.triggered) || leb 2 nof_padding_bytes
      then pad_report nof_padding_bytes
          (if is_idle b.triggered then record b { triggered = padding } else b)
      else (b, none)

-- The numbers of the two timers in mac.h.
abbrev pub bsr_timer_periodic : ℕ
bsr_timer_periodic = 3

abbrev pub bsr_timer_retx : ℕ
bsr_timer_retx = 4

unfoldable pub timer_expired : ℤ → ℕ → Bsr → Bsr
timer_expired cfg_periodic timer_id b =
    if timer_id == bsr_timer_periodic
    then elim b.triggered [ idle ↦ record b { triggered = periodic } | _ ↦ b ]
    else if timer_id == bsr_timer_retx && is_set cfg_periodic
    then record b { triggered = regular; sr_is_sent = false }
    else b

unfoldable pub need_to_reset_sr : Bsr → Bsr × Bool
need_to_reset_sr b =
    if b.reset_sr then (record b { reset_sr = false; sr_is_sent = false }, true) else (b, false)

abbrev pub is_regular : Trigger → Bool
is_regular regular = true
is_regular _ = false

-- `tti_interval` is `srslte_tti_interval` of the srsLTE library.
unfoldable pub need_to_send_sr : (ℕ → ℕ → ℕ) → ℕ → Bsr → Bsr × Bool
need_to_send_sr tti_interval tti b =
    if not b.sr_is_sent && is_regular b.triggered
    then if ltb 0 (tti_interval tti b.next_tx_tti) && ltb (tti_interval tti b.next_tx_tti) 10236
      then (record b { reset_sr = false; sr_is_sent = true }, true)
      else (b, false)
    else (b, false)
