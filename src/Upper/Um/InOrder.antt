-- ===== src/Upper/Um/InOrder.antt =====
-- A PDU that arrives in order, when none is waiting.
use srs_ue.Prelude.{
  ℕ, zero, suc, ◌+◌, ◌-◌, ◌%◌, ◌≤◌, ◌<◌, ◌≡◌, refl, ◌⊎◌, inl, inr, true, false, not, ◌&&◌, List, [],
  ◌∷◌, ◌++◌, append-nil, Option, none, some, ltb, leb, ◌==◌, length, drop, arith, sub_u32,
}
use srs_ue.Upper.UmHeader.{Header, packed_length, end_aligned, read_data_pdu_header}
use srs_ue.Upper.Um.Send.{part_of, is_some}
use srs_ue.Upper.Um.Receive.{
  Pdu, Rx, rx_mod_base, inside_reordering_window, find, erase, take_pdu, advance, catch_up,
  take_ready, reassemble_rx_sdus, start_reordering, update_timers, is_discarded, store_pdu,
  handle_data_pdu,
}
use srs_ue.Upper.Um.Joined.{sum, joined}
use srs_ue.Upper.Um.Fits.{pending, Continues}
use srs_ue.Upper.Um.Stream.{IsClean, take_pdu-joined}

-- The modulus and the window of one of the two sizes.
abbrev pub IsRing : ℕ → ℕ → Type 0
IsRing m w = ((m ≡ 32) × (w ≡ 16)) ⊎ ((m ≡ 1024) × (w ≡ 512))

pub base_level : (m w h : ℕ) → IsRing m w → h < m → sub_u32 (sub_u32 h h) w % m ≡ w
base_level m w h (inl k) l = rw (k.0, k.1) (omega arith)
base_level m w h (inr k) l = rw (k.0, k.1) (omega arith)

pub base-low : (m w h : ℕ) → IsRing m w → h < m → sub_u32 (sub_u32 (sub_u32 h w) h) w % m ≡ 0
base-low m w h (inl k) l = rw (k.0, k.1) (omega arith)
base-low m w h (inr k) l = rw (k.0, k.1) (omega arith)

base-before : (m w h : ℕ) → IsRing m w → h < m → sub_u32 (sub_u32 h ((h + 1) % m)) w % m ≡ w - 1
base-before m w h (inl k) l = rw (k.0, k.1) (omega arith)
base-before m w h (inr k) l = rw (k.0, k.1) (omega arith)

pub base-next : (m w h : ℕ) → IsRing m w → (h + 1) % m < m
base-next m w h (inl k) = rw k.0 (omega arith)
base-next m w h (inr k) = rw k.0 (omega arith)

-- All that was received is taken.
pub record IsIdle (r : Rx) : Type 0 where
  pub ring : IsRing r.rx_mod r.rx_window_size
  pub low : r.vr_uh < r.rx_mod
  pub level : r.vr_ur ≡ r.vr_uh
  pub empty : r.rx_window ≡ []
  pub clean : IsClean r

pub catch_up-inside :
    (n : ℕ) (r : Rx) → inside_reordering_window r r.vr_ur ≡ true → catch_up n r ≡ (r, [])
unfolding catch_up
catch_up-inside zero r e = refl
catch_up-inside (suc n) r e = rw e refl

-- With the next PDU in the window.
abbrev stored : Header → List ℕ → Rx → Rx
stored h bytes r = record r {
  rx_window = (r.vr_uh, record { header = h; payload = bytes }) ∷ [];
  vr_uh = (r.vr_uh + 1) % r.rx_mod;
}

store_pdu-IsIdle :
    (h : Header) (payload : List ℕ) (r : Rx)
    → IsIdle r
    → h.sn ≡ r.vr_uh
    → store_pdu h payload r ≡ stored h (drop (packed_length h) payload) r
unfolding store_pdu inside_reordering_window rx_mod_base
store_pdu-IsIdle h payload r v e =
    let outside : (leb 0 r.rx_window_size && ltb r.rx_window_size r.rx_window_size) ≡ false =
      ground arith in
    rw
      (
        e,
        v.empty,
        base_level r.rx_mod r.rx_window_size r.vr_uh v.ring v.low,
        base-low r.rx_mod r.rx_window_size r.vr_uh v.ring v.low,
        outside,
      )
      refl

is_discarded-IsIdle : (sn : ℕ) (r : Rx) → IsIdle r → sn ≡ r.vr_uh → is_discarded sn r ≡ false
unfolding is_discarded rx_mod_base find
is_discarded-IsIdle sn r v e =
    rw (e, v.empty, v.level, base_level r.rx_mod r.rx_window_size r.vr_uh v.ring v.low)
      (ground arith)

stored-inside :
    (h : Header) (bytes : List ℕ) (r : Rx)
    → IsIdle r
    → inside_reordering_window (stored h bytes r) r.vr_ur ≡ true
unfolding inside_reordering_window rx_mod_base
stored-inside h bytes r v =
    let next : (r.vr_uh + 1) % r.rx_mod < r.rx_mod =
      base-next r.rx_mod r.rx_window_size r.vr_uh v.ring in
    let room : 0 < r.rx_window_size = ground arith in
    rw
      (
        v.level,
        base-before r.rx_mod r.rx_window_size r.vr_uh v.ring v.low,
        base_level r.rx_mod r.rx_window_size ((r.vr_uh + 1) % r.rx_mod) v.ring next,
        base-low r.rx_mod r.rx_window_size ((r.vr_uh + 1) % r.rx_mod) v.ring next,
      )
      (ground arith)

-- What a PDU in order does; `rest` is the rest of its last SDU.
abbrev pub Taken :
    Rx → Header → List ℕ → Option (List ℕ) → List (List ℕ) → Rx × List (List ℕ) → Type 0
Taken r h bytes o q (r', sdus) =
    IsIdle r'
    × (r'.rx_sn_field_length ≡ r.rx_sn_field_length)
    × (r'.rx_mod ≡ r.rx_mod)
    × (r'.vr_uh ≡ (r.vr_uh + 1) % r.rx_mod)
    × (r'.overran ≡ r.overran)
    × Continues o r'.rx_sdu
    × (sdus ++ pending r'.rx_sdu o q ≡ joined r.rx_sdu h.li bytes (part_of o) ++ q)

pub take_ready-found :
    (n : ℕ) (p : Pdu) (r : Rx)
    → find r.vr_ur r.rx_window ≡ some p
    → let (r', now) = take_pdu p r in
      let (r'', later) = take_ready n (advance r') in take_ready (suc n) r ≡ (r'', now ++ later)
unfolding take_ready
take_ready-found n p r e = rw (take_ready, e) refl

pub take_ready-missing :
    (n : ℕ) (r : Rx) → find r.vr_ur r.rx_window ≡ none → take_ready n r ≡ (r, [])
unfolding take_ready
take_ready-missing zero r e = refl
take_ready-missing (suc n) r e = rw (take_ready, e) refl

stored-Taken :
    (h : Header) (bytes at : List ℕ) (now : List (List ℕ)) (o : Option (List ℕ)) (q : List (List ℕ))
    (r : Rx)
    → IsIdle r
    → Continues o at
    → now ++ pending at o q ≡ joined r.rx_sdu h.li bytes (part_of o) ++ q
    → let r' =
        advance
          (record (stored h bytes r) { rx_sdu = at; rx_window = []; vr_ur_in_rx_sdu = r.vr_ur }) in
      let (r'', later) = take_ready 1 r' in Taken r h bytes o q (r'', now ++ later)
unfolding advance find
stored-Taken h bytes at now o q r v c j =
    let r' : Rx = record (stored h bytes r) {
      vr_ur = (r.vr_ur + 1) % r.rx_mod;
      rx_sdu = at;
      rx_window = [];
      vr_ur_in_rx_sdu = r.vr_ur;
    } in
    rw (take_ready-missing 1 r' refl, append-nil now)
      (
        record {
          ring = v.ring;
          low = base-next r.rx_mod r.rx_window_size r.vr_uh v.ring;
          level = rw v.level refl;
          empty = refl;
          clean = (v.clean.0, refl);
        },
        refl,
        refl,
        refl,
        refl,
        c,
        j,
      )

-- The window after the PDU is empty again.
take_ready-Taken :
    (h : Header) (bytes : List ℕ) (o : Option (List ℕ)) (q : List (List ℕ)) (r : Rx)
    → IsIdle r
    → sum h.li ≤ length bytes
    → end_aligned h.fi ≡ not (is_some o)
    → Taken r h bytes o q (take_ready 2 (stored h bytes r))
unfolding find erase
take_ready-Taken h bytes o q r v s e =
    let p : Pdu = record { header = h; payload = bytes } in
    let here : (r.vr_uh == r.vr_ur) ≡ true = ground arith in
    let out = take_pdu p (stored h bytes r) in
    let (same, c, j) = take_pdu-joined p o q (stored h bytes r) v.clean s e in
    rw (take_ready-found 1 p (stored h bytes r) (rw here refl), same, here)
      (stored-Taken h bytes out.0.rx_sdu out.1 o q r v c j)

reassemble-Taken :
    (h : Header) (bytes : List ℕ) (o : Option (List ℕ)) (q : List (List ℕ)) (r : Rx)
    → IsIdle r
    → sum h.li ≤ length bytes
    → end_aligned h.fi ≡ not (is_some o)
    → Taken r h bytes o q (reassemble_rx_sdus (stored h bytes r))
unfolding reassemble_rx_sdus
reassemble-Taken h bytes o q r v s e =
    rw (catch_up-inside r.rx_mod (stored h bytes r) (stored-inside h bytes r v))
      (take_ready-Taken h bytes o q r v s e)

-- Only the timer and `vr_ux` change.
pub update_timers_lem :
    (me : ℕ) (r : Rx)
    → let r' = update_timers me r in r' ≡ record r { timer = r'.timer; vr_ux = r'.vr_ux }
unfolding update_timers start_reordering
update_timers_lem me r = ground arith

update_timers-Taken :
    (me : ℕ) (h : Header) (bytes : List ℕ) (o : Option (List ℕ)) (q : List (List ℕ)) (r r' : Rx)
    (sdus : List (List ℕ))
    → Taken r h bytes o q (r', sdus)
    → Taken r h bytes o q (update_timers me r', sdus)
update_timers-Taken me h bytes o q r r' sdus (v, a, b, c, d, e, f) = rw (update_timers_lem me r') (
  record { ring = v.ring; low = v.low; level = v.level; empty = v.empty; clean = v.clean },
  a,
  b,
  c,
  d,
  e,
  f,
)

pub handle_data_pdu-Taken :
    (me : ℕ) (payload bytes : List ℕ) (h : Header) (o : Option (List ℕ)) (q : List (List ℕ))
    (r : Rx)
    → IsIdle r
    → read_data_pdu_header r.rx_sn_field_length payload ≡ some h
    → h.sn ≡ r.vr_uh
    → drop (packed_length h) payload ≡ bytes
    → sum h.li ≤ length bytes
    → end_aligned h.fi ≡ not (is_some o)
    → Taken r h bytes o q (handle_data_pdu me true payload r)
unfolding handle_data_pdu
handle_data_pdu-Taken me payload bytes h o q r v e n b s a =
    let out = reassemble_rx_sdus (stored h bytes r) in
    rw (handle_data_pdu, e, is_discarded-IsIdle h.sn r v n, store_pdu-IsIdle h payload r v n, b)
      (update_timers-Taken me h bytes o q r out.0 out.1 (reassemble-Taken h bytes o q r v s a))
