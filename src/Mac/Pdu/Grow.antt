-- ===== src/Mac/Pdu/Grow.antt =====
-- One more subheader behind those in use.
use srs_ue.Prelude.{
  ℕ, zero, suc, ◌+◌, ◌<◌, ◌≡◌, refl, ap, ◌∙◌, Bool, true, false, List, [], ◌∷◌, ◌++◌, append_assoc,
  append-nil, Option, none, some, ◌==◌, length, take, set, get_elem?, arith,
}
use srs_ue.Mac.Pdu.Subheader.{SchSubh, is_sdu, get_header_size}
use srs_ue.Mac.Pdu.Write.{header_sizes}
use srs_ue.Mac.Pdu.Wire.{sdus, IsSendable, AllSendable, LastSdu}
use srs_ue.Mac.Pdu.Order.{sdus-append}

-- The vector's next subheader is set.
pub take-set_next :
    (n : ℕ) (ss : List SchSubh) (s t : SchSubh)
    → get_elem? ss n ≡ some s
    → take (suc n) (set ss n t) ≡ take n ss ++ t ∷ []
take-set_next n [] s t h = cc
take-set_next zero (u ∷ ss) s t h = refl
take-set_next (suc n) (u ∷ ss) s t h = ap (◌∷◌ u) (take-set_next n ss s t h)

pub set-set : (n : ℕ) (ss : List SchSubh) (s t : SchSubh) → set (set ss n s) n t ≡ set ss n t
set-set n [] s t = refl
set-set zero (u ∷ ss) s t = refl
set-set (suc n) (u ∷ ss) s t = ap (◌∷◌ u) (set-set n ss s t)

pub lt-length : (n : ℕ) (ss : List SchSubh) (s : SchSubh) → get_elem? ss n ≡ some s → n < length ss
lt-length n [] s h = cc
lt-length zero (u ∷ ss) s h = omega arith
lt-length (suc n) (u ∷ ss) s h = omega (arith, lt-length n ss s h)

pub AllSendable-append :
    (is_ul : Bool) (ss : List SchSubh) (s : SchSubh)
    → AllSendable is_ul ss
    → IsSendable is_ul s
    → AllSendable is_ul (ss ++ s ∷ [])
AllSendable-append is_ul [] s v w = (w, tt)
AllSendable-append is_ul (t ∷ ss) s v w = (v.0, AllSendable-append is_ul ss s v.1 w)

pub sdus-element :
    (ss : List SchSubh) (s : SchSubh) → is_sdu s ≡ false → sdus (ss ++ s ∷ []) ≡ sdus ss
unfolding sdus
sdus-element ss s e = sdus-append ss (s ∷ []) ∙ rw e (append-nil (sdus ss))

pub sdus-sdu :
    (ss : List SchSubh) (s : SchSubh) → is_sdu s ≡ true → sdus (ss ++ s ∷ []) ≡ sdus ss ++ s ∷ []
unfolding sdus
sdus-sdu ss s e = sdus-append ss (s ∷ []) ∙ rw e refl

-- A control element behind leaves the last SDU where it is.
pub LastSdu-element :
    (last : Option ℕ) (ss : List SchSubh) (s : SchSubh)
    → LastSdu 0 last ss
    → is_sdu s ≡ false
    → LastSdu 0 last (ss ++ s ∷ [])
unfolding sdus
LastSdu-element none ss s l e = sdus-element ss s e ∙ l
LastSdu-element (some k) ss s (pre, t, post, h, hk, d, c) e = (
  pre,
  t,
  post ++ s ∷ [],
  rw (h) (append_assoc pre (t ∷ post) (s ∷ [])),
  hk,
  d,
  sdus-element post s e ∙ c,
)

pub LastSdu-sdu :
    (ss : List SchSubh) (s : SchSubh)
    → is_sdu s ≡ true
    → LastSdu 0 (some (length ss)) (ss ++ s ∷ [])
unfolding sdus
LastSdu-sdu ss s e = (ss, s, [], refl, omega arith, e, refl)

pub header_sizes-element :
    (last : Option ℕ) (i : ℕ) (ss : List SchSubh) (s : SchSubh)
    → is_sdu s ≡ false
    → ((header_sizes false last i (ss ++ s ∷ [])).0 ≡ (header_sizes false last i ss).0 + 1)
      × ((header_sizes false last i (ss ++ s ∷ [])).1
          ≡ (header_sizes false last i ss).1 + s.nof_bytes)
unfolding header_sizes get_header_size
header_sizes-element last i [] s e = ground arith
header_sizes-element last i (t ∷ ss) s e =
    let ih = header_sizes-element last (i + 1) ss s e in (omega (arith, ih.0), omega (arith, ih.1))

-- In front of the index every header is counted in full, and the SDU at the index with one octet.
pub header_sizes-sdu :
    (last : Option ℕ) (k i : ℕ) (ss : List SchSubh) (s : SchSubh)
    → k ≡ i + length ss
    → is_sdu s ≡ true
    → ((header_sizes false (some k) i (ss ++ s ∷ [])).0 ≡ (header_sizes true last i ss).0 + 1)
      × ((header_sizes false (some k) i (ss ++ s ∷ [])).1 ≡ (header_sizes true last i ss).1)
unfolding header_sizes get_header_size
header_sizes-sdu last k i [] s h e = ground arith
header_sizes-sdu last k i (t ∷ ss) s h e =
    let ih = header_sizes-sdu last k (i + 1) ss s (omega arith) e in
    let before : (i == k) ≡ false = ground arith in
    rw before (omega (arith, ih.0), omega (arith, ih.1))
