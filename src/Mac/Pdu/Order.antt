-- ===== src/Mac/Pdu/Order.antt =====
-- The order of what `write_packet` writes in front of the SDUs.
use srs_ue.Prelude.{
  ℕ, zero, suc, ◌<◌, ◌≡◌, refl, sym, ap, ◌∙◌, Bool, true, false, not, ◌&&◌, List, [], ◌∷◌, ◌++◌,
  append-nil, append_assoc, Option, none, some, inl, inr, if◌then◌else◌, length, replicate,
  Bool-cases, arith,
}
use srs_ue.Mac.Pdu.Subheader.{SchSubh, is_sdu, write_subheader}
use srs_ue.Mac.Pdu.Write.{
  is_none, ce_headers, sdu_headers, ce_payloads, repeat_bytes, padding_subh, front_bytes,
}
use srs_ue.Mac.Pdu.Front.{ce_headers_open, sdu_headers_open, sdu_headers_last, ce_headers_closed}
use srs_ue.Mac.Pdu.Wire.{
  sdus, elements, encode, encode_open, encode-append_last, encode_open-append, LastSdu,
}

repeat_bytes-encode_open :
    (n : ℕ) (s : SchSubh) → repeat_bytes n (write_subheader false s) ≡ encode_open (replicate n s)
unfolding encode_open
repeat_bytes-encode_open zero s = refl
repeat_bytes-encode_open (suc n) s =
    ap (◌++◌ (write_subheader false s)) (repeat_bytes-encode_open n s)

encode-append :
    (ss : List SchSubh) (t : SchSubh) (ts : List SchSubh)
    → encode (ss ++ t ∷ ts) ≡ encode_open ss ++ encode (t ∷ ts)
unfolding encode encode_open
encode-append [] t ts = refl
encode-append (s ∷ []) t ts = rw (append-nil (write_subheader false s)) refl
encode-append (s ∷ u ∷ ss) t ts =
    ap (◌++◌ (write_subheader false s)) (encode-append (u ∷ ss) t ts)
    ∙ sym (append_assoc (write_subheader false s) (encode_open (u ∷ ss)) (encode (t ∷ ts)))

elements_all : (ss : List SchSubh) → sdus ss ≡ [] → elements ss ≡ ss
unfolding sdus elements
elements_all [] h = refl
elements_all (s ∷ ss) h = elim (Bool-cases (is_sdu s)) [
  | inl e ↦ absurd (ground arith)
  | inr e ↦ rw e (ap (◌∷◌ s) (elements_all ss (ground arith)))
]

pub sdus-append : (ss ts : List SchSubh) → sdus (ss ++ ts) ≡ sdus ss ++ sdus ts
unfolding sdus
sdus-append [] ts = refl
sdus-append (s ∷ ss) ts = elim (Bool-cases (is_sdu s)) [
  | inl e ↦ rw e (ap (◌∷◌ s) (sdus-append ss ts))
  | inr e ↦ rw e (sdus-append ss ts)
]

pub sdus_first :
    (s : SchSubh) (post : List SchSubh)
    → is_sdu s ≡ true
    → sdus post ≡ []
    → sdus (s ∷ post) ≡ s ∷ []
unfolding sdus
sdus_first s post e h = rw (e, h)

encode_three :
    (a b c : List SchSubh) (t : SchSubh)
    → encode (a ++ (b ++ (c ++ t ∷ [])))
      ≡ encode_open a ++ (encode_open b ++ (encode_open c ++ write_subheader true t))
encode_three a b c t =
    rw
      (
        ← append_assoc b c (t ∷ []),
        ← append_assoc a (b ++ c) (t ∷ []),
        encode-append_last (a ++ (b ++ c)) t,
        encode_open-append a (b ++ c),
        encode_open-append b c,
      )
      (simp (append_assoc))

-- The subheaders of the packet in the order in which they are sent.
abbrev pub entries : Bool → ℕ → List SchSubh → List SchSubh
entries multibyte onetwo ss =
    replicate onetwo (padding_subh 0)
    ++ (elements ss ++ (sdus ss ++ (if multibyte then padding_subh 0 ∷ [] else [])))

-- The four lists of bytes in front of the elements' payloads.
abbrev header_bytes : Bool → ℕ → Option ℕ → List SchSubh → List ℕ
header_bytes multibyte onetwo last ss =
    repeat_bytes onetwo (write_subheader false (padding_subh 0))
    ++ (ce_headers (not multibyte && is_none last) ss
        ++ ((if is_none last then [] else sdu_headers multibyte last 0 ss)
            ++ (if multibyte then write_subheader true (padding_subh 0) else [])))

header_bytes_multi :
    (onetwo : ℕ) (last : Option ℕ) (ss : List SchSubh)
    → LastSdu 0 last ss
    → header_bytes true onetwo last ss ≡ encode (entries true onetwo ss)
unfolding encode_open
header_bytes_multi onetwo last ss v =
    let pad = padding_subh 0 in
    let sdu_part : (if is_none last then [] else sdu_headers true last 0 ss)
        ≡ encode_open (sdus ss) =
      elim last
          as (λ l.
            LastSdu 0 l ss
            → (if is_none l then [] else sdu_headers true l 0 ss) ≡ encode_open (sdus ss)) [
              | none ↦ λ n. rw n refl
              | some k ↦ λ _. sdu_headers_open (some k) 0 ss
            ]
        v in
    rw (repeat_bytes-encode_open onetwo pad, ce_headers_open ss, sdu_part)
      (sym (encode_three (replicate onetwo pad) (elements ss) (sdus ss) pad))

header_bytes_exact :
    (onetwo : ℕ) (last : Option ℕ) (ss : List SchSubh)
    → LastSdu 0 last ss
    → 0 < length ss
    → header_bytes false onetwo last ss ≡ encode (entries false onetwo ss)
header_bytes_exact onetwo none [] v h = absurd (omega arith)
header_bytes_exact onetwo none (s ∷ ss) v h =
    rw
      (
        repeat_bytes-encode_open onetwo (padding_subh 0),
        ce_headers_closed s ss v,
        v,
        append-nil (encode (s ∷ ss)),
        append-nil (elements (s ∷ ss)),
        elements_all (s ∷ ss) v,
      )
      (sym (encode-append (replicate onetwo (padding_subh 0)) s ss))
header_bytes_exact onetwo (some k) ss (pre, s, post, e, hk, d, l) h =
    let pad = padding_subh 0 in
    let last_sdu : sdus ss ≡ sdus pre ++ s ∷ [] =
      ap sdus e ∙ sdus-append pre (s ∷ post) ∙ ap (◌++◌ (sdus pre)) (sdus_first s post d l) in
    let written = ap (sdu_headers false (some k) 0) e ∙ sdu_headers_last k 0 pre post s hk d l in
    rw
      (
        repeat_bytes-encode_open onetwo pad,
        ce_headers_open ss,
        written,
        last_sdu,
        append-nil (encode_open (sdus pre) ++ write_subheader true s),
        append-nil (sdus pre ++ s ∷ []),
      )
      (sym (encode_three (replicate onetwo pad) (elements ss) (sdus pre) s))

regroup : (a b c d e : List ℕ) → a ++ (b ++ (c ++ (d ++ e))) ≡ (a ++ (b ++ (c ++ d))) ++ e
regroup a b c d e = simp (append_assoc)

-- What is written in front of the SDUs is the subheaders, ordered and with the last one marked, and
-- the elements' payloads: the padding subheaders first or last, and the SDUs' after the elements'.
pub front_bytes-entries :
    (is_ul multibyte : Bool) (onetwo : ℕ) (last : Option ℕ) (ss : List SchSubh)
    → LastSdu 0 last ss
    → 0 < length ss
    → front_bytes is_ul multibyte onetwo last ss
      ≡ encode (entries multibyte onetwo ss) ++ (ce_payloads is_ul ss).1
unfolding front_bytes
front_bytes-entries is_ul true onetwo last ss v h =
    regroup (repeat_bytes onetwo _) (ce_headers false ss) _ _ (ce_payloads is_ul ss).1
    ∙ ap (λ (l : List ℕ). l ++ (ce_payloads is_ul ss).1) (header_bytes_multi onetwo last ss v)
front_bytes-entries is_ul false onetwo last ss v h =
    regroup (repeat_bytes onetwo _) (ce_headers (is_none last) ss)
      (if is_none last then [] else sdu_headers false last 0 ss) [] (ce_payloads is_ul ss).1
    ∙ ap (λ (l : List ℕ). l ++ (ce_payloads is_ul ss).1) (header_bytes_exact onetwo last ss v h)
