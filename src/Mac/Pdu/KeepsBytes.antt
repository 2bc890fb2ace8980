-- ===== src/Mac/Pdu/KeepsBytes.antt =====
-- An SDU that is put into a PDU keeps what holds of it while it is built.
use srs_ue.Prelude.{
  ℕ, ◌+◌, ◌≤◌, ◌<◌, ◌≡◌, refl, sym, ap, subst, ◌∙◌, Bool, true, false, List, [], ◌∷◌, ◌++◌,
  append_assoc, append-nil, some, length, length-append, length-take, length-drop, length-set, take,
  drop, take-append-drop, arith,
}
use srs_ue.Prelude.Int.{ℤ}
use srs_ue.Mac.Pdu.Subheader.{SchSubh, is_sdu}
use srs_ue.Mac.Pdu.Packet.{SchPdu, new_subh, write_at, set_sdu}
use srs_ue.Mac.Pdu.Write.{header_sizes, growth_of}
use srs_ue.Mac.Pdu.Wire.{sdus, IsSendable, AllSendable, LastSdu}
use srs_ue.Mac.Pdu.Buffer.{write_at_lem}
use srs_ue.Mac.Pdu.Trip.{Item, contents_of}
use srs_ue.Mac.Pdu.Items.{subheaders_of-append, contents_of-append}
use srs_ue.Mac.Pdu.Built.{active, AllFilled, IsBuilt}
use srs_ue.Mac.Pdu.Written.{full_sizes, header_sizes-elements}
use srs_ue.Mac.Pdu.Grow.{lt-length, sdus-sdu, AllSendable-append, LastSdu-sdu, header_sizes-sdu}
use srs_ue.Mac.Pdu.Keeps.{HasPlace, active_next}
use srs_ue.Mac.Pdu.KeepsSdu.{sdu_subh, with_sdu, set_sdu_lem}

sdu_subh-IsSendable :
    (is_ul : Bool) (lcid : ℕ) (bytes : List ℕ) (s : SchSubh)
    → lcid < 26
    → length bytes < 32768
    → length s.w_payload_ce ≡ 8
    → (is_sdu (sdu_subh lcid bytes s) ≡ true) × IsSendable is_ul (sdu_subh lcid bytes s)
unfolding is_sdu
sdu_subh-IsSendable is_ul lcid bytes s channel size e = (
  ground arith,
  record {
    lcid_bits = omega arith;
    sdu_size = λ d. size;
    element_size = λ d. absurd (ground arith);
    element_room = e;
  },
)

AllFilled-append :
    (items : List Item) (s : SchSubh) (c : List ℕ)
    → AllFilled items
    → length c ≡ s.nof_bytes
    → AllFilled (items ++ (s, c) ∷ [])
AllFilled-append [] s c f e = (e, tt)
AllFilled-append ((t, d) ∷ items) s c f e = (f.0, AllFilled-append items s c f.1 e)

-- The SDU's bytes over the first ones behind the SDUs that are there.
put_behind :
    (off : ℕ) (front contents behind bytes : List ℕ)
    → off ≡ length front + length contents
    → length bytes ≤ length behind
    → write_at off bytes (front ++ (contents ++ behind))
      ≡ front ++ ((contents ++ bytes) ++ drop (length bytes) behind)
put_behind off front contents behind bytes e h =
    let n = length bytes in
    let cut : front ++ (contents ++ behind)
        ≡ (front ++ contents) ++ (take n behind ++ drop n behind) =
      rw (take-append-drop n behind) (sym (append_assoc front contents behind)) in
    ap (write_at off bytes) cut
    ∙ write_at_lem off (front ++ contents) (take n behind) (drop n behind) bytes
        (e ∙ sym (length-append front contents)) (length-take n behind h)
    ∙ simp (append_assoc)

-- Adding a subheader and putting an SDU into it, with room for its header and its bytes, keeps all
-- that holds of a PDU while it is built: the SDU stands behind those that were put before, in the list
-- and in the buffer, and what is left is less by its bytes, one octet of header, and what the header
-- of the SDU before grows by.
pub set_sdu-IsBuilt :
    (items : List Item) (p : SchPdu) (s : SchSubh) (lcid : ℕ) (bytes : List ℕ)
    → IsBuilt items p
    → HasPlace p s
    → length bytes + 1 + growth_of p.last_sdu_idx p.subheaders ≤ p.rem_len
    → lcid < 26
    → length bytes < 32768
    → IsBuilt (items ++ (sdu_subh lcid bytes s, bytes) ∷ []) (set_sdu lcid bytes (new_subh p).0).0
set_sdu-IsBuilt items p s lcid bytes v h fits channel size =
    let n = p.nof_subheaders in
    let t = sdu_subh lcid bytes s in
    let q = with_sdu lcid bytes s p in
    let (is_sdu_lem, sendable) =
      sdu_subh-IsSendable p.pdu_is_ul lcid bytes s channel size h.element_room in
    let grown : active q ≡ active p ++ t ∷ [] = active_next p q s t h refl refl in
    let count : length (active p) ≡ n = length-take n p.subheaders v.in_vector in
    let sizes =
      header_sizes-sdu p.last_sdu_idx n 0 (active p) t (omega (arith, count)) is_sdu_lem in
    let contents : contents_of (items ++ (t, bytes) ∷ []) ≡ contents_of items ++ bytes =
      contents_of-append items ((t, bytes) ∷ [])
      ∙ ap (◌++◌ (contents_of items)) (append-nil bytes) in
    let built : IsBuilt (items ++ (t, bytes) ∷ []) q = record {
      in_vector = omega (arith, length-set p.subheaders n t, lt-length n p.subheaders s h.place);
      sendable =
          subst (AllSendable p.pdu_is_ul) (sym grown)
            (AllSendable-append p.pdu_is_ul (active p) t v.sendable sendable);
      last = subst (LastSdu 0 (some n)) (sym grown) (
          subst (λ (k : ℕ). LastSdu 0 (some k) (active p ++ t ∷ [])) count
            (LastSdu-sdu (active p) t is_sdu_lem));
      accounted = omega (
        arith,
        v.accounted,
        sizes.0,
        sizes.1,
        full_sizes true n p.last_sdu_idx p.subheaders v.last,
        header_sizes-elements true p.last_sdu_idx 0 (active p),
        ap (λ (l : List SchSubh). (header_sizes false (some n) 0 l).0) grown,
        ap (λ (l : List SchSubh). (header_sizes false (some n) 0 l).1) grown,
      );
      small = v.small;
      are_sdus =
          subheaders_of-append items ((t, bytes) ∷ [])
          ∙ ap (λ (l : List SchSubh). l ++ t ∷ []) v.are_sdus
          ∙ sym (ap sdus grown ∙ sdus-sdu (active p) t is_sdu_lem);
      filled = AllFilled-append items t bytes v.filled refl;
      front = v.front;
      behind = drop (length bytes) v.behind;
      buffer =
          ap (write_at (p.total_sdu_len + p.sdu_offset_start) bytes) v.buffer
          ∙ put_behind (p.total_sdu_len + p.sdu_offset_start) v.front (contents_of items) v.behind
              bytes (omega (arith, v.offset, v.total)) (omega (arith, v.room, v.accounted))
          ∙ ap (λ (l : List ℕ). v.front ++ (l ++ drop (length bytes) v.behind)) (sym contents);
      offset = v.offset;
      total =
          ap length contents
          ∙ length-append (contents_of items) bytes
          ∙ ap (λ (k : ℕ). k + length bytes) v.total;
      room = omega (arith, v.room, v.accounted, length-drop (length bytes) v.behind);
    } in
    subst (IsBuilt (items ++ (t, bytes) ∷ []))
      (sym (
        ap (λ (r : SchPdu × ℤ). r.0)
          (set_sdu_lem p s lcid bytes h v.last fits (omega (arith, v.accounted, v.small))
            (omega (arith, v.accounted, v.small)))))
      built
