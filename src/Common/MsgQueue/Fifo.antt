-- ===== src/Common/MsgQueue/Fifo.antt =====
-- The ring of a valid queue is a bounded FIFO.
use srs_ue.Prelude.{
  ℕ, suc, ◌+◌, ◌%◌, ◌≤◌, ◌<◌, ◌^◌, ◌≡◌, refl, sym, ◌∙◌, ◌≢◌, true, false, List, [], ◌∷◌, ◌++◌, map,
  Option, none, some, arith, length, length-set, length-append, length-replicate, get_elem?, set,
  ap, u32, sub_u32, if◌then◌else◌, ◌==◌, Bool-cases, inl, inr,
}
use native.Mathlib.Nat.{mod-add-mod, add_assoc, add-zero, mod-eq_of_lt}
use srs_ue.Prelude.Ring.{Window, Window-set, add-mod_suc}
use srs_ue.Common.MsgQueue.{
  MsgQueue, new, write, read, try_read, TryRead, nothing, message, size, size_bytes,
  size_tail_bytes,
}

step_behind : {h : ℕ} (t n c : ℕ) → h ≡ (t + n) % c → (h + 1) % c ≡ (t + (n + 1)) % c
step_behind t n c e = rw (e, mod-add-mod, add_assoc)

module _ {A : Type 0} (n_bytes : A → ℕ) where
  abbrev pub total : List A → ℕ
  total [] = 0
  total (x ∷ xs) = n_bytes x + total xs

  -- The queue holds `xs`, oldest first.
  pub record Holds (q : MsgQueue A) (xs : List A) : Type 0 where
    pub room : q.capacity ≤ length q.buf
    pub some_room : 0 < q.capacity
    pub in_range : q.tail < q.capacity
    pub small : q.capacity < 2 ^ 32
    pub counted : q.unread ≡ length xs
    pub fits : length xs ≤ q.capacity
    pub behind : q.head ≡ (q.tail + length xs) % q.capacity
    pub bytes : q.unread_bytes ≡ u32 (total xs)
    pub slots : Window q.buf q.capacity q.tail (map some xs)

  map-snoc : (xs : List A) (x : A) → map some (xs ++ x ∷ []) ≡ map some xs ++ some x ∷ []
  map-snoc [] x = refl
  map-snoc (y ∷ ys) x = ap (◌∷◌ (some y)) (map-snoc ys x)

  length-some : (xs : List A) → length (map some xs) ≡ length xs
  length-some [] = refl
  length-some (x ∷ xs) = ap suc (length-some xs)

  total-snoc : (xs : List A) (x : A) → total (xs ++ x ∷ []) ≡ total xs + n_bytes x
  total-snoc [] x = omega arith
  total-snoc (y ∷ ys) x = omega (arith, total-snoc ys x)

  written : A → MsgQueue A → MsgQueue A
  written msg q = record q {
    buf = set q.buf q.head (some msg);
    head = (q.head + 1) % q.capacity;
    unread = u32 (q.unread + 1);
    unread_bytes = u32 (q.unread_bytes + n_bytes msg);
  }

  written-Holds :
      (msg : A) (q : MsgQueue A) (xs : List A)
      → Holds q xs
      → length xs < q.capacity
      → Holds (written msg q) (xs ++ msg ∷ [])
  unfolding written
  written-Holds msg q xs v h = record {
    room = omega (arith, length-set q.buf q.head (some msg), v.room);
    some_room = v.some_room;
    in_range = v.in_range;
    small = v.small;
    counted = omega (arith, v.counted, v.small, length-append xs (msg ∷ []));
    fits = omega (arith, length-append xs (msg ∷ []));
    behind =
        step_behind q.tail (length xs) q.capacity v.behind
        ∙ ap (λ (n : ℕ). (q.tail + n) % q.capacity) (sym (length-append xs (msg ∷ [])));
    bytes = omega (arith, v.bytes, total-snoc xs msg);
    slots = rw (map-snoc xs msg) (
        Window-set q.buf q.capacity q.tail q.head (some msg) (map some xs) v.room v.in_range
          (omega (arith, length-some xs)) (rw (length-some xs) v.behind) v.slots);
  }

  -- The queue that the operations stand for.
  abbrev pub put_last : ℕ → A → List A → Option (List A)
  put_last capacity msg xs = if length xs == capacity then none else some (xs ++ msg ∷ [])

  abbrev pub take_first : List A → Option (A × List A)
  take_first [] = none
  take_first (x ∷ xs) = some (x, xs)

  abbrev pub Written : Option (MsgQueue A) → Option (List A) → Type 0
  Written none none = Unit
  Written (some q) (some xs) = Holds q xs
  Written _ _ = ⊥

  abbrev pub Taken : Option (A × MsgQueue A) → Option (A × List A) → Type 0
  Taken none none = Unit
  Taken (some (msg, q)) (some (x, xs)) = (msg ≡ x) × Holds q xs
  Taken _ _ = ⊥

  -- `write` blocks exactly when the queue is full, and else puts the message behind all others.
  pub write_refines :
      (msg : A) (q : MsgQueue A) (xs : List A)
      → Holds q xs
      → Written (write n_bytes msg q) (put_last q.capacity msg xs)
  unfolding write
  write_refines msg q xs v = elim (Bool-cases (q.unread == q.capacity)) [
    | inl full ↦
        let same : (length xs == q.capacity) ≡ true = ground (arith, v.counted) in
        rw (full, same) tt
    | inr room ↦
        let same : (length xs == q.capacity) ≡ false = ground (arith, v.counted) in
        let below : length xs < q.capacity = ground (arith, v.fits) in
        rw (room, same) (unfold written in written-Holds msg q xs v below)
  ]

  taken : A → MsgQueue A → MsgQueue A
  taken msg q = record q {
    tail = (q.tail + 1) % q.capacity;
    unread = sub_u32 q.unread 1;
    unread_bytes = sub_u32 q.unread_bytes (n_bytes msg);
  }

  module _ (wide : (a : A) → n_bytes a < 2 ^ 32) where
    taken-Holds : (x : A) (q : MsgQueue A) (xs : List A) → Holds q (x ∷ xs) → Holds (taken x q) xs
    unfolding taken
    taken-Holds x q xs v = record {
      room = v.room;
      some_room = v.some_room;
      in_range = omega (arith, v.some_room);
      small = v.small;
      counted = omega (arith, v.counted, v.small, v.fits);
      fits = omega (arith, v.fits);
      behind = v.behind ∙ add-mod_suc q.tail (length xs) q.capacity;
      bytes = omega (arith, v.bytes, wide x);
      slots = v.slots.1;
    }

    read-nonempty :
        (x : A) (q : MsgQueue A)
        → get_elem? q.buf q.tail ≡ some (some x)
        → q.unread ≢ 0
        → read n_bytes q ≡ some (x, taken x q)
    unfolding read taken
    read-nonempty x q e h = ground arith

    -- `read` blocks exactly when the queue is empty, and else takes the oldest message. (The
    -- length of every message has 32 bits.)
    pub read_refines :
        (q : MsgQueue A) (xs : List A) → Holds q xs → Taken (read n_bytes q) (take_first xs)
    read_refines q [] v =
        let blocks : read n_bytes q ≡ none = unfold read in ground (arith, v.counted) in
        rw blocks tt
    read_refines q (x ∷ xs) v =
        rw (read-nonempty x q v.slots.0 (omega (arith, v.counted))) (refl, taken-Holds x q xs v)

    -- The answer of `try_read` that corresponds to one of `read`.
    abbrev pub attempt : Option (A × MsgQueue A) → TryRead n_bytes
    attempt none = nothing
    attempt (some (msg, q)) = message msg q

    -- `try_read` does what `read` does, and where `read` would block it answers false, on a
    -- valid queue.
    pub try_read-read :
        (q : MsgQueue A) (xs : List A) → Holds q xs → try_read n_bytes q ≡ attempt (read n_bytes q)
    unfolding try_read read
    try_read-read q [] v = ground (arith, v.counted)
    try_read-read q (x ∷ xs) v = ground (arith, v.counted, v.slots.0)

  -- A new queue is valid and empty.
  pub new-Holds : (capacity : ℕ) → 0 < capacity → capacity < 2 ^ 32 → Holds (new capacity) []
  unfolding new
  new-Holds capacity pos small = record {
    room = omega (arith, length-replicate {A = Option A} capacity none);
    some_room = pos;
    in_range = pos;
    small = small;
    counted = refl;
    fits = omega arith;
    behind = sym (rw add-zero (mod-eq_of_lt pos));
    bytes = refl;
    slots = tt;
  }

  -- The counters of a valid queue that is not empty are those of the list: the messages, their bytes
  -- (in 32 bits), and the bytes of the oldest one.
  pub sizes :
      (q : MsgQueue A) (x : A) (xs : List A)
      → Holds q (x ∷ xs)
      → (size q ≡ length (x ∷ xs))
        × (size_bytes q ≡ u32 (total (x ∷ xs)))
        × (size_tail_bytes n_bytes q ≡ some (n_bytes x))
  unfolding size size_bytes size_tail_bytes
  sizes q x xs v = (v.counted, v.bytes, rw (v.slots.0, size_tail_bytes))
