-- ===== src/Prelude/Ring.antt =====
-- An array used as a ring: the elements from one index on, going round at the capacity.
use Prim.Native.Nat.{ℕ, suc, ◌+◌, ◌-◌, ◌%◌, ◌≤◌, ◌<◌}
use mathlib.Core.Path.{◌≡◌, ◌∙◌, ap}
use mathlib.Core.Logic.{◌≢◌}
use mathlib.Core.List.{List, [], ◌∷◌, ◌++◌}
use mathlib.Core.Option.{some}
use native.Mathlib.Nat.{add-zero, mod-add-mod, mod-eq_of_lt, mod-eq-sub-mod}
use native.Mathlib.Decide.{dec_lt}
use native.Mathlib.Omega.{arith}
use srs_ue.Prelude.Lists.{length, get_elem?, set, get_elem?-set_self, get_elem?-set_ne}

-- Fewer than `size` steps forward do not lead back.
pub add-mod-ne_self : (size t k : ℕ) → t < size → suc k < size → (t + suc k) % size ≢ t
add-mod-ne_self size t k ht hk = elim (dec_lt (t + suc k) size) [
  | yes below ↦ omega (arith, mod-eq_of_lt below)
  | no above ↦ omega (
    arith,
    mod-eq-sub-mod {n = t + suc k} {m = size} (omega arith),
    mod-eq_of_lt {n = t + suc k - size} {m = size} (omega arith),
  )
]

pub add-mod_suc : (t k n : ℕ) → (t + suc k) % n ≡ ((t + 1) % n + k) % n
add-mod_suc t k n = rw mod-add-mod (ap (λ (m : ℕ). m % n) regroup)
  where
    regroup : t + suc k ≡ t + 1 + k
    regroup = omega arith

module _ {ℓ} {A : Type ℓ} where
  -- `xs` stands in `buf` from index `t` on.
  abbrev pub Window : List A → ℕ → ℕ → List A → Type ℓ
  Window buf size t [] = Unit
  Window buf size t (x ∷ xs) = (get_elem? buf t ≡ some x) × Window buf size ((t + 1) % size) xs

  -- A write behind the last element extends the window by it.
  pub Window-set :
      (buf : List A) (size t h : ℕ) (m : A) (xs : List A)
      → size ≤ length buf
      → t < size
      → length xs < size
      → h ≡ (t + length xs) % size
      → Window buf size t xs
      → Window (set buf h m) size t (xs ++ m ∷ [])
  Window-set buf size t h m [] hb ht hl e w =
      let here : h ≡ t = e ∙ (rw (add-zero, mod-eq_of_lt ht)) in
      (rw here (get_elem?-set_self buf t m (omega arith)), tt)
  Window-set buf size t h m (x ∷ xs) hb ht hl e w = (
    get_elem?-set_ne buf m
          (λ (same : h ≡ t). add-mod-ne_self size t (length xs) ht hl (omega (arith, same, e)))
        ∙ w.0,
    Window-set buf size ((t + 1) % size) h m xs hb (omega arith) (omega arith)
        (e ∙ add-mod_suc t (length xs) size) w.1,
  )
