-- ===== src/Util/Compare.antt =====
-- gzochi-server/src/util.c: the comparison functions. A `gint` result stands for its sign only.
use Prim.Native.Nat.{Ordering}
use gnu_gzochi.Base.{ℕ, ◌≡◌, ◌↔◌, refl, Option, none, some, arith, ltb, if◌then◌else◌}

abbrev pub flip : Ordering → Ordering
flip Ordering.lt = Ordering.gt
flip Ordering.eq = Ordering.eq
flip Ordering.gt = Ordering.lt

-- A `GCompareFunc` that is a total order. GLib documents `g_bytes_compare` as one.
pub record IsOrder {ℓ} {K : Type ℓ} (cmp : K → K → Ordering) : Type ℓ where
  pub cmp_eq : (a b : K) → (cmp a b ≡ Ordering.eq) ↔ (a ≡ b)
  pub cmp_flip : (a b : K) → cmp b a ≡ flip (cmp a b)
  pub cmp_trans :
      (a b c : K) → cmp a b ≡ Ordering.lt → cmp b c ≡ Ordering.lt → cmp a c ≡ Ordering.lt

unfoldable pub guint64_data_compare : ℕ → ℕ → Ordering
guint64_data_compare an bn =
    if ltb an bn then Ordering.lt else if ltb bn an then Ordering.gt else Ordering.eq

-- A null pointer is `none`.
module _ {ℓ} {K : Type ℓ} (bytes_compare : K → K → Ordering) where
  unfoldable pub bytes_compare_null_first : Option K → Option K → Ordering
  bytes_compare_null_first none none = Ordering.eq
  bytes_compare_null_first none (some b) = Ordering.lt
  bytes_compare_null_first (some a) none = Ordering.gt
  bytes_compare_null_first (some a) (some b) = bytes_compare a b

  unfoldable pub bytes_compare_null_last : Option K → Option K → Ordering
  bytes_compare_null_last none none = Ordering.eq
  bytes_compare_null_last none (some b) = Ordering.gt
  bytes_compare_null_last (some a) none = Ordering.lt
  bytes_compare_null_last (some a) (some b) = bytes_compare a b

pub guint64-IsOrder : IsOrder guint64_data_compare
unfolding guint64_data_compare
guint64-IsOrder = record {
  cmp_eq = λ a b. ground arith;
  cmp_flip = λ a b. ground arith;
  cmp_trans = λ a b c h k. ground arith;
}

module _ {ℓ} {K : Type ℓ} {bytes_compare : K → K → Ordering} (order : IsOrder bytes_compare) where
  null_first_eq :
      (a b : Option K) → (bytes_compare_null_first bytes_compare a b ≡ Ordering.eq) ↔ (a ≡ b)
  unfolding bytes_compare_null_first
  null_first_eq none none = (λ _. refl, λ _. refl)
  null_first_eq none (some b) = (λ e. cc, λ e. cc)
  null_first_eq (some a) none = (λ e. cc, λ e. cc)
  null_first_eq (some a) (some b) =
      (λ e. cc ((order.cmp_eq a b).0 e), λ e. (order.cmp_eq a b).1 (cc))

  null_first_trans :
      (a b c : Option K)
      → bytes_compare_null_first bytes_compare a b ≡ Ordering.lt
      → bytes_compare_null_first bytes_compare b c ≡ Ordering.lt
      → bytes_compare_null_first bytes_compare a c ≡ Ordering.lt
  unfolding bytes_compare_null_first
  null_first_trans none none c h k = cc
  null_first_trans none (some b) none h k = cc
  null_first_trans none (some b) (some c) h k = refl
  null_first_trans (some a) none c h k = cc
  null_first_trans (some a) (some b) none h k = cc
  null_first_trans (some a) (some b) (some c) h k = order.cmp_trans a b c h k

  null_first_flip :
      (a b : Option K)
      → bytes_compare_null_first bytes_compare b a
        ≡ flip (bytes_compare_null_first bytes_compare a b)
  unfolding bytes_compare_null_first
  null_first_flip none none = refl
  null_first_flip none (some b) = refl
  null_first_flip (some a) none = refl
  null_first_flip (some a) (some b) = order.cmp_flip a b

  -- With a total order on byte strings, comparison with the null pointer first is a total order on
  -- byte strings and the null pointer.
  pub null_first-IsOrder : IsOrder (bytes_compare_null_first bytes_compare)
  null_first-IsOrder = record {
    cmp_eq = null_first_eq;
    cmp_flip = null_first_flip;
    cmp_trans = null_first_trans;
  }

  null_last_eq :
      (a b : Option K) → (bytes_compare_null_last bytes_compare a b ≡ Ordering.eq) ↔ (a ≡ b)
  unfolding bytes_compare_null_last
  null_last_eq none none = (λ _. refl, λ _. refl)
  null_last_eq none (some b) = (λ e. cc, λ e. cc)
  null_last_eq (some a) none = (λ e. cc, λ e. cc)
  null_last_eq (some a) (some b) =
      (λ e. cc ((order.cmp_eq a b).0 e), λ e. (order.cmp_eq a b).1 (cc))

  null_last_trans :
      (a b c : Option K)
      → bytes_compare_null_last bytes_compare a b ≡ Ordering.lt
      → bytes_compare_null_last bytes_compare b c ≡ Ordering.lt
      → bytes_compare_null_last bytes_compare a c ≡ Ordering.lt
  unfolding bytes_compare_null_last
  null_last_trans none none c h k = cc
  null_last_trans none (some b) c h k = cc
  null_last_trans (some a) none none h k = cc
  null_last_trans (some a) none (some c) h k = cc
  null_last_trans (some a) (some b) none h k = refl
  null_last_trans (some a) (some b) (some c) h k = order.cmp_trans a b c h k

  null_last_flip :
      (a b : Option K)
      → bytes_compare_null_last bytes_compare b a ≡ flip (bytes_compare_null_last bytes_compare a b)
  unfolding bytes_compare_null_last
  null_last_flip none none = refl
  null_last_flip none (some b) = refl
  null_last_flip (some a) none = refl
  null_last_flip (some a) (some b) = order.cmp_flip a b

  -- With a total order on byte strings, comparison with the null pointer last is a total order on
  -- byte strings and the null pointer.
  pub null_last-IsOrder : IsOrder (bytes_compare_null_last bytes_compare)
  null_last-IsOrder = record {
    cmp_eq = null_last_eq;
    cmp_flip = null_last_flip;
    cmp_trans = null_last_trans;
  }
