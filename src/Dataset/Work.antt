-- ===== src/Dataset/Work.antt =====
-- rx_dataset.cpp: calculate_thd, the share of the dataset's items that one thread computes.
use epic_miner.Common.{
  ℕ, zero, suc, ◌+◌, ◌-◌, ◌*◌, ◌/◌, ◌%◌, ◌<◌, ◌≡◌, sym, ap, ap₂, ◌∙◌, true, false, List, [], ◌∷◌,
  ◌++◌, arith, ◌==◌, if◌then◌else◌,
}
use native.Mathlib.Nat.{div-add-mod}

-- The first item and the number of items that randomx_init_dataset is given.
pub record Share : Type 0 where
  pub first : ℕ
  pub count : ℕ

-- With randomx_dataset_item_count() = work_size.
pub calculate_thd : ℕ → ℕ → ℕ → Share
calculate_thd work_size idx thd_cnt =
    let batch_size = work_size / thd_cnt in
    record {
      first = idx * batch_size;
      count = if idx == thd_cnt - 1 then batch_size + work_size % thd_cnt else batch_size;
    }

-- The items first, first + 1, ..., first + count - 1.
pub items : ℕ → ℕ → List ℕ
items first zero = []
items first (suc count) = first ∷ items (suc first) count

-- The items of threads 0, ..., n - 1 of thd_cnt.
pub computed : ℕ → ℕ → ℕ → List ℕ
unfolding calculate_thd items
computed work_size thd_cnt zero = []
computed work_size thd_cnt (suc n) =
    let share = calculate_thd work_size n thd_cnt in
    computed work_size thd_cnt n ++ items share.first share.count

-- Two ranges that meet.
items-append : (a m n s k : ℕ) → s ≡ a + m → k ≡ m + n → items a m ++ items s n ≡ items a k
unfolding items
items-append a zero n s k e f = ap₂ items (e ∙ omega arith) (sym (f ∙ omega arith))
items-append a (suc m) n s zero e f = absurd (omega arith)
items-append a (suc m) n s (suc k) e f =
    ap (◌∷◌ a) (items-append (suc a) m n s k (omega arith) (omega arith))

suc-mul : (n b : ℕ) → suc n * b ≡ n * b + b
suc-mul n b = omega arith

computed_below :
    (work_size thd_cnt n : ℕ)
    → n < thd_cnt
    → computed work_size thd_cnt n ≡ items 0 (n * (work_size / thd_cnt))
unfolding computed items
computed_below work_size thd_cnt zero h =
    let none_yet : 0 ≡ 0 * (work_size / thd_cnt) = omega arith in ap (items 0) none_yet
computed_below work_size thd_cnt (suc n) h =
    let b = work_size / thd_cnt in
    let not_last : (n == thd_cnt - 1) ≡ false = ground arith in
    rw (computed_below work_size thd_cnt n (omega arith), not_last)
      (items-append 0 (n * b) b (n * b) (suc n * b) (omega arith) (suc-mul n b))

-- With at least one thread, the threads' shares together are the items 0 to work_size - 1, each of
-- them once and in order.
pub calculate_thd-covers :
    (work_size n : ℕ) → computed work_size (suc n) (suc n) ≡ items 0 work_size
unfolding computed
calculate_thd-covers work_size n =
    let b = work_size / suc n in
    let last : (n == suc n - 1) ≡ true = ground arith in
    let whole : suc n * b + work_size % suc n ≡ work_size = div-add-mod work_size (suc n) in
    let parts = suc-mul n b in
    rw (computed_below work_size (suc n) n (omega arith), last)
      (items-append 0 (n * b) (b + work_size % suc n) (n * b) work_size (omega arith)
        (omega (arith, whole, parts)))
