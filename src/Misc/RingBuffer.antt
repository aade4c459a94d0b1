-- ===== src/Misc/RingBuffer.antt =====
-- misc.hpp: ring_buffer<T, N>. The section's `n` is N; `size_t` arithmetic is modulo 2 ^ 64.
pub mod Recent
mod Tests
use epic_miner.Common.{ℕ, ◌+◌, ◌-◌, ◌%◌, ◌^◌, List, Option, get_elem?, set, replicate}

pub record RingBuffer {ℓ} (A : Type ℓ) : Type ℓ where
  pub pos : ℕ
  pub slots : List A

-- size_t a - b
abbrev pub sub64 : ℕ → ℕ → ℕ
sub64 a b = (a + 2 ^ 64 - b) % 2 ^ 64

-- Where operator[] finds element `idx`.
pub slot : ℕ → ℕ → ℕ → ℕ
slot n pos idx = sub64 (sub64 pos idx) 1 % n

module _ {ℓ} {A : Type ℓ} (n : ℕ) where
  pub insert : A → RingBuffer A → RingBuffer A
  insert val rb = record rb { slots = set rb.slots rb.pos val; pos = (rb.pos + 1) % 2 ^ 64 % n }

  -- operator[]; `none` would be a read out of bounds.
  pub get : RingBuffer A → ℕ → Option A
  unfolding slot
  get rb idx = get_elem? rb.slots (slot n rb.pos idx)

  pub fill : A → RingBuffer A → RingBuffer A
  fill val rb = record rb { slots = replicate n val }

-- A new buffer: pos is 0, the array is what was in memory.
pub fresh {ℓ} : {A : Type ℓ} → List A → RingBuffer A
fresh memory = record { pos = 0; slots = memory }
