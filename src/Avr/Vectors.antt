-- ===== src/Avr/Vectors.antt =====
-- `avr_cpu_check_irq` of src/avr/avr_cpu.c: which interrupt is served.
use uc_vm.Common.{
  ℕ, zero, suc, ◌+◌, ◌-◌, ◌^◌, ◌≤◌, ◌<◌, ◌≡◌, ◌⊎◌, inl, inr, refl, arith, none, some, bit_and,
  nonzero, Bool-cases, true,
}
use native.Mathlib.Nat.{zero-div}
use uc_vm.Avr.Cpu.{AvrCpu}
use uc_vm.Avr.Irq.{irq_bit, find_vector, serve_vector, enter_vector, avr_check_irq}

-- The lowest vector that is pending, among those from `first` on and below `bound`.
pub record IsLowest (pending first bound vec : ℕ) : Type 0 where
  pub from_first : first ≤ vec
  pub in_table : vec < bound
  pub is_pending : irq_bit pending vec ≡ 1
  pub none_before : (v : ℕ) → first ≤ v → v < vec → irq_bit pending v ≡ 0

-- None of them is pending.
abbrev pub NonePending : ℕ → ℕ → ℕ → Type 0
NonePending pending first bound = (v : ℕ) → first ≤ v → v < bound → irq_bit pending v ≡ 0

find_vector-IsLowest :
    (n first pending : ℕ)
    → ((vec : ℕ) × (find_vector n first pending ≡ some vec)
        × IsLowest pending first (first + n) vec)
      ⊎ ((find_vector n first pending ≡ none) × NonePending pending first (first + n))
unfolding find_vector
find_vector-IsLowest zero first pending = inr (refl, λ v p q. absurd (omega arith))
find_vector-IsLowest (suc n) first pending = elim (Bool-cases (nonzero (irq_bit pending first))) [
  | inl e ↦ inl (
    first,
    rw e refl,
    record {
      from_first = omega arith;
      in_table = omega arith;
      is_pending = ground (arith, e);
      none_before = λ v p q. absurd (omega arith);
    },
  )
  | inr e ↦ elim (find_vector-IsLowest n (first + 1) pending) [
    | inl (vec, found, low) ↦ inl (
      vec,
      rw e found,
      record {
        from_first = omega (arith, low.from_first);
        in_table = omega (arith, low.in_table);
        is_pending = low.is_pending;
        none_before = λ v p q. ground (arith, e, low.none_before v);
      },
    )
    | inr (missed, clear) ↦ inr (rw e missed, λ v p q. ground (arith, e, clear v))
  ]
]

-- With I set and a table of vectors, either no interrupt in the table is pending and
-- avr_cpu_check_irq changes nothing, or the one with the lowest vector is served.
pub avr_check_irq-IsLowest :
    (c : AvrCpu)
    → nonzero (bit_and c.sreg 0x80) ≡ true
    → 0 < c.variant.num_vectors
    → ((vec : ℕ) × IsLowest c.irq_pending 1 c.variant.num_vectors vec
        × (avr_check_irq c ≡ enter_vector c vec))
      ⊎ (NonePending c.irq_pending 1 c.variant.num_vectors × (avr_check_irq c ≡ c))
unfolding avr_check_irq serve_vector
avr_check_irq-IsLowest c i h =
    let all : 1 + (c.variant.num_vectors - 1) ≡ c.variant.num_vectors = omega arith in
    elim (Bool-cases (nonzero c.irq_pending)) [
      | inl e ↦
          rw (i, e)
            (elim (find_vector-IsLowest (c.variant.num_vectors - 1) 1 c.irq_pending) [
              | inl (vec, found, low) ↦ inl (vec, rw all at low, rw found refl)
              | inr (missed, clear) ↦ inr (rw all at clear, rw missed refl)
            ])
      | inr e ↦ rw (i, e) (inr (λ v p q. ground (arith, e, zero-div (2 ^ v)), refl))
    ]
