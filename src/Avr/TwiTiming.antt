-- ===== src/Avr/TwiTiming.antt =====
-- How long the operations of the two-wire interface take (src/avr/avr_twi.c).
use uc_vm.Common.{
  ℕ, ◌+◌, ◌-◌, ◌<◌, ◌≤◌, ◌≡◌, ◌⊎◌, inl, inr, ◌∙◌, refl, ap, arith, Bool, true, false, List, [], ◌∷◌,
  ◌++◌, if◌then◌else◌, leb, nonzero, bit_and, ◌==◌, Bool-cases,
}
use uc_vm.Avr.Cpu.{AvrCpu}
use uc_vm.Avr.Twi.{
  Twi, TwiConfig, twi_start, twi_sla_w, twi_sla_r, twi_data_tx, twi_data_rx, twi_stop, TwiOp,
  TwiState, twi_idle, start_sent, mt_addr_sent, mt_data_sent, mr_addr_sent, mr_data_received,
  twi_none, scl_period,
}
use uc_vm.Avr.TwiOps.{
  is_none_op, finish_op, twi_complete_op, next_op, start_op, twcr_write, avr_twi_tick,
}

-- The cycles of ticks.
abbrev pub total : List ℕ → ℕ
total [] = 0
total (n ∷ ns) = n + total ns

unequal_zero : (r n : ℕ) → n < r → (r == 0) ≡ false
unequal_zero r n h = ground (arith, h)

too_many : (r n : ℕ) → n < r → leb r n ≡ false
too_many r n h = ground (arith, h)

enough : (r n : ℕ) → r ≤ n → leb r n ≡ true
enough r n h = ground (arith, h)

too_few : (r n : ℕ) → leb r n ≡ false → 0 < r - n
too_few r n h = ground (arith, h)

scl_period_pos : (c : AvrCpu) (cfg : TwiConfig) → 0 < scl_period c cfg
unfolding scl_period
scl_period_pos c cfg = ground arith

module _ {Ctx : Type 0} where
  -- An operation in progress has cycles left, so that ticks complete it.
  abbrev pub IsTimed : Twi Ctx → Type 0
  IsTimed twi = (is_none_op twi.pending_op ≡ true) ⊎ (0 < twi.cycles_remaining)

  -- Ticks one after the other.
  abbrev pub twi_ticks : List ℕ → AvrCpu → Twi Ctx → AvrCpu × Twi Ctx
  twi_ticks [] c twi = (c, twi)
  twi_ticks (n ∷ ns) c twi = let (c1, t1) = avr_twi_tick c twi n in twi_ticks ns c1 t1

  tick_waits :
      (c : AvrCpu) (twi : Twi Ctx) (n : ℕ)
      → is_none_op twi.pending_op ≡ false
      → n < twi.cycles_remaining
      → avr_twi_tick c twi n ≡ (c, record twi { cycles_remaining = twi.cycles_remaining - n })
  unfolding avr_twi_tick
  tick_waits c twi n op h =
      rw (op, unequal_zero twi.cycles_remaining n h, too_many twi.cycles_remaining n h) refl

  tick_completes :
      (c : AvrCpu) (twi : Twi Ctx) (n : ℕ)
      → is_none_op twi.pending_op ≡ false
      → 0 < twi.cycles_remaining
      → twi.cycles_remaining ≤ n
      → avr_twi_tick c twi n ≡ twi_complete_op c twi
  unfolding avr_twi_tick
  tick_completes c twi n op p h =
      rw (op, unequal_zero twi.cycles_remaining 0 p, enough twi.cycles_remaining n h) refl

  -- An operation in progress on the two-wire interface, whatever is on its bus, completes in
  -- the tick in which the cycles that it has left have passed, and the ticks before it only
  -- count these cycles down.
  pub twi_ticks-twi_complete_op :
      (ns : List ℕ) (last : ℕ) (c : AvrCpu) (twi : Twi Ctx)
      → is_none_op twi.pending_op ≡ false
      → total ns < twi.cycles_remaining
      → twi.cycles_remaining ≤ total ns + last
      → (twi_ticks ns c twi
          ≡ (c, record twi { cycles_remaining = twi.cycles_remaining - total ns }))
        × (twi_ticks (ns ++ (last ∷ [])) c twi ≡ twi_complete_op c twi)
  unfolding twi_complete_op
  twi_ticks-twi_complete_op [] last c twi op h k = (
    ap (λ r. (c, record twi { cycles_remaining = r })) (omega arith),
    tick_completes c twi last op h (omega (arith, k)),
  )
  twi_ticks-twi_complete_op (n ∷ ns) last c twi op h k =
      let left = record twi { cycles_remaining = twi.cycles_remaining - n } in
      let waits = tick_waits c twi n op (omega (arith, h)) in
      let (before, after) =
        twi_ticks-twi_complete_op ns last c left op (omega (arith, h)) (omega (arith, k, h)) in
      (
        ap (λ r. twi_ticks ns r.0 r.1) waits
            ∙ before
            ∙ ap (λ r. (c, record twi { cycles_remaining = r })) (omega arith),
        ap (λ r. twi_ticks (ns ++ (last ∷ [])) r.0 r.1) waits ∙ after,
      )

  IsTimed-next_op :
      (s : TwiState) (c : AvrCpu) (twi : Twi Ctx) (val scl : ℕ)
      → 0 < scl
      → IsTimed twi
      → IsTimed (next_op s c twi val scl)
  unfolding next_op
  IsTimed-next_op twi_idle c twi val scl p v = v
  IsTimed-next_op start_sent c twi val scl p v = inr (omega (arith, p))
  IsTimed-next_op mt_addr_sent c twi val scl p v = inr (omega (arith, p))
  IsTimed-next_op mt_data_sent c twi val scl p v = inr (omega (arith, p))
  IsTimed-next_op mr_addr_sent c twi val scl p v = inr (omega (arith, p))
  IsTimed-next_op mr_data_received c twi val scl p v = inr (omega (arith, p))

  if-IsTimed :
      (b : Bool) (x y : AvrCpu × Twi Ctx)
      → IsTimed x.1
      → IsTimed y.1
      → IsTimed (if b then x else y).1
  if-IsTimed true x y p q = p
  if-IsTimed false x y p q = q

  IsTimed-start_op :
      (c : AvrCpu) (twi : Twi Ctx) (val : ℕ) → IsTimed twi → IsTimed (start_op c twi val).1
  unfolding start_op
  IsTimed-start_op c twi val v =
      let scl = scl_period c twi.config in
      let p = scl_period_pos c twi.config in
      if-IsTimed (nonzero (bit_and val 0x10)) _ _
        (if-IsTimed (nonzero (bit_and val 0x20)) _ _ (inr p) (inr p))
        (if-IsTimed (nonzero (bit_and val 0x20)) _ _ (inr p)
          (IsTimed-next_op twi.bus_state c twi val scl p v))

  -- A write of TWCR keeps every operation in progress timed, those that it starts included.
  pub twcr_write-IsTimed :
      (c : AvrCpu) (io_addr val : ℕ) (twi : Twi Ctx)
      → IsTimed twi
      → IsTimed (twcr_write c io_addr val twi).1
  unfolding twcr_write is_none_op
  twcr_write-IsTimed c io_addr val twi v =
      if-IsTimed (nonzero (bit_and val 0x04)) _ _
        (if-IsTimed (nonzero (bit_and val 0x80)) _ _ (IsTimed-start_op _ twi val v) v) (inl refl)

  finish_op-pending_op :
      (o : TwiOp) (c : AvrCpu) (twi : Twi Ctx) → (finish_op o c twi).1.pending_op ≡ twi.pending_op
  unfolding finish_op uc_vm.Avr.TwiOps.sent_byte
  finish_op-pending_op twi_none c twi = refl
  finish_op-pending_op twi_start c twi = refl
  finish_op-pending_op twi_sla_w c twi = refl
  finish_op-pending_op twi_sla_r c twi = refl
  finish_op-pending_op twi_data_tx c twi = refl
  finish_op-pending_op twi_data_rx c twi = refl
  finish_op-pending_op twi_stop c twi = refl

  -- So does a tick.
  pub avr_twi_tick-IsTimed :
      (c : AvrCpu) (twi : Twi Ctx) (n : ℕ) → IsTimed twi → IsTimed (avr_twi_tick c twi n).1
  unfolding avr_twi_tick twi_complete_op is_none_op
  avr_twi_tick-IsTimed c twi n v = elim (Bool-cases (leb twi.cycles_remaining n)) [
    | inl done ↦
        rw done (if-IsTimed _ _ _ v (inl (ap is_none_op (finish_op-pending_op twi.pending_op c _))))
    | inr more ↦ rw more (if-IsTimed _ _ _ v (inr (too_few twi.cycles_remaining n more)))
  ]
