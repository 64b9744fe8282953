-- ===== src/Control/Ports.antt =====
-- `selectPort` of cli/src/lib/control-plane.ts. Whether a port can be bound is a test.
use open_agent_hub.Prelude.{
  String, Bool, true, false, ◌≡◌, ◌≢◌, ◌⊎◌, inl, inr, arith, if◌then◌else◌, ℕ, zero, suc, ◌+◌, ◌≤◌,
  ◌<◌, Result, ok, thrown, Bool-cases,
}

-- `attempt`
attempt_port : (ℕ → Bool) → String → ℕ → ℕ → Result ℕ
attempt_port is_free message candidate zero =
    if is_free candidate then ok candidate else thrown message
attempt_port is_free message candidate (suc n) =
    let next = attempt_port is_free message (candidate + 1) n in
    if is_free candidate then ok candidate else next

-- `PORT_PROBE_ATTEMPTS` is 100 in the source
unfoldable pub select_port : (ℕ → Bool) → String → ℕ → ℕ → Result ℕ
unfolding attempt_port
select_port is_free message preferred attempts = attempt_port is_free message preferred attempts

nat_cases : (a b : ℕ) → (a ≡ b) ⊎ (a ≢ b)
nat_cases a b = ground arith

-- the first free port of a range
abbrev pub IsFirstFree : (ℕ → Bool) → ℕ → ℕ → ℕ → Type 0
IsFirstFree is_free first last p =
    (first ≤ p)
    × (p ≤ last)
    × (is_free p ≡ true)
    × ((q : ℕ) → first ≤ q → q < p → is_free q ≡ false)

module _ (is_free : ℕ → Bool) (message : String) where
  attempt_port-eq-ok :
      (c n : ℕ) {p : ℕ} → attempt_port is_free message c n ≡ ok p → IsFirstFree is_free c (c + n) p
  unfolding attempt_port
  attempt_port-eq-ok c zero {p} h = elim (Bool-cases (is_free c)) [
    | inl free ↦
        let same : p ≡ c = ground arith in
        rw same (omega arith, omega arith, free, (λ q low high. absurd (omega arith)))
    | inr taken ↦ absurd (ground arith)
  ]
  attempt_port-eq-ok c (suc n) {p} h = elim (Bool-cases (is_free c)) [
    | inl free ↦
        let same : p ≡ c = ground arith in
        rw same (omega arith, omega arith, free, (λ q low high. absurd (omega arith)))
    | inr taken ↦
        let later : attempt_port is_free message (c + 1) n ≡ ok p = ground arith in
        let (low, high, free, first) = attempt_port-eq-ok (c + 1) n later in
        (
          omega arith,
          omega arith,
          free,
          (λ q above below. elim (nat_cases q c) [
            | inl e ↦ rw e taken
            | inr ne ↦ first q (ground arith) below
          ]),
        )
  ]

  attempt_port-eq-thrown :
      (c n : ℕ) {e : String}
      → attempt_port is_free message c n ≡ thrown e
      → (q : ℕ) → c ≤ q
      → q ≤ c + n
      → is_free q ≡ false
  unfolding attempt_port
  attempt_port-eq-thrown c zero h q low high =
      let same : q ≡ c = omega arith in rw same (ground arith)
  attempt_port-eq-thrown c (suc n) {e} h q low high = elim (nat_cases q c) [
    | inl same ↦ rw same (ground arith)
    | inr ne ↦
        let later : attempt_port is_free message (c + 1) n ≡ thrown e = ground arith in
        attempt_port-eq-thrown (c + 1) n later q (ground arith) (omega arith)
  ]

  -- The port that is chosen is the first free one of the preferred port and the ones tried after
  -- it; the choice throws only if none of them is free.
  pub select_port_lem :
      (preferred attempts : ℕ)
      → ((p : ℕ)
          → select_port is_free message preferred attempts ≡ ok p
          → IsFirstFree is_free preferred (preferred + attempts) p)
        × ((e : String)
            → select_port is_free message preferred attempts ≡ thrown e
            → (q : ℕ) → preferred ≤ q
            → q ≤ preferred + attempts
            → is_free q ≡ false)
  unfolding select_port
  select_port_lem preferred attempts = (
    (λ p h. attempt_port-eq-ok preferred attempts h),
    (λ e h q low high. attempt_port-eq-thrown preferred attempts h q low high),
  )
