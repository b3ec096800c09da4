-- ===== src/Kernel/Held.antt =====
-- `Held` of crates/kernel/src/flow.rs: exactly what one outstanding obligation holds.
use edet.Base.{ℕ, List, []}
use edet.Base.Sums.{sum_by}

pub record Held : Type 0 where
  pub edges : List ((ℕ × ℕ) × ℕ)
  pub supply : List (ℕ × ℕ)

-- `Held::default()`
abbrev pub empty : Held
empty = record { edges = []; supply = [] }

-- `Held::amount`: every unit crosses exactly one supply arc.
unfoldable pub amount : Held → ℕ
amount held = sum_by (λ e. e.1) held.supply
