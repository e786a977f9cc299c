-- ===== src/Result.antt =====
-- A fallible computation, for Rust's `Result<_, String>` and its `?`.

-- The messages of core/src/query.rs and of what it calls.
pub data Error : Type 0 where
  needs_snapshot matching_failed query_too_long too_many_tokens unclosed_quotation : Error
  unexpected_character unclosed_group unexpected_closing_group closing_group_in_macro : Error
  nesting_too_deep too_many_expressions missing_expression macro_too_deep : Error
  expected_expression invalid_atom cancelled too_many_leases lease_expired : Error
  -- Of the model alone: a loop was given too few turns.
  out_of_fuel : Error

pub data Result {ℓ} (T : Type ℓ) : Type ℓ where
  err : Error → Result T
  ok : T → Result T

-- `value?`, then what is done with the value
infixl 5 ◌>>=◌
abbrev pub ◌>>=◌ {ℓ κ} : {T : Type ℓ} {U : Type κ} → Result T → (T → Result U) → Result U
err message >>= then = err message
ok value >>= then = then value
