-- ===== src/Config/Row.antt =====
-- src/db/accounts.rs: a row of the table of accounts, with its runtime row. A failure and the settings that the table
-- stores as JSON are their texts.
use clewdr_hub.Common.{
  ℕ, ◌≤◌, ◌≡◌, String, Bool, Option, List, [], ◌∷◌, and_then, filter_option, ◌==◌, ==_iff,
  Bool-cases, inl, inr, count, arith, ltbℤ, ℤ,
}
use clewdr_hub.Config.Slot.{TokenInfo}
use clewdr_hub.Config.Runtime.{RuntimeStateParams}

-- `AccountWithRuntime`, the columns that the modelled code reads. `runtime` is the `RuntimeStateRow`, which
-- `to_params` copies field by field into a `RuntimeStateParams`.
pub record AccountWithRuntime : Type 0 where
  pub id : ℕ
  pub max_slots : ℤ
  pub proxy_url : Option String
  pub drain_first : Bool
  pub status : String
  pub auth_source : String
  pub cookie_blob : Option String
  pub oauth_token : Option TokenInfo
  pub last_refresh_at : Option String
  pub invalid_reason : Option (List ℕ)
  pub last_failure : Option String
  pub email : Option String
  pub account_type : Option String
  pub api_key_base_url : Option String
  pub api_key_secret : Option String
  pub api_key_extra_headers : Option String
  pub api_key_extra_body : Option String
  pub mimicry_mode : String
  pub mimicry_config : Option String
  pub runtime : Option RuntimeStateParams

-- `active_reset_time`, by its own reading of the clock.
unfoldable pub active_reset_time : ℤ → AccountWithRuntime → Option ℤ
active_reset_time clock account =
    filter_option (λ ts. ltbℤ clock ts) (and_then account.runtime (λ r. r.reset_time))

-- No two rows have the same id.
abbrev pub AreDistinct : List AccountWithRuntime → Type 0
AreDistinct [] = Unit {0}
AreDistinct (a ∷ accounts) = (count (λ b. b.id == a.id) accounts ≡ 0) × AreDistinct accounts

pub AreDistinct-at_most_one :
    (id : ℕ) (accounts : List AccountWithRuntime)
    → AreDistinct accounts
    → count (λ b. b.id == id) accounts ≤ 1
unfolding count
AreDistinct-at_most_one id [] d = omega arith
AreDistinct-at_most_one id (a ∷ accounts) d = elim (Bool-cases (a.id == id)) [
  | inl e ↦
      let none_left : count (λ b. b.id == id) accounts ≡ 0 = rw (← (==_iff a.id id).0 e) d.0 in
      rw e (omega (arith, none_left))
  | inr e ↦ rw e (omega (arith, AreDistinct-at_most_one id accounts d.1))
]
